-- ===== src/Api/Messages/Owned.antt =====
-- What submitting, reading and cancelling (server/internal/api/messages.go) change and show of the
-- messages: those of the client that asks.
use wsms_gateway.Base.{
  ℕ, ◌≡◌, refl, Bool, true, not, ◌&&◌, ◌||◌, ◌==◌, ==_refl, inl, inr, Option, none, some, List, [],
  ◌∷◌, ◌++◌, any, first, first-In, first_sound, select, update_where, All, In, IsKeyed, In-same_key,
  All-order_by, All-limit, Option-cases, Bool-cases, arith,
}
use wsms_gateway.Models.Enums.{is_queued, RoutingPolicy}
use wsms_gateway.Models.Records.{Text, is_empty, Message, MessageEvent, Db}
use wsms_gateway.Text.{text_eq}
use wsms_gateway.Router.Msisdn.{normalize_msisdn}
use wsms_gateway.Ws.Hub.{Hub}
use wsms_gateway.Dispatch.State.{message_key}
use wsms_gateway.Api.Reply.{Reply}
use wsms_gateway.Api.Listing.{newer, is_listed, list_messages}
use wsms_gateway.Api.Messages.{
  SubmitReq, Submit, policy_of, owned_by, has_dedup, conflicts, new_message, create, replay_or_fail,
  replayed, look_up, validated, submit_message, get_message, is_over, cancel_found, cancel_message,
}

abbrev is_foreign : ℕ → Message → Bool
is_foreign client m = not (m.client_id == client)

-- The messages of the other clients.
abbrev pub foreign : ℕ → List Message → List Message
foreign client = select (is_foreign client)

-- A stored message of the client.
abbrev pub Own : ℕ → List Message → Message → Type 0
Own client messages m = In m messages × (m.client_id ≡ client)

-- What an answer shows of messages is the client's own; the SIMs and devices are shown to all.
abbrev pub ShowsOwn : ℕ → List Message → Reply → Type 0
ShowsOwn client messages (Reply.replay id status) =
    (m : Message) × Own client messages m × (m.id ≡ id)
ShowsOwn client messages (Reply.cancelled id) = (m : Message) × Own client messages m × (m.id ≡ id)
ShowsOwn client messages (Reply.cancel_requested id) =
    (m : Message) × Own client messages m × (m.id ≡ id)
ShowsOwn client messages (Reply.message m events) =
    Own client messages m × All (λ (v : MessageEvent). v.message_id ≡ m.id) events
ShowsOwn client messages (Reply.messages ms) = All (Own client messages) ms
ShowsOwn client messages _ = Unit

foreign-append :
    (client : ℕ) (m : Message) (xs : List Message)
    → m.client_id ≡ client
    → foreign client (xs ++ m ∷ []) ≡ foreign client xs
foreign-append client m [] h = rw (h, ==_refl client)
foreign-append client m (x ∷ xs) h = rw (foreign-append client m xs h)

foreign-update_where :
    (client : ℕ) (p : Message → Bool) (f : Message → Message) (xs : List Message)
    → ((x : Message) → (f x).client_id ≡ x.client_id)
    → ((x : Message) → In x xs → p x ≡ true → (x.client_id == client) ≡ true)
    → foreign client (update_where p f xs) ≡ foreign client xs
foreign-update_where client p f [] keeps own = refl
foreign-update_where client p f (x ∷ xs) keeps own =
    let ih = foreign-update_where client p f xs keeps (λ y i. own y (inr i)) in
    elim (Bool-cases (p x)) [ inl t ↦ rw (t, keeps x, own x (inl refl) t) ih | inr q ↦ rw (q, ih) ]

-- What a first query by client finds.
found-Own :
    (client : ℕ) (q : Message → Bool) (m : Message) (xs : List Message)
    → ((x : Message) → q x ≡ true → (x.client_id == client) ≡ true)
    → first q xs ≡ some m
    → Own client xs m
found-Own client q m xs owns h = (first-In q m xs h, ground (arith, owns m, first_sound q xs h))

-- An answer and the tables that a call leaves, against the tables that it met.
pub record Isolated (client : ℕ) (before : Db) (reply : Reply) (after : Db) : Type 0 where
  pub shows : ShowsOwn client before.messages reply
  pub keeps : foreign client after.messages ≡ foreign client before.messages

dedup_own :
    (client : ℕ) (key : Text) (x : Message)
    → has_dedup client key x ≡ true
    → (x.client_id == client) ≡ true
dedup_own client key x h = ground arith

module _ (w : Submit) (client : ℕ) (db : Db) where
  replays_own : (key : Option Text) → Isolated client db (replay_or_fail client key db.messages) db
  replays_own none = record { shows = tt; keeps = refl }
  replays_own (some key) = elim (Option-cases (first (has_dedup client key) db.messages)) [
    | inl q ↦ rw (q, replay_or_fail) (record { shows = tt; keeps = refl })
    | inr (m, q) ↦
        rw (q, replay_or_fail)
          (record {
            shows = (
              m,
              found-Own client (has_dedup client key) m db.messages (dedup_own client key) q,
              refl,
            );
            keeps = refl;
          })
  ]

  replay_old :
      (m old : Message) → Own client db.messages old → Isolated client db (replayed w m old) db
  unfolding replayed
  replay_old m old own = elim (Bool-cases (text_eq old.payload_hash m.payload_hash)) [
    | inl t ↦ rw t (record { shows = (old, own, refl); keeps = refl })
    | inr f ↦ rw f (record { shows = tt; keeps = refl })
  ]

module _ (w : Submit) (client : ℕ) (db : Db) (alone : (d : Db) → w.others d ≡ d) where
  create-Isolated :
      (m : Message) → m.client_id ≡ client → Isolated client db (create w m db).0 (create w m db).1
  unfolding create
  create-Isolated m mine =
      elim (Bool-cases (w.creates && not (conflicts m.dedup_key m.client_id db.messages))) [
        | inl t ↦ rw t (record { shows = tt; keeps = foreign-append client m db.messages mine })
        | inr f ↦ rw (f, mine) (replays_own w client db m.dedup_key)
      ]

  look_up-Isolated :
      (m : Message) (key : Option Text)
      → m.client_id ≡ client
      → Isolated client db (look_up w m key db).0 (look_up w m key db).1
  unfolding look_up
  look_up-Isolated m none mine = rw (alone db) (create-Isolated m mine)
  look_up-Isolated m (some key) mine = elim (Bool-cases w.finds) [
    | inr f ↦ rw f (record { shows = tt; keeps = refl })
    | inl t ↦ elim (Option-cases (first (has_dedup m.client_id key) db.messages)) [
      | inl q ↦ rw (t, q, alone db) (create-Isolated m mine)
      | inr (old, q) ↦
          rw (t, q)
            (replay_old w client db m old (
              found-Own client (has_dedup m.client_id key) old db.messages
                (λ x h. rw (← mine) (dedup_own m.client_id key x h)) q))
    ]
  ]

  pub submit_message-Isolated :
      (req : SubmitReq)
      → Isolated client db (submit_message w client req db).0 (submit_message w client req db).1
  unfolding submit_message validated new_message
  submit_message-Isolated req = elim (Bool-cases (is_empty req.to || is_empty req.message)) [
    | inl t ↦ rw t (record { shows = tt; keeps = refl })
    | inr f ↦ rw f (valid (normalize_msisdn req.to) (policy_of req.routing_policy))
  ]
    where
      valid :
          (to : Option Text) (p : Option RoutingPolicy)
          → Isolated client db (validated w client req to p db).0 (validated w client req to p db).1
      valid none p = record { shows = tt; keeps = refl }
      valid (some to) none = record { shows = tt; keeps = refl }
      valid (some to) (some p) = look_up-Isolated _ _ refl

events_of :
    (id : ℕ) (xs : List MessageEvent)
    → All
        (λ (v : MessageEvent). v.message_id ≡ id)
        (select (λ (v : MessageEvent). v.message_id == id) xs)
events_of id [] = tt
events_of id (v ∷ vs) = elim (Bool-cases (v.message_id == id)) [
  | inl t ↦ rw t (ground arith, events_of id vs)
  | inr f ↦ rw f (events_of id vs)
]

listed-Own :
    (client : ℕ) (p : Message → Bool) (all xs : List Message)
    → ((x : Message) → p x ≡ true → (x.client_id == client) ≡ true)
    → ((x : Message) → In x xs → In x all)
    → All (Own client all) (select p xs)
listed-Own client p all [] owns within = tt
listed-Own client p all (x ∷ xs) owns within =
    let rest = listed-Own client p all xs owns (λ y i. within y (inr i)) in
    elim (Bool-cases (p x)) [
      | inl t ↦ rw t ((within x (inl refl), ground (arith, owns x t)), rest)
      | inr f ↦ rw f rest
    ]

module _ (client : ℕ) (db : Db) where
  owns_id : (id : ℕ) (x : Message) → owned_by id client x ≡ true → (x.client_id == client) ≡ true
  owns_id id x h = ground arith

  pub get_message-Isolated :
      (id : ℕ) (events : Bool) → Isolated client db (get_message client id events db) db
  unfolding get_message
  get_message-Isolated id events = elim (Option-cases (first (owned_by id client) db.messages)) [
    | inl q ↦ rw (q, get_message) (record { shows = tt; keeps = refl })
    | inr (m, q) ↦
        let own = found-Own client (owned_by id client) m db.messages (owns_id id) q in
        elim (Bool-cases events) [
          | inl t ↦
              rw (q, get_message, t)
                (record { shows = (own, events_of m.id db.events); keeps = refl })
          | inr f ↦ rw (q, get_message, f) (record { shows = (own, tt); keeps = refl })
        ]
  ]

  pub list_messages-Isolated :
      (status operator : Text) → Isolated client db (list_messages client status operator db) db
  unfolding list_messages
  list_messages-Isolated status operator = record {
    shows = All-limit (Own client db.messages) 50 _ (
        All-order_by (Own client db.messages) newer _ (
          listed-Own client (is_listed client status operator) db.messages db.messages
            (λ x h. ground arith) (λ x i. i)));
    keeps = refl;
  }

module _ (client : ℕ) (db : Db) (keyed : IsKeyed message_key db.messages) where
  same_owner :
      (id : ℕ) (m x : Message)
      → Own client db.messages m
      → m.id ≡ id
      → In x db.messages
      → (x.id == id && is_queued x.status) ≡ true
      → (x.client_id == client) ≡ true
  same_owner id m x (within, mine) named i h =
      let same : x ≡ m = In-same_key message_key x m db.messages keyed i within (ground arith) in
      rw (same, mine) (==_refl client)

  cancel_found-Isolated :
      (now : ℕ) (pick : Bool) (id : ℕ) (m : Message) (hub : Hub)
      → Own client db.messages m
      → m.id ≡ id
      → Isolated client db
          (cancel_found now pick id m db hub).0
          (cancel_found now pick id m db hub).1
  unfolding cancel_found
  cancel_found-Isolated now pick id m hub own named =
      elim (Bool-cases (any (λ (x : Message). x.id == id && is_queued x.status) db.messages)) [
        | inl t ↦ rw t (record {
          shows = (m, own, named);
          keeps =
              foreign-update_where client (λ x. x.id == id && is_queued x.status) _ db.messages
                (λ x. refl) (λ x. same_owner id m x own named);
        })
        | inr f ↦ elim (Bool-cases (is_over m.status)) [
          | inl o ↦ rw (f, o) (record { shows = tt; keeps = refl })
          | inr o ↦ rw (f, o) (record { shows = (m, own, named); keeps = refl })
        ]
      ]

  pub cancel_message-Isolated :
      (now : ℕ) (pick : Bool) (others : Db → Db) (id : ℕ) (hub : Hub)
      → ((d : Db) → others d ≡ d)
      → Isolated client db
          (cancel_message now pick others client id db hub).0
          (cancel_message now pick others client id db hub).1
  unfolding cancel_message
  cancel_message-Isolated now pick others id hub alone =
      elim (Option-cases (first (owned_by id client) db.messages)) [
        | inl q ↦ rw (q, cancel_message) (record { shows = tt; keeps = refl })
        | inr (m, q) ↦
            let own =
              found-Own client (owned_by id client) m db.messages (owns_id client db id) q in
            rw (q, cancel_message, alone db)
              (cancel_found-Isolated now pick id m hub own
                (ground (arith, first_sound (owned_by id client) db.messages q)))
      ]
