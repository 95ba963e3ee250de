-- ===== src/Api/Server/Tenants.antt =====
-- What a client's requests (server/internal/api/server.go) change and show: its own messages.
use wsms_gateway.Base.{
  ℕ, ◌≡◌, refl, sym, ap, ◌∙◌, subst, ◌⊎◌, inl, inr, none, some, IsKeyed, Bool-cases,
}
use wsms_gateway.Models.Records.{Db}
use wsms_gateway.Ws.Hub.{Hub}
use wsms_gateway.Dispatch.State.{message_key}
use wsms_gateway.Api.Reply.{Reply}
use wsms_gateway.Api.Auth.{Crypto, Request, AuthResult, client_auth}
use wsms_gateway.Api.Auth.Guards.{Authorized, client_auth-Authorized}
use wsms_gateway.Api.Auth.Denied.{Leaves, client_auth-Leaves}
use wsms_gateway.Api.RateLimit.{Limiter}
use wsms_gateway.Api.Messages.Owned.{
  foreign, ShowsOwn, Isolated, submit_message-Isolated, get_message-Isolated,
  list_messages-Isolated, cancel_message-Isolated,
}
use wsms_gateway.Api.Listing.{list_devices, list_sims}
use wsms_gateway.Api.Server.{Call, scope_of, run, Service, passes, handled, admitted, serve}

-- Nothing else runs between the statements of a call.
abbrev pub IsAlone : Call → Type 0
IsAlone (Call.submit w req) = (d : Db) → w.others d ≡ d
IsAlone (Call.cancel now pick others id) = (d : Db) → others d ≡ d
IsAlone _ = Unit

run-Isolated :
    (client : ℕ) (call : Call) (db : Db) (hub : Hub)
    → IsAlone call
    → IsKeyed message_key db.messages
    → Isolated client db (run client call db hub).0 (run client call db hub).1
unfolding run
run-Isolated client (Call.submit w none) db hub a k = record { shows = tt; keeps = refl }
run-Isolated client (Call.submit w (some req)) db hub a k =
    submit_message-Isolated w client db a req
run-Isolated client (Call.get id events) db hub a k = get_message-Isolated client db id events
run-Isolated client (Call.list status op) db hub a k = list_messages-Isolated client db status op
run-Isolated client (Call.cancel now pick others id) db hub a k =
    cancel_message-Isolated client db k now pick others id hub a
run-Isolated client Call.devices db hub a k =
    unfold list_devices in record { shows = tt; keeps = refl }
run-Isolated client (Call.sims ready) db hub a k =
    unfold list_sims in record { shows = tt; keeps = refl }

-- Denied with nothing changed; or made by a client that may make it, and kept to the client's messages.
pub data Served {S : Type 0} (x : Crypto) (seconds : ℕ) (r : Request) (call : Call) (s : Service S)
    : Reply → Service S → Type 0 where
  turned_away :
      (code : ℕ) → (code ≡ 401) ⊎ (code ≡ 403) → Served x seconds r call s (Reply.refused code) s
  let_in :
      (client : ℕ) (reply : Reply) (after : Service S)
      → Authorized x seconds (scope_of call) r s.db client
      → Isolated client s.db reply after.db
      → Served x seconds r call s reply after

-- The same messages were met.
met_same :
    (client : ℕ) (a b : Db) (reply : Reply) (after : Db)
    → a.messages ≡ b.messages
    → Isolated client a reply after
    → Isolated client b reply after
met_same client a b reply after e i = record {
  shows = subst (λ ms. ShowsOwn client ms reply) e i.shows;
  keeps = i.keeps ∙ ap (foreign client) e;
}

module _ {S : Type 0} (lib : Limiter S) (x : Crypto) (seconds now : ℕ) (r : Request) (call : Call)
    (s : Service S) (alone : IsAlone call) (keyed : IsKeyed message_key s.db.messages) where
  handled-Isolated :
      (client : ℕ) (db : Db)
      → db.messages ≡ s.db.messages
      → Isolated client s.db
          (handled lib now client call (record s { db = db })).0
          (handled lib now client call (record s { db = db })).1.db
  unfolding handled
  handled-Isolated client db e = elim (Bool-cases (passes lib now client call s.buckets).0) [
    | inl t ↦ rw t (
        met_same client db s.db _ _ e
          (run-Isolated client call db s.hub alone (subst (IsKeyed message_key) (sym e) keyed)))
    | inr f ↦ rw f (record { shows = tt; keeps = ap (foreign client) e })
  ]

  admitted-Served :
      (who : AuthResult) (db : Db)
      → Leaves s.db who db
      → ((client : ℕ)
          → who ≡ AuthResult.client client
          → Authorized x seconds (scope_of call) r s.db client)
      → Served x seconds r call s
          (admitted lib now call who (record s { db = db })).0
          (admitted lib now call who (record s { db = db })).1
  unfolding admitted
  admitted-Served _ _ (Leaves.denied_as code h) backed = Served.turned_away code h
  admitted-Served _ _ (Leaves.passed_as client after e) backed =
      Served.let_in client _ _ (backed client refl) (handled-Isolated client after e)

  -- A request of a client is either denied with 401 or 403, and changes nothing; or an active key of an
  -- active client with the scope of the route backs it, the messages of all other clients stay as they
  -- were, and every message in the answer is one of that client. This takes that the messages have
  -- distinct ids, and that no other call runs between its statements.
  pub serve-Served :
      Served x seconds r call s
        (serve lib x seconds now r call s).0
        (serve lib x seconds now r call s).1
  unfolding serve
  serve-Served =
      admitted-Served (client_auth x seconds (scope_of call) r s.db).0
        (client_auth x seconds (scope_of call) r s.db).1
        (client_auth-Leaves x seconds (scope_of call) r s.db)
        (λ client h. client_auth-Authorized x seconds (scope_of call) r s.db h)
