-- ===== src/Api/Device/Enrolling.antt =====
-- What an enrollment makes of its token (server/internal/api/ws.go).
use wsms_gateway.Base.{
  ℕ, ◌≡◌, refl, sym, ap, ◌∙◌, Bool, true, false, ◌==◌, ==_refl, none, some, List, [], ◌∷◌, first,
  first-In, first_sound, update_where, In, inl, inr, Option-cases, Bool-cases, arith,
}
use wsms_gateway.Models.Records.{Text, EnrollmentToken, Db}
use wsms_gateway.Text.{text_eq}
use wsms_gateway.Ws.Protocol.{SimInfo}
use wsms_gateway.Fleet.{Ids, upsert_sims}
use wsms_gateway.Api.Reply.{Reply}
use wsms_gateway.Api.Device.{EnrollReq, Enroll, is_usable, with_sims, enroll_device}

-- One row has the token.
pub IsSingle : Text → List EnrollmentToken → Type 0
IsSingle h tokens =
    (u v : EnrollmentToken)
    → In u tokens
    → In v tokens
    → text_eq u.token_hash h ≡ true
    → text_eq v.token_hash h ≡ true
    → u.id ≡ v.id

abbrev spend : Enroll → EnrollmentToken → EnrollmentToken
spend w u = record u {
  used = true;
  used_at = some w.now;
  device_id = some w.new_id;
  updated_at = w.now;
}

none_usable :
    (w : Enroll) (now : ℕ) (h : Text) (id : ℕ) (xs : List EnrollmentToken)
    → ((u : EnrollmentToken) → In u xs → text_eq u.token_hash h ≡ true → u.id ≡ id)
    → first (is_usable now h) (update_where (λ u. u.id == id) (spend w) xs) ≡ none
none_usable w now h id [] only = refl
none_usable w now h id (x ∷ xs) only =
    let ih = none_usable w now h id xs (λ u m. only u (inr m)) in
    elim (Bool-cases (x.id == id)) [
      | inl t ↦ elim (Bool-cases (text_eq x.token_hash h)) [
        | inl same ↦ rw (t, same) ih
        | inr other ↦ rw (t, other) ih
      ]
      | inr f ↦ elim (Bool-cases (text_eq x.token_hash h)) [
        | inl same ↦ absurd (apart (sym f ∙ named (only x (inl refl) same)))
        | inr other ↦ rw (f, other) ih
      ]
    ]
  where
    apart : ◌≡◌ {A = Bool} false true → ⊥
    apart z = cc

    named : {i : ℕ} → i ≡ id → (i == id) ≡ true
    named e = rw e (==_refl id)

upsert_sims-tokens :
    (now : ℕ) (ids : Ids) (device : ℕ) (report : List SimInfo) (d : Db)
    → (upsert_sims now ids device report d).0.tokens ≡ d.tokens
upsert_sims-tokens now ids device report d =
    unfold upsert_sims in
    elim (Bool-cases (upsert_sims now ids device report d).1) [
      | inl t ↦ ground arith
      | inr f ↦ ground arith
    ]

with_sims-tokens :
    (w : Enroll) (sims : List SimInfo) (db : Db) → (with_sims w sims db).tokens ≡ db.tokens
with_sims-tokens w [] db = refl
with_sims-tokens w (s ∷ sims) db = upsert_sims-tokens w.now w.ids w.new_id (s ∷ sims) db

refused_of :
    (w : Enroll) (req : EnrollReq) (d : Db)
    → first (is_usable w.now req.token_hash) d.tokens ≡ none
    → enroll_device w req d ≡ (Reply.refused 401, d)
unfolding enroll_device
refused_of w req d h = rw (h, enroll_device) refl

left_unusable :
    (w : Enroll) (req : EnrollReq) (db : Db) (device now : ℕ)
    → IsSingle req.token_hash db.tokens
    → (enroll_device w req db).0 ≡ Reply.enrolled device
    → first (is_usable now req.token_hash) (enroll_device w req db).1.tokens ≡ none
unfolding enroll_device IsSingle
left_unusable w req db device now single done =
    elim (Option-cases (first (is_usable w.now req.token_hash) db.tokens)) [
      | inl q ↦ absurd (refused-ne-enrolled (rw (q, enroll_device) at done))
      | inr (t, q) ↦ elim (Bool-cases w.creates) [
        | inr n ↦ absurd (refused-ne-enrolled (rw (q, enroll_device, n) at done))
        | inl y ↦
            let met = first_sound (is_usable w.now req.token_hash) db.tokens q in
            let mine : text_eq t.token_hash req.token_hash ≡ true = ground arith in
            let within = first-In (is_usable w.now req.token_hash) t db.tokens q in
            let spent =
              none_usable w now req.token_hash t.id db.tokens
                (λ u m same. single u t m within same mine) in
            rw (q, enroll_device, y)
              (ap (first (is_usable now req.token_hash)) (with_sims-tokens w req.sims _) ∙ spent)
      ]
    ]
  where
    refused-ne-enrolled : {n k : ℕ} → ◌≡◌ {A = Reply} (Reply.refused n) (Reply.enrolled k) → ⊥
    refused-ne-enrolled z = cc

-- Where one row has the token that enrollDevice accepts, the token is spent: whatever is sent with it
-- afterwards, at any time, is refused with 401 and changes nothing.
pub enroll_device_spent :
    (w : Enroll) (req : EnrollReq) (db : Db) (device : ℕ)
    → IsSingle req.token_hash db.tokens
    → (enroll_device w req db).0 ≡ Reply.enrolled device
    → (w' : Enroll) (req' : EnrollReq) → req'.token_hash ≡ req.token_hash
    → enroll_device w' req' (enroll_device w req db).1
      ≡ (Reply.refused 401, (enroll_device w req db).1)
enroll_device_spent w req db device single done w' req' again =
    refused_of w' req' (enroll_device w req db).1 (
      ap (λ h. first (is_usable w'.now h) (enroll_device w req db).1.tokens) again
      ∙ left_unusable w req db device w'.now single done)
