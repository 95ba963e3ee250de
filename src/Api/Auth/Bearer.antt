-- ===== src/Api/Auth/Bearer.antt =====
-- What parseBearer and parseDeviceBearer (server/internal/api) read from a header.
use wsms_gateway.Base.{
  ◌≡◌, refl, ◌∙◌, true, false, ◌||◌, Option, none, some, ◌∷◌, ◌++◌, arith, length, Option-cases,
  Bool-cases, inl, inr, ap, not, leb,
}
use wsms_gateway.Models.Records.{Text, is_empty}
use wsms_gateway.Text.{has_prefix, drop, cut}
use wsms_gateway.Text.Laws.{cut-append, cut_sound, has_prefix-drop}
use wsms_gateway.Api.Auth.{
  both_parts, bearer, bearer_dev, wsms_prefix, parse_bearer, parse_device_bearer,
}

-- An id without a dot, and a secret.
pub record IsToken (id secret : Text) : Type 0 where
  pub no_dot : cut b'.' id ≡ none
  pub some_id : is_empty id ≡ false
  pub some_secret : is_empty secret ≡ false

both_parts_of :
    (id secret : Text) → IsToken id secret → both_parts (some (id, secret)) ≡ some (id, secret)
both_parts_of id secret v = rw (v.some_id, v.some_secret) refl

-- The header "Bearer wsms_<id>.<secret>" that a client builds gives back both parts.
pub parse_bearer_token :
    (id secret : Text)
    → IsToken id secret
    → parse_bearer (bearer ++ (wsms_prefix ++ (id ++ b'.' ∷ secret))) ≡ some (id, secret)
unfolding parse_bearer
parse_bearer_token id secret v = rw (cut-append b'.' id secret v.no_dot) (both_parts_of id secret v)

both_parts_sound :
    (s a b : Text) → both_parts (cut b'.' s) ≡ some (a, b) → IsToken a b × (s ≡ a ++ b'.' ∷ b)
both_parts_sound s a b h = elim (Option-cases (cut b'.' s)) [
  | inl missing ↦ absurd (none-ne-some (rw missing at h))
  | inr ((x, y), found) ↦
      let (whole, before) = cut_sound b'.' s x y found in
      let parts : both_parts (some (x, y)) ≡ some (a, b) = rw found at h in ground arith
]
  where
    none-ne-some : ◌≡◌ {A = Option (Text × Text)} none (some (a, b)) → ⊥
    none-ne-some h = cc

-- What is read is an id without a dot and a secret, both written in the header.
pub parse_device_bearer_sound :
    (h a b : Text)
    → parse_device_bearer h ≡ some (a, b)
    → IsToken a b × (h ≡ bearer_dev ++ (a ++ b'.' ∷ b))
unfolding parse_device_bearer
parse_device_bearer_sound h a b e =
    elim (Bool-cases (leb (length h) (length bearer_dev) || not (has_prefix h bearer_dev))) [
      | inl bad ↦ absurd (none-ne-some (rw bad at e))
      | inr good ↦
          let (token, rest) = both_parts_sound (drop (length bearer_dev) h) a b (rw good at e) in
          let starts : has_prefix h bearer_dev ≡ true = ground arith in
          (token, has_prefix-drop h bearer_dev starts ∙ ap (λ r. bearer_dev ++ r) rest)
    ]
  where
    none-ne-some : ◌≡◌ {A = Option (Text × Text)} none (some (a, b)) → ⊥
    none-ne-some h = cc
