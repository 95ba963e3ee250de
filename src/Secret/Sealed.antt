-- ===== src/Secret/Sealed.antt =====
-- Seal and Open of server/internal/secret/secret.go. AES-GCM is a parameter.
use wsms_gateway.Base.{
  ℕ, ◌≡◌, ◌<◌, refl, ap, Bool-cases, inl, inr, false, not, Option, none, some, [], ◌∷◌, ◌++◌, ltb,
  ◌==◌, length, arith, if◌then◌else◌,
}
use wsms_gateway.Models.Records.{Text, is_empty}
use wsms_gateway.Text.{take, drop}
use wsms_gateway.Text.Laws.{drop-append}

-- `cipher.AEAD` under a key of 32 bytes: `Seal` and `Open` of a key, a nonce and a text.
pub record Aead : Type 0 where
  pub nonce_size : ℕ
  pub seal_text : Text → Text → Text → Text
  pub open_text : Text → Text → Text → Option Text

-- `Seal`; the nonce is what `rand.Read` gives.
unfoldable pub seal : Aead → Text → Option Text → Text → Option Text
seal lib key none plain = none
seal lib key (some nonce) plain =
    if length key == 32 then some (nonce ++ lib.seal_text key nonce plain) else none

-- `Open`.
unfoldable pub open_blob : Aead → Text → Text → Option Text
open_blob lib key blob =
    if not (length key == 32)
    then none
    else if ltb (length blob) lib.nonce_size
    then none
    else lib.open_text key (take lib.nonce_size blob) (drop lib.nonce_size blob)

take-append : (p s : Text) → take (length p) (p ++ s) ≡ p
take-append [] s = refl
take-append (c ∷ p) s = ap (λ t. c ∷ t) (take-append p s)

length_append : (p s : Text) → ltb (length (p ++ s)) (length p) ≡ false
length_append [] s = ground arith
length_append (c ∷ p) s = ground (arith, length_append p s)

-- Open gives back what Seal was given under the same key, and the blob is not empty. This takes that
-- AES-GCM opens what it sealed under a nonce, and that the nonce has its size.
pub open_blob-seal :
    (lib : Aead) (key nonce plain blob : Text)
    → ((n p : Text) → lib.open_text key n (lib.seal_text key n p) ≡ some p)
    → length nonce ≡ lib.nonce_size
    → 0 < lib.nonce_size
    → seal lib key (some nonce) plain ≡ some blob
    → (open_blob lib key blob ≡ some plain) × (is_empty blob ≡ false)
unfolding seal open_blob
open_blob-seal lib key nonce plain blob opens sized filled sealed =
    elim (Bool-cases (length key == 32)) [
      | inr f ↦ absurd (none-ne-some (rw f at sealed))
      | inl t ↦
          let same : nonce ++ lib.seal_text key nonce plain ≡ blob = some_only (rw t at sealed) in
          (
            rw (← same, t, ← sized, length_append nonce _, take-append nonce _, drop-append nonce _)
                (opens nonce plain),
            rw (← same) (front nonce _ (rw sized filled)),
          )
    ]
  where
    none-ne-some : ◌≡◌ {A = Option Text} none (some blob) → ⊥
    none-ne-some z = cc

    some_only : {a b : Text} → some a ≡ some b → a ≡ b
    some_only z = cc

    front : (n s : Text) → 0 < length n → is_empty (n ++ s) ≡ false
    front [] s h = absurd (omega arith)
    front (c ∷ n) s h = refl
