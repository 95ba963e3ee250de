-- ===== src/Router/Msisdn/Detect.antt =====
-- The canonical form is a fixed point of `NormalizeMSISDN`, and `DetectOperator` reads the prefix
-- of the local spelling from it (server/internal/router/operator.go).
use mathlib.Core.List.{reverse, reverse-reverse, reverse-cons}
use mathlib.Core.Option
use wsms_gateway.Base.{
  ℕ, ◌≡◌, refl, ◌∙◌, inl, inr, Bool, true, ◌&&◌, ◌||◌, some, List, [], ◌∷◌, ◌++◌, arith, ◌==◌,
}
use wsms_gateway.Models.Enums.{Operator}
use wsms_gateway.Models.Records.{Text}
use wsms_gateway.Text.{is_space, trim_left, trim_space, is_digit, all, strip}
use wsms_gateway.Router.Msisdn.{is_separator, normalize_msisdn, lookup, or_unknown, detect_operator}
use wsms_gateway.Router.Msisdn.Canonical.{IsSubscriber, canonical, Writes, normalize_msisdn_iff}

-- The characters of a number written without separators.
abbrev is_plain : ℕ → Bool
is_plain c = is_digit c || c == b'+'

trim_left_of_plain : (s : Text) → all is_plain s ≡ true → trim_left s ≡ s
unfolding trim_left is_space
trim_left_of_plain [] h = refl
trim_left_of_plain (c ∷ s) h = ground arith

strip_of_plain : (s : Text) → all is_plain s ≡ true → strip is_separator s ≡ s
unfolding is_separator
strip_of_plain [] h = refl
strip_of_plain (c ∷ s) h = ground (arith, strip_of_plain s)

all-append : (p : ℕ → Bool) (s t : Text) → all p (s ++ t) ≡ (all p s && all p t)
all-append p [] t = refl
all-append p (c ∷ s) t = ground (arith, all-append p s t)

all-reverse : (p : ℕ → Bool) (s : Text) → all p (reverse s) ≡ all p s
all-reverse p [] = refl
all-reverse p (c ∷ s) =
    rw (reverse-cons c s, all-append p (reverse s) (c ∷ []), all-reverse p s) (ground arith)

digits_plain : (s : Text) → all is_digit s ≡ true → all is_plain s ≡ true
digits_plain [] h = refl
digits_plain (c ∷ s) h = ground (arith, digits_plain s)

bare : (s : Text) → all is_plain s ≡ true → strip is_separator (trim_space s) ≡ s
unfolding trim_space
bare s h =
    let there = trim_left_of_plain s h in
    let back = trim_left_of_plain (reverse s) (all-reverse is_plain s ∙ h) in
    rw (there, back, reverse-reverse s) (strip_of_plain s h)

normalize_of_plain :
    (s ds : Text)
    → all is_plain s ≡ true
    → IsSubscriber ds
    → Writes s ds
    → normalize_msisdn s ≡ some (canonical ds)
normalize_of_plain s ds h v w =
    (normalize_msisdn_iff s (canonical ds)).1 (ds, v, refl, rw (bare s h) w)

-- Normalising a number that was normalised changes nothing.
pub normalize_msisdn_idem :
    (raw c : Text) → normalize_msisdn raw ≡ some c → normalize_msisdn c ≡ some c
normalize_msisdn_idem raw c h =
    let (ds, v, shape, _) = (normalize_msisdn_iff raw c).0 h in
    rw shape (normalize_of_plain (canonical ds) ds (digits_plain ds v.digits) v (inl refl))

-- A number written 08ab… is accepted, and with a prefix table its operator is what the table has
-- under 08ab, or UNKNOWN.
pub detect-normalize_local :
    (a b : ℕ) (ds : Text) (table : List (Text × Operator))
    → IsSubscriber (a ∷ b ∷ ds)
    → Option.map (λ c. detect_operator c (some table)) (normalize_msisdn (b'0' ∷ b'8' ∷ a ∷ b ∷ ds))
      ≡ some (or_unknown (lookup (b'0' ∷ b'8' ∷ a ∷ b ∷ []) table))
unfolding detect_operator
detect-normalize_local a b ds table v =
    let found =
      normalize_of_plain (b'0' ∷ b'8' ∷ a ∷ b ∷ ds) (a ∷ b ∷ ds)
        (digits_plain (a ∷ b ∷ ds) v.digits) v (inr (inr (inl refl))) in
    rw found (ground arith)
