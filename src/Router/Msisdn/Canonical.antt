-- ===== src/Router/Msisdn/Canonical.antt =====
-- Which inputs `NormalizeMSISDN` (server/internal/router/operator.go) accepts, and what it returns.
use wsms_gateway.Base.{
  ◌≤◌, ◌≡◌, sym, ap, ◌∙◌, ◌⊎◌, ◌↔◌, inl, inr, true, none, some, [], ◌∷◌, arith, length,
  Option-cases,
}
use wsms_gateway.Models.Records.{Text}
use wsms_gateway.Text.{drop, trim_space, is_digit, all, strip}
use wsms_gateway.Text.Laws.{has_prefix-drop}
use wsms_gateway.Router.Msisdn.{is_separator, is_e164, with_country, checked, normalize_msisdn}

-- What follows +628 in a canonical number: 7 to 12 digits.
pub record IsSubscriber (ds : Text) : Type 0 where
  pub digits : all is_digit ds ≡ true
  pub at_least : 7 ≤ length ds
  pub at_most : length ds ≤ 12

abbrev pub canonical : Text → Text
canonical ds = b'+' ∷ b'6' ∷ b'2' ∷ b'8' ∷ ds

-- The four ways to write a number: +628…, 628…, 08… and 8….
abbrev pub Writes : Text → Text → Type 0
Writes s ds =
    (s ≡ canonical ds)
    ⊎ ((s ≡ b'6' ∷ b'2' ∷ b'8' ∷ ds) ⊎ ((s ≡ b'0' ∷ b'8' ∷ ds) ⊎ (s ≡ b'8' ∷ ds)))

is_e164_sound : (s : Text) → is_e164 s ≡ true → (s ≡ canonical (drop 4 s)) × IsSubscriber (drop 4 s)
unfolding is_e164
is_e164_sound s h = ground (arith, has_prefix-drop s (canonical []))

is_e164_complete : (ds : Text) → IsSubscriber ds → is_e164 (canonical ds) ≡ true
unfolding is_e164
is_e164_complete ds v = ground (arith, v.digits)

checked_sound : (s c : Text) → checked (some s) ≡ some c → (c ≡ s) × (is_e164 s ≡ true)
unfolding checked
checked_sound s c h = ground arith

country_sound : (s t ds : Text) → with_country s ≡ some t → t ≡ canonical ds → Writes s ds
unfolding with_country
country_sound s t ds h e = ground (
  arith,
  has_prefix-drop s (b'6' ∷ b'2' ∷ []),
  has_prefix-drop s (b'0' ∷ []),
  has_prefix-drop s (b'8' ∷ []),
)

normalized_sound :
    (s c : Text)
    → checked (with_country s) ≡ some c
    → (ds : Text) × IsSubscriber ds × (c ≡ canonical ds) × Writes s ds
normalized_sound s c h = elim (Option-cases (with_country s)) [
  | inl missing ↦ absurd (none_checked (rw missing at h))
  | inr (t, e) ↦
      let (same, fits) = checked_sound t c (rw e at h) in
      let (shape, v) = is_e164_sound t fits in
      (drop 4 t, v, same ∙ shape, country_sound s t (drop 4 t) e shape)
]
  where
    none_checked : checked none ≡ some c → ⊥
    none_checked e = unfold checked in cc

country_complete : (s ds : Text) → Writes s ds → with_country s ≡ some (canonical ds)
unfolding with_country
country_complete s ds (inl e) = rw e
country_complete s ds (inr (inl e)) = rw e
country_complete s ds (inr (inr (inl e))) = rw e
country_complete s ds (inr (inr (inr e))) = rw e

normalized_complete :
    (s ds : Text) → IsSubscriber ds → Writes s ds → checked (with_country s) ≡ some (canonical ds)
unfolding checked
normalized_complete s ds v w = rw (country_complete s ds w, is_e164_complete ds v)

-- The input is accepted with the result `c` exactly when, without the white space around it and
-- the separators in it, it is one of the four spellings of a subscriber number of 7 to 12 digits
-- behind the 8, and `c` is +628 and those digits.
pub normalize_msisdn_iff :
    (raw c : Text)
    → (normalize_msisdn raw ≡ some c) ↔ (
        (ds : Text) × IsSubscriber ds
        × (c ≡ canonical ds)
        × Writes (strip is_separator (trim_space raw)) ds)
unfolding normalize_msisdn
normalize_msisdn_iff raw c =
    (normalized_sound _ c, λ r. normalized_complete _ r.0 r.1 r.3 ∙ sym (ap some r.2))
