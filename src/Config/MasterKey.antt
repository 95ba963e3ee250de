-- ===== src/Config/MasterKey.antt =====
-- The master key of the settings (server/internal/config/config.go).
use mathlib.Core.Bool.{true≢false}
use wsms_gateway.Base.{
  Bool, ==_iff, sym, ◌≡◌, refl, ◌∙◌, true, false, Option, none, some, arith, ◌==◌, length,
  Bool-cases, inl, inr,
}
use wsms_gateway.Models.Records.{Text}
use wsms_gateway.Text.{codes}
use wsms_gateway.Text.Hex.{
  decode_hex, length-decode_hex, Writes, decode_hex-Writes, Writes-decode_hex,
}
use wsms_gateway.Config.{Environ, Library, derive_dev_key, decoded_key, master_key_of, load}

abbrev pub secret_key : Text
secret_key = codes "WSMS_SECRET_KEY"

module _ {Float : Type 0} (lib : Library Float) where
  decoded_sized :
      (raw : Text) (found : Option Text)
      → decode_hex raw ≡ found
      → (length raw == 64) ≡ true
      → ((s : Text) → length (lib.sum256 s) ≡ 32)
      → length (decoded_key lib found).0 ≡ 32
  unfolding decoded_key
  decoded_sized raw none e t sum = sum (codes "wsms-dev-insecure-master-key")
  decoded_sized raw (some b) e t sum =
      let twice = length-decode_hex raw b e in
      let full : length raw ≡ 64 = (==_iff (length raw) 64).0 t in omega (arith, twice, full)

  -- What the settings promise of the master key, for the value of WSMS_SECRET_KEY.
  pub record KeyFor (raw key : Text) (dev : Bool) : Type 0 where
    pub sized : length key ≡ 32
    pub given : (s : Text) → length s ≡ 32 → Writes raw s → (key ≡ s) × (dev ≡ false)
    pub derived :
        dev ≡ true → (key ≡ derive_dev_key lib) × ((s : Text) → length s ≡ 32 → Writes raw s → ⊥)
    pub own : dev ≡ false → Writes raw key

  short_raw : (raw s : Text) → (length raw == 64) ≡ false → length s ≡ 32 → Writes raw s → ⊥
  short_raw raw s short sized w =
      let twice = length-decode_hex raw s (decode_hex-Writes raw s w) in absurd (ground arith)

  full_KeyFor :
      (raw : Text) (found : Option Text)
      → decode_hex raw ≡ found
      → (length raw == 64) ≡ true
      → ((s : Text) → length (lib.sum256 s) ≡ 32)
      → KeyFor raw (decoded_key lib found).0 (decoded_key lib found).1
  unfolding decoded_key
  full_KeyFor raw none e t sum = record {
    sized = sum (codes "wsms-dev-insecure-master-key");
    given = λ s sized w. absurd (no_text s (sym e ∙ decode_hex-Writes raw s w));
    derived = λ h. (refl, λ s sized w. no_text s (sym e ∙ decode_hex-Writes raw s w));
    own = λ h. absurd (cc h);
  }
    where
      no_text : (s : Text) → ◌≡◌ {A = Option Text} none (some s) → ⊥
      no_text s q = cc
  full_KeyFor raw (some b) e t sum = record {
    sized = decoded_sized raw (some b) e t sum;
    given = λ s sized w. (same s (sym e ∙ decode_hex-Writes raw s w), refl);
    derived = λ h. absurd (cc h);
    own = λ h. Writes-decode_hex raw b e;
  }
    where
      same : (s : Text) → some b ≡ some s → b ≡ s
      same s q = cc

  -- The master key has 32 bytes whatever the environment holds. Where WSMS_SECRET_KEY writes 32
  -- bytes, each with two hexadecimal digits of either case, it is those bytes and is not marked; in
  -- every other case it is the insecure one, and is marked as such. This takes that a SHA-256 sum
  -- has 32 bytes.
  pub load-KeyFor :
      (five : Float) (vars : Environ)
      → ((s : Text) → length (lib.sum256 s) ≡ 32)
      → KeyFor (vars secret_key) (load lib five vars).master_key (load lib five vars).master_key_dev
  unfolding load master_key_of
  load-KeyFor five vars sum =
      let raw = vars secret_key in
      elim (Bool-cases (length raw == 64)) [
        | inl full ↦ rw full (full_KeyFor raw (decode_hex raw) refl full sum)
        | inr short ↦ rw short (record {
          sized = sum (codes "wsms-dev-insecure-master-key");
          given = λ s sized w. absurd (short_raw raw s short sized w);
          derived = λ h. (refl, λ s sized w. short_raw raw s short sized w);
          own = λ h. absurd (true≢false h);
        })
      ]
