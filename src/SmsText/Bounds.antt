-- ===== src/SmsText/Bounds.antt =====
-- What `Analyze` (server/internal/smstext/segment.go) computes, against a description without
-- loops that break off: the weight of a text in septets, and the least number of parts.
use wsms_gateway.Base.{
  ℕ, ◌+◌, ◌*◌, ◌≤◌, ◌<◌, ◌≡◌, refl, ◌⊎◌, inl, inr, Bool, true, false, ◌&&◌, ◌||◌, none, some, [],
  ◌∷◌, ◌++◌, arith, if◌then◌else◌, Bool-cases,
}
use wsms_gateway.Models.Enums.{Encoding}
use wsms_gateway.Models.Records.{Text}
use wsms_gateway.SmsText.{
  basic_set, ext_set, septets_from, utf16_len, seg_count, analyze_from, analyze,
}

-- Every rune is in one of the two GSM 03.38 tables.
pub is_gsm : Text → Bool
is_gsm [] = true
is_gsm (r ∷ body) = (basic_set r || ext_set r) && is_gsm body

-- One septet for a rune of the basic table, two for one of the extension table.
pub septets : Text → ℕ
septets [] = 0
septets (r ∷ body) = (if basic_set r then 1 else 2) + septets body

septets_from-eq :
    (n : ℕ) (body : Text)
    → septets_from n body ≡ (if is_gsm body then some (n + septets body) else none)
unfolding septets_from is_gsm septets
septets_from-eq n [] = ground arith
septets_from-eq n (r ∷ body) =
    ground (arith, septets_from-eq (n + 1) body, septets_from-eq (n + 2) body)

analyze-eq :
    (body : Text)
    → analyze body ≡ (
        if is_gsm body
        then (Encoding.gsm7, seg_count (septets body) 160 153)
        else (Encoding.ucs2, seg_count (utf16_len body) 70 67))
unfolding analyze_from analyze
analyze-eq body = ground (arith, septets_from-eq 0 body)

-- `s` parts hold `units`, and fewer do not: one part of `single` units, or parts of `multi` units.
abbrev pub IsLeast : ℕ → ℕ → ℕ → ℕ → Type 0
IsLeast single multi units s =
    ((units ≤ single) × (s ≡ 1))
    ⊎ ((single < units) × (units ≤ s * multi) × (s * multi < units + multi))

gsm_IsLeast : (n : ℕ) → IsLeast 160 153 n (seg_count n 160 153)
unfolding seg_count
gsm_IsLeast n = ground arith

ucs_IsLeast : (n : ℕ) → IsLeast 70 67 n (seg_count n 70 67)
unfolding seg_count
ucs_IsLeast n = ground arith

-- The encoding is GSM7 exactly when every rune is in a GSM table, and in either encoding the
-- number of segments is the least that holds the text, counted in septets or UTF-16 units.
pub analyze-IsLeast :
    (body : Text)
    → ((is_gsm body ≡ true)
        × (((analyze body).0 ≡ Encoding.gsm7) × IsLeast 160 153 (septets body) (analyze body).1))
      ⊎ ((is_gsm body ≡ false)
          × (((analyze body).0 ≡ Encoding.ucs2) × IsLeast 70 67 (utf16_len body) (analyze body).1))
analyze-IsLeast body = elim (Bool-cases (is_gsm body)) [
  | inl g ↦ inl (g, (rw (analyze-eq body, g), rw (analyze-eq body, g) (gsm_IsLeast (septets body))))
  | inr u ↦
      inr (u, (rw (analyze-eq body, u), rw (analyze-eq body, u) (ucs_IsLeast (utf16_len body))))
]

septets-append : (a b : Text) → septets (a ++ b) ≡ septets a + septets b
unfolding septets
septets-append [] b = omega arith
septets-append (r ∷ a) b = omega (arith, septets-append a b)

utf16_len-append : (a b : Text) → utf16_len (a ++ b) ≡ utf16_len a + utf16_len b
unfolding utf16_len
utf16_len-append [] b = omega arith
utf16_len-append (r ∷ a) b = omega (arith, utf16_len-append a b)

is_gsm-append : (a b : Text) → is_gsm (a ++ b) ≡ (is_gsm a && is_gsm b)
unfolding is_gsm
is_gsm-append [] b = refl
is_gsm-append (r ∷ a) b = ground (arith, is_gsm-append a b)

septets-le : (a : Text) → septets a ≤ 2 * utf16_len a
unfolding septets utf16_len
septets-le [] = omega arith
septets-le (r ∷ a) = ground (arith, septets-le a)

gsm_mono : (m n : ℕ) → m ≤ n → seg_count m 160 153 ≤ seg_count n 160 153
unfolding seg_count
gsm_mono m n h = ground arith

ucs_mono : (m n : ℕ) → m ≤ n → seg_count m 70 67 ≤ seg_count n 70 67
unfolding seg_count
ucs_mono m n h = ground arith

gsm-le-ucs : (m n : ℕ) → m ≤ 2 * n → seg_count m 160 153 ≤ seg_count n 70 67
unfolding seg_count
gsm-le-ucs m n h = ground arith

-- A longer text never costs fewer segments, also where the added part changes the encoding.
pub analyze_mono : (a b : Text) → (analyze a).1 ≤ (analyze (a ++ b)).1
analyze_mono a b =
    rw (analyze-eq a, analyze-eq (a ++ b), is_gsm-append a b)
      (ground (
        arith,
        septets-append a b,
        utf16_len-append a b,
        septets-le a,
        gsm_mono (septets a) (septets (a ++ b)),
        ucs_mono (utf16_len a) (utf16_len (a ++ b)),
        gsm-le-ucs (septets a) (utf16_len (a ++ b)),
      ))
