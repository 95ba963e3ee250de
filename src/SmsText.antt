-- ===== src/SmsText.antt =====
-- server/internal/smstext/segment.go: the encoding of a message and its number of segments. A
-- body is its list of runes, as `range` reads it. The two maps of runes are the membership tests
-- of their source strings.
pub mod Bounds
mod Tests
use wsms_gateway.Base.{
  ℕ, ◌+◌, ◌-◌, ◌*◌, ◌/◌, Bool, true, false, ◌||◌, Option, none, some, List, [], ◌∷◌, any, ltb, leb,
  ◌==◌, if◌then◌else◌,
}
use wsms_gateway.Models.Enums.{Encoding}
use wsms_gateway.Models.Records.{Text}
use wsms_gateway.Text.{codes}

gsm7_basic : Text
gsm7_basic =
    codes
      "@£$¥èéùìòÇ\nØø\rÅåΔ_ΦΓΛΩΠΨΣΘΞ ÆæßÉ !\"#¤%&'()*+,-./0123456789:;<=>?¡ABCDEFGHIJKLMNOPQRSTUVWXYZÄÖÑÜ§¿abcdefghijklmnopqrstuvwxyzäöñüà"

gsm7_ext : Text
gsm7_ext = codes "^{}\\[~]|€"

basic_set : ℕ → Bool
basic_set r = any (λ c. c == r) gsm7_basic

ext_set : ℕ → Bool
ext_set r = any (λ c. c == r) gsm7_ext

-- The loop of `Analyze`: the septets, or none where it breaks off.
septets_from : ℕ → Text → Option ℕ
septets_from septets [] = some septets
septets_from septets (r ∷ body) = elim (basic_set r) [
  | true ↦ septets_from (septets + 1) body
  | false ↦ elim (ext_set r) [ true ↦ septets_from (septets + 2) body | false ↦ none ]
]

-- `len(utf16.Encode(…))`: two units for a rune from U+10000 on.
pub utf16_len : Text → ℕ
utf16_len [] = 0
utf16_len (r ∷ body) = (if leb 0x10000 r then 2 else 1) + utf16_len body

seg_count : ℕ → ℕ → ℕ → ℕ
seg_count n single multi = if n == 0 then 1 else if leb n single then 1 else (n + multi - 1) / multi

analyze_from : Text → Option ℕ → Encoding × ℕ
analyze_from body (some septets) = (Encoding.gsm7, seg_count septets 160 153)
analyze_from body none = (Encoding.ucs2, seg_count (utf16_len body) 70 67)

unfoldable pub analyze : Text → Encoding × ℕ
unfolding analyze_from seg_count septets_from basic_set ext_set gsm7_basic gsm7_ext utf16_len
analyze body = analyze_from body (septets_from 0 body)
