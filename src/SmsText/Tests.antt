-- ===== src/SmsText/Tests.antt =====
-- Runs of `Analyze`, and the theorems about it at concrete texts.
use wsms_gateway.Base.{◌≡◌, refl, ℕ, ◌≤◌, ◌⊎◌, true, false, [], ◌++◌}
use wsms_gateway.Models.Enums.{Encoding}
use wsms_gateway.Models.Records.{Text}
use wsms_gateway.Text.{codes}
use wsms_gateway.SmsText.{analyze, utf16_len}
use wsms_gateway.SmsText.Bounds.{is_gsm, septets, IsLeast, analyze-IsLeast, analyze_mono}

abbrev repeat : ℕ → Text → Text
repeat ℕ.zero s = []
repeat (ℕ.suc n) s = s ++ repeat n s

-- Among them cases of segment_test.go.
analyze_tests :
    (analyze (codes "") ≡ (Encoding.gsm7, 1))
    × (analyze (codes "Kode OTP Anda 123456") ≡ (Encoding.gsm7, 1))
    × (analyze (repeat 161 (codes "a")) ≡ (Encoding.gsm7, 2))
    × (analyze (repeat 81 (codes "€")) ≡ (Encoding.gsm7, 2))
    × (analyze (codes "日本") ≡ (Encoding.ucs2, 1))
    × (analyze (repeat 36 (codes "😀")) ≡ (Encoding.ucs2, 2))
unfolding analyze
analyze_tests = (refl, refl, refl, refl, refl, refl)

abbrev euros : Text
euros = codes "5€"

analyze-IsLeast_example :
    ((is_gsm euros ≡ true)
      × (((analyze euros).0 ≡ Encoding.gsm7) × IsLeast 160 153 (septets euros) (analyze euros).1))
    ⊎ ((is_gsm euros ≡ false)
        × (((analyze euros).0 ≡ Encoding.ucs2) × IsLeast 70 67 (utf16_len euros) (analyze euros).1))
analyze-IsLeast_example = analyze-IsLeast euros

analyze_mono_example : (analyze euros).1 ≤ (analyze (euros ++ codes "日")).1
analyze_mono_example = analyze_mono euros (codes "日")
