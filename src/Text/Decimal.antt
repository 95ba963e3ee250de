-- ===== src/Text/Decimal.antt =====
-- Decimal numbers of Go's `fmt`: the verb %d as `Sprintf` writes and `Sscanf` reads it.
use wsms_gateway.Base.{
  ℕ, zero, suc, ◌+◌, ◌-◌, ◌*◌, ◌/◌, ◌%◌, ◌^◌, Option, none, some, [], ◌∷◌, ltb, ◌==◌, if◌then◌else◌,
}
use wsms_gateway.Models.Records.{Text}
use wsms_gateway.Text.{is_space, is_digit}

-- The digits before `out`; a number has fewer digits than its successor has units.
digits : ℕ → ℕ → Text → Text
digits zero n out = out
digits (suc fuel) n out =
    let more = digits fuel (n / 10) ((n % 10 + b'0') ∷ out) in
    if ltb n 10 then (n + b'0') ∷ out else more

-- `Sprintf("%d", n)`.
unfoldable pub decimal : ℕ → Text
unfolding digits
decimal n = digits (suc n) n []

-- The spaces before a number; `Sscanf` stops at a line break.
skip_space : Text → Option Text
unfolding is_space
skip_space [] = some []
skip_space (c ∷ s) =
    let rest = skip_space s in if c == 10 then none else if is_space c then rest else some (c ∷ s)

-- The value of the digits at the front, and what follows them.
number : ℕ → Text → ℕ × Text
number n [] = (n, [])
number n (c ∷ s) =
    let rest = number (n * 10 + (c - b'0')) s in if is_digit c then rest else (n, c ∷ s)

fits : ℕ → ℕ × Text → Option (ℕ × Text)
fits bits (n, rest) = if ltb n (2 ^ bits) then some (n, rest) else none

at_digit : ℕ → Option Text → Option (ℕ × Text)
unfolding number fits
at_digit bits none = none
at_digit bits (some []) = none
at_digit bits (some (c ∷ s)) = if is_digit c then fits bits (number 0 (c ∷ s)) else none

-- %d of `Sscanf`, into an unsigned integer of so many bits.
unfoldable pub scan_uint : ℕ → Text → Option (ℕ × Text)
unfolding skip_space at_digit
scan_uint bits s = at_digit bits (skip_space s)
