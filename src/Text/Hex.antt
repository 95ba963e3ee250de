-- ===== src/Text/Hex.antt =====
-- Go's `encoding/hex` over lists of bytes.
use wsms_gateway.Base.{
  ℕ, suc, ◌+◌, ◌-◌, ◌*◌, ◌/◌, ◌%◌, ◌<◌, ◌≡◌, refl, sym, ap, ◌&&◌, Option, none, some, [], ◌∷◌,
  arith, ltb, leb, length, if◌then◌else◌, ◌⊎◌, ◌≤◌, subst, Option-cases, inl, inr,
}
use wsms_gateway.Models.Records.{Text}
use wsms_gateway.Text.{is_digit}
use wsms_gateway.Base.{All}

unfoldable pub hex_digit : ℕ → ℕ
hex_digit n = if ltb n 10 then n + b'0' else n + 87

-- `hex.EncodeToString`.
unfoldable pub hex : Text → Text
unfolding hex_digit
hex [] = []
hex (c ∷ s) = hex_digit (c / 16 % 16) ∷ hex_digit (c % 16) ∷ hex s

-- The value of a digit to the base 16.
hex_value : ℕ → Option ℕ
hex_value c =
    if is_digit c
    then some (c - b'0')
    else if leb b'a' c && leb c b'f'
    then some (c - 87)
    else if leb b'A' c && leb c b'F'
    then some (c - 55)
    else none

join_nibbles : Option ℕ → Option ℕ → Option Text → Option Text
join_nibbles (some a) (some b) (some rest) = some ((a * 16 + b) ∷ rest)
join_nibbles none b rest = none
join_nibbles (some a) none rest = none
join_nibbles (some a) (some b) none = none

-- `hex.DecodeString`.
unfoldable pub decode_hex : Text → Option Text
unfolding hex_value join_nibbles
decode_hex [] = some []
decode_hex (c ∷ []) = none
decode_hex (c ∷ d ∷ s) = join_nibbles (hex_value c) (hex_value d) (decode_hex s)

value-digit : (n : ℕ) → n < 16 → hex_value (hex_digit n) ≡ some n
unfolding hex_value hex_digit
value-digit n h = ground arith

some_text : {x y : Text} → some x ≡ some y → x ≡ y
some_text h = cc

length-join :
    (a b : Option ℕ) (rest : Option Text) (out : Text)
    → join_nibbles a b rest ≡ some out
    → (tail : Text) × (rest ≡ some tail) × (length out ≡ suc (length tail))
unfolding join_nibbles
length-join none b rest out h = absurd (cc h)
length-join (some a) none rest out h = absurd (cc h)
length-join (some a) (some b) none out h = absurd (cc h)
length-join (some a) (some b) (some rest) out h = (rest, refl, ap length (sym (some_text h)))

-- Each byte is written with two digits.
pub length-decode_hex :
    (s out : Text) → decode_hex s ≡ some out → length out + length out ≡ length s
unfolding decode_hex
length-decode_hex [] out h = rw (← some_text h) refl
length-decode_hex (c ∷ []) out h = absurd (cc h)
length-decode_hex (c ∷ d ∷ s) out h =
    let (tail, rest, sized) = length-join (hex_value c) (hex_value d) (decode_hex s) out h in
    ground (arith, sized, length-decode_hex s tail rest)

abbrev pub IsBytes : Text → Type 0
IsBytes = All (λ c. c < 256)

-- The digits of bytes decode to the bytes.
pub decode_hex-hex : (s : Text) → IsBytes s → decode_hex (hex s) ≡ some s
unfolding decode_hex hex join_nibbles
decode_hex-hex [] b = refl
decode_hex-hex (c ∷ s) (h, hs) =
    rw
      (
        value-digit (c / 16 % 16) (omega arith),
        value-digit (c % 16) (omega arith),
        decode_hex-hex s hs,
      )
      (ap (λ (x : ℕ). some (x ∷ s)) (omega arith))

pub length-hex : (s : Text) → length (hex s) ≡ length s + length s
unfolding hex
length-hex [] = refl
length-hex (c ∷ s) = ground (arith, length-hex s)

-- A character that stands for a number below 16, by 0-9, a-f or A-F.
abbrev pub DigitOf : ℕ → ℕ → Type 0
DigitOf c n =
    ((n < 10) × (c ≡ n + b'0'))
    ⊎ ((10 ≤ n) × (n < 16) × ((c ≡ n - 10 + b'a') ⊎ (c ≡ n - 10 + b'A')))

-- A text that writes bytes, each with two digits of either case.
abbrev pub Writes : Text → Text → Type 0
Writes raw [] = raw ≡ []
Writes [] (b ∷ s) = ⊥
Writes (c ∷ []) (b ∷ s) = ⊥
Writes (c ∷ d ∷ raw) (b ∷ s) =
    ((hi : ℕ) × (lo : ℕ) × DigitOf c hi × DigitOf d lo × (b ≡ hi * 16 + lo)) × Writes raw s

value_digit : (c n : ℕ) → DigitOf c n → hex_value c ≡ some n
unfolding hex_value
value_digit c n h = ground arith

digit_value : (c n : ℕ) → hex_value c ≡ some n → DigitOf c n
unfolding hex_value
digit_value c n h = ground arith

pub decode_hex-Writes : (raw s : Text) → Writes raw s → decode_hex raw ≡ some s
unfolding decode_hex join_nibbles
decode_hex-Writes raw [] h = rw h refl
decode_hex-Writes [] (b ∷ s) h = absurd h
decode_hex-Writes (c ∷ []) (b ∷ s) h = absurd h
decode_hex-Writes (c ∷ d ∷ raw) (b ∷ s) ((hi, lo, up, down, e), rest) =
    rw (value_digit c hi up, value_digit d lo down, decode_hex-Writes raw s rest, e) refl

pub Writes-decode_hex : (raw s : Text) → decode_hex raw ≡ some s → Writes raw s
unfolding decode_hex
Writes-decode_hex [] [] h = refl
Writes-decode_hex [] (b ∷ s) h = absurd (cc h)
Writes-decode_hex (c ∷ []) s h = absurd (cc h)
Writes-decode_hex (c ∷ d ∷ raw) s h = elim (Option-cases (hex_value c)) [
  | inl bad ↦ absurd (nothing s (rw (bad, join_nibbles) at h))
  | inr (hi, up) ↦ elim (Option-cases (hex_value d)) [
    | inl bad ↦ absurd (nothing s (rw (up, bad, join_nibbles) at h))
    | inr (lo, down) ↦ elim (Option-cases (decode_hex raw)) [
      | inl bad ↦ absurd (nothing s (rw (up, down, bad, join_nibbles) at h))
      | inr (rest, there) ↦
          subst (Writes (c ∷ d ∷ raw)) (some_text (rw (up, down, there, join_nibbles) at h)) (
            (hi, lo, digit_value c hi up, digit_value d lo down, refl),
            Writes-decode_hex raw rest there,
          )
    ]
  ]
]
  where
    nothing : (s : Text) → ◌≡◌ {A = Option Text} none (some s) → ⊥
    nothing s q = cc
