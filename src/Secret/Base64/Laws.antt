-- ===== src/Secret/Base64/Laws.antt =====
-- The laws of the encodings: decoding undoes encoding, and what an encoding consists of.
use wsms_gateway.Base.{
  ℕ, ◌+◌, ◌*◌, ◌/◌, ◌%◌, ◌<◌, ◌≤◌, ◌≡◌, refl, Bool, true, false, not, ◌||◌, some, [], ◌∷◌, ◌==◌,
  arith, ltb, Bool-cases, inl, inr, ◌-◌, false,
}
use wsms_gateway.Models.Records.{Text, is_empty}
use wsms_gateway.Text.{all, strip}
use wsms_gateway.Secret.Base64.{Alphabet, std, url, symbol, value, encode, quanta, decode}
pub use wsms_gateway.Text.Hex.{IsBytes}

-- An alphabet that can be decoded.
pub record IsDistinct (a : Alphabet) : Type 0 where
  pub plus_value : value a a.plus ≡ some 62
  pub slash_value : value a a.slash ≡ some 63

pub std-IsDistinct : IsDistinct std
unfolding value
std-IsDistinct = record { plus_value = refl; slash_value = refl }

pub url-IsDistinct : IsDistinct url
unfolding value
url-IsDistinct = record { plus_value = refl; slash_value = refl }

value-symbol : (a : Alphabet) → IsDistinct a → (n : ℕ) → n < 64 → value a (symbol a n) ≡ some n
unfolding symbol value
value-symbol a d n h = ground (arith, d.plus_value, d.slash_value)

-- Every character of an encoding is a symbol.
all-encode :
    (a : Alphabet) (p : ℕ → Bool) (s : Text)
    → ((n : ℕ) → p (symbol a n) ≡ true)
    → all p (encode a s) ≡ true
unfolding encode
all-encode a p [] h = refl
all-encode a p (x ∷ []) h = simp h
all-encode a p (x ∷ y ∷ []) h = simp h
all-encode a p (x ∷ y ∷ z ∷ s) h = simp (h, all-encode a p s h)

strip_none : (p : ℕ → Bool) (s : Text) → all (λ c. not (p c)) s ≡ true → strip p s ≡ s
strip_none p [] h = refl
strip_none p (c ∷ s) h = ground (arith, strip_none p s)

byte_one : (x k : ℕ) → k < 16 → x / 4 * 4 + (x % 4 * 16 + k) / 16 ≡ x
byte_one x k h = omega arith

byte_two : (w y k : ℕ) → y < 256 → k < 4 → (w * 16 + y / 16) % 16 * 16 + (y % 16 * 4 + k) / 4 ≡ y
byte_two w y k h l = omega arith

byte_three : (w z : ℕ) → z < 256 → (w * 4 + z / 64) % 4 * 64 + z % 64 ≡ z
byte_three w z h = omega arith

quanta-encode :
    (a : Alphabet) → IsDistinct a → (s : Text) → IsBytes s → quanta a (encode a s) ≡ some s
unfolding quanta encode
quanta-encode a d [] b = refl
quanta-encode a d (x ∷ []) (hx, _) =
    rw (value-symbol a d (x / 4) (omega arith), value-symbol a d (x % 4 * 16) (omega arith))
      (ground (arith, byte_one x 0))
quanta-encode a d (x ∷ y ∷ []) (hx, (hy, _)) =
    rw
      (
        value-symbol a d (x / 4) (omega arith),
        value-symbol a d (x % 4 * 16 + y / 16) (omega arith),
        value-symbol a d (y % 16 * 4) (omega arith),
      )
      (ground (arith, byte_one x (y / 16), byte_two (x % 4) y 0))
quanta-encode a d (x ∷ y ∷ z ∷ s) (hx, (hy, (hz, hs))) =
    rw
      (
        value-symbol a d (x / 4) (omega arith),
        value-symbol a d (x % 4 * 16 + y / 16) (omega arith),
        value-symbol a d (y % 16 * 4 + z / 64) (omega arith),
        value-symbol a d (z % 64) (omega arith),
        quanta-encode a d s hs,
      )
      (ground (arith, byte_one x (y / 16), byte_two (x % 4) y (z / 64), byte_three (y % 16) z))

-- A symbol is one of the two, or stands from 0 to z.
symbol_cases :
    (a : Alphabet) (p : ℕ → Bool) (n : ℕ)
    → p a.plus ≡ true
    → p a.slash ≡ true
    → ((c : ℕ) → b'0' ≤ c → c ≤ b'z' → p c ≡ true)
    → p (symbol a n) ≡ true
unfolding symbol
symbol_cases a p n h k l = elim (Bool-cases (ltb n 26)) [
  | inl t ↦ rw t (l (n + b'A') (omega arith) (ground arith))
  | inr f ↦ elim (Bool-cases (ltb n 52)) [
    | inl t ↦ rw (f, t) (l (n - 26 + b'a') (omega arith) (ground arith))
    | inr g ↦ elim (Bool-cases (ltb n 62)) [
      | inl t ↦ rw (f, g, t) (l (n - 52 + b'0') (omega arith) (ground arith))
      | inr j ↦ elim (Bool-cases (n == 62)) [
        | inl t ↦ rw (f, g, j, t) h
        | inr m ↦ rw (f, g, j, m) k
      ]
    ]
  ]
]

-- A test that the two symbols and all characters from 0 to z pass is passed by every encoding.
pub all_symbols :
    (a : Alphabet) (p : ℕ → Bool) (s : Text)
    → p a.plus ≡ true
    → p a.slash ≡ true
    → ((c : ℕ) → b'0' ≤ c → c ≤ b'z' → p c ≡ true)
    → all p (encode a s) ≡ true
all_symbols a p s h k l = all-encode a p s (λ n. symbol_cases a p n h k l)

abbrev is_break : ℕ → Bool
is_break c = c == 10 || c == 13

-- Decoding undoes encoding, of any bytes.
pub decode-encode :
    (a : Alphabet)
    → IsDistinct a
    → is_break a.plus ≡ false
    → is_break a.slash ≡ false
    → (s : Text) → IsBytes s
    → decode a (encode a s) ≡ some s
unfolding decode
decode-encode a d h k s b =
    let clean =
      all_symbols a (λ c. not (is_break c)) s (ground arith) (ground arith)
        (λ c l m. ground arith) in
    rw (strip_none is_break (encode a s) clean) (quanta-encode a d s b)

pub encode-filled : (a : Alphabet) (c : ℕ) (s : Text) → is_empty (encode a (c ∷ s)) ≡ false
unfolding encode
encode-filled a c [] = refl
encode-filled a c (x ∷ []) = refl
encode-filled a c (x ∷ y ∷ s) = refl
