-- ===== src/Secret/Base64.antt =====
-- The encodings of encoding/base64 without padding, which server/internal/secret/secret.go uses.
pub mod Laws
use wsms_gateway.Base.{
  ℕ, ◌+◌, ◌-◌, ◌*◌, ◌/◌, ◌%◌, ◌&&◌, ◌||◌, Option, none, some, [], ◌∷◌, ltb, leb, ◌==◌,
  if◌then◌else◌,
}
use wsms_gateway.Models.Records.{Text}
use wsms_gateway.Text.{strip}

-- The two symbols in which the alphabets differ.
pub record Alphabet : Type 0 where
  pub plus : ℕ
  pub slash : ℕ

-- `RawStdEncoding` and `RawURLEncoding`.
abbrev pub std : Alphabet
std = record { plus = b'+'; slash = b'/' }

abbrev pub url : Alphabet
url = record { plus = b'-'; slash = b'_' }

pub symbol : Alphabet → ℕ → ℕ
symbol a n =
    if ltb n 26
    then n + b'A'
    else if ltb n 52
    then n - 26 + b'a'
    else if ltb n 62
    then n - 52 + b'0'
    else if n == 62
    then a.plus
    else a.slash

pub value : Alphabet → ℕ → Option ℕ
value a c =
    if leb b'A' c && leb c b'Z'
    then some (c - b'A')
    else if leb b'a' c && leb c b'z'
    then some (c - b'a' + 26)
    else if leb b'0' c && leb c b'9'
    then some (c - b'0' + 52)
    else if c == a.plus
    then some 62
    else if c == a.slash
    then some 63
    else none

-- `EncodeToString`, of bytes.
unfoldable pub encode : Alphabet → Text → Text
unfolding symbol
encode a [] = []
encode a (x ∷ []) = symbol a (x / 4) ∷ symbol a (x % 4 * 16) ∷ []
encode a (x ∷ y ∷ []) =
    symbol a (x / 4) ∷ symbol a (x % 4 * 16 + y / 16) ∷ symbol a (y % 16 * 4) ∷ []
encode a (x ∷ y ∷ z ∷ s) =
    symbol a (x / 4)
    ∷ symbol a (x % 4 * 16 + y / 16)
    ∷ symbol a (y % 16 * 4 + z / 64)
    ∷ symbol a (z % 64)
    ∷ encode a s

-- The bits that are left over at the end are not looked at.
abbrev pub two : Option ℕ → Option ℕ → Option Text
two (some p) (some q) = some ((p * 4 + q / 16) ∷ [])
two _ _ = none

abbrev pub three : Option ℕ → Option ℕ → Option ℕ → Option Text
three (some p) (some q) (some r) = some ((p * 4 + q / 16) ∷ (q % 16 * 16 + r / 4) ∷ [])
three _ _ _ = none

abbrev pub four : Option ℕ → Option ℕ → Option ℕ → Option ℕ → Option Text → Option Text
four (some p) (some q) (some r) (some t) (some rest) =
    some ((p * 4 + q / 16) ∷ (q % 16 * 16 + r / 4) ∷ (r % 4 * 64 + t) ∷ rest)
four _ _ _ _ _ = none

pub quanta : Alphabet → Text → Option Text
unfolding value
quanta a [] = some []
quanta a (p ∷ []) = none
quanta a (p ∷ q ∷ []) = two (value a p) (value a q)
quanta a (p ∷ q ∷ r ∷ []) = three (value a p) (value a q) (value a r)
quanta a (p ∷ q ∷ r ∷ t ∷ s) = four (value a p) (value a q) (value a r) (value a t) (quanta a s)

-- `DecodeString`, which passes over line breaks.
unfoldable pub decode : Alphabet → Text → Option Text
unfolding quanta
decode a s = quanta a (strip (λ c. c == 10 || c == 13) s)
