-- ===== src/Secret/Random.antt =====
-- RandomToken of server/internal/secret/secret.go, and the tokens that the server makes of it.
use wsms_gateway.Base.{ℕ, ◌≡◌, refl, not, Option, none, some, [], ◌∷◌, ◌++◌, ◌==◌, arith}
use wsms_gateway.Models.Records.{Text}
use wsms_gateway.Text.{cut}
use wsms_gateway.Text.Laws.{cut_none}
use wsms_gateway.Secret.Base64.{url, encode}
use wsms_gateway.Secret.Base64.Laws.{all_symbols, encode-filled}
use wsms_gateway.Api.Auth.{bearer, wsms_prefix, parse_bearer}
use wsms_gateway.Api.Auth.Bearer.{parse_bearer_token}

-- `RandomToken`, of the bytes that `rand.Read` gives; none is its error.
unfoldable pub random_token : Option Text → Option Text
random_token none = none
random_token (some bytes) = some (encode url bytes)

-- `tok, _ := RandomToken(n)`: an error leaves the empty text.
unfoldable pub token_or_empty : Option Text → Text
unfolding random_token
token_or_empty none = []
token_or_empty (some bytes) = encode url bytes

pub cut-encode : (s : Text) → cut b'.' (encode url s) ≡ none
cut-encode s =
    cut_none b'.' (encode url s)
      (all_symbols url (λ c. not (c == b'.')) s refl refl (λ c l h. ground arith))

-- A key token that is made of random bytes is read back by parseBearer as the prefix and the secret
-- that it was made of.
pub random_token-parse_bearer :
    (p s : ℕ) (prefix secret : Text)
    → parse_bearer (
        bearer
        ++ (wsms_prefix
            ++ (token_or_empty (some (p ∷ prefix)) ++ b'.' ∷ token_or_empty (some (s ∷ secret)))))
      ≡ some (token_or_empty (some (p ∷ prefix)), token_or_empty (some (s ∷ secret)))
unfolding token_or_empty
random_token-parse_bearer p s prefix secret =
    parse_bearer_token (encode url (p ∷ prefix)) (encode url (s ∷ secret)) (record {
      no_dot = cut-encode (p ∷ prefix);
      some_id = encode-filled url p prefix;
      some_secret = encode-filled url s secret;
    })
