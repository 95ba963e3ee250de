-- ===== src/Api/Auth.antt =====
-- server/internal/api/auth.go: bearer tokens, scopes and request signatures, and
-- parseDeviceBearer of ws.go. Argon2id, AES-GCM and HMAC are the parameter `Crypto`.
pub mod Bearer
pub mod Guards
pub mod Denied
use wsms_gateway.Base.{
  ℕ, zero, suc, ◌+◌, ◌-◌, ◌*◌, ◌^◌, Bool, true, false, not, ◌&&◌, ◌||◌, Option, none, some, List,
  [], ◌∷◌, ◌++◌, ltb, leb, ◌==◌, any, first, update_where, length, if◌then◌else◌,
}
use wsms_gateway.Base.Int.{ℤ, pos, negsuc}
use wsms_gateway.Models.Records.{Text, is_empty, Client, ApiKey, Db}
use wsms_gateway.Text.{codes, text_eq, has_prefix, drop, trim_space, is_digit, cut}

pub record Crypto : Type 0 where
  pub verify : Text → Text → Bool
  pub open_secret : Text → Option Text
  pub hmac : Text → Text → Text

-- `strings.TrimPrefix(s, p)`.
abbrev pub trim_prefix : Text → Text → Text
trim_prefix s p = if has_prefix s p then drop (length p) s else s

abbrev both_parts : Option (Text × Text) → Option (Text × Text)
both_parts none = none
both_parts (some (a, b)) = if is_empty a || is_empty b then none else some (a, b)

abbrev pub bearer : Text
bearer = codes "Bearer "

abbrev pub wsms_prefix : Text
wsms_prefix = codes "wsms_"

unfoldable pub parse_bearer : Text → Option (Text × Text)
parse_bearer h =
    if has_prefix h bearer
    then both_parts (cut b'.' (trim_prefix (drop (length bearer) h) wsms_prefix))
    else none

abbrev pub bearer_dev : Text
bearer_dev = codes "Bearer dev_"

unfoldable pub parse_device_bearer : Text → Option (Text × Text)
parse_device_bearer h =
    if leb (length h) (length bearer_dev) || not (has_prefix h bearer_dev)
    then none
    else both_parts (cut b'.' (drop (length bearer_dev) h))

-- `strings.Split(csv, ",")`.
split_comma : Text → Text → List Text
split_comma part [] = part ∷ []
split_comma part (c ∷ s) =
    let closed = part ∷ split_comma [] s in
    let longer = split_comma (part ++ c ∷ []) s in if c == b',' then closed else longer

unfoldable pub has_scope : Text → Text → Bool
unfolding split_comma trim_space
has_scope csv want =
    any (λ s. text_eq (trim_space s) want || text_eq (trim_space s) (codes "admin"))
      (split_comma [] csv)

-- `strconv.ParseInt(s, 10, 64)`.
digits_value : ℕ → Text → Option ℕ
digits_value n [] = some n
digits_value n (c ∷ s) =
    let rest = digits_value (n * 10 + (c - b'0')) s in if is_digit c then rest else none

abbrev in_range : ℕ → Option ℕ → Option ℕ
in_range bound none = none
in_range bound (some n) = if leb n bound then some n else none

abbrev unsigned : Text → Option ℕ
unsigned [] = none
unsigned (c ∷ s) = digits_value 0 (c ∷ s)

abbrev negated : Option ℕ → Option ℤ
negated none = none
negated (some zero) = some (pos 0)
negated (some (suc n)) = some (negsuc n)

abbrev positive : Option ℕ → Option ℤ
positive none = none
positive (some n) = some (pos n)

unfoldable pub parse_int : Text → Option ℤ
unfolding digits_value
parse_int [] = none
parse_int (c ∷ s) =
    if c == b'-'
    then negated (in_range (2 ^ 63) (unsigned s))
    else if c == b'+'
    then positive (in_range (2 ^ 63 - 1) (unsigned s))
    else positive (in_range (2 ^ 63 - 1) (unsigned (c ∷ s)))

-- |now - ts| ≤ 300, in seconds.
abbrev pub is_current : ℕ → ℤ → Bool
is_current now (pos ts) = leb now (ts + 300) && leb ts (now + 300)
is_current now (negsuc n) = leb (now + suc n) 300

pub record Request : Type 0 where
  pub authorization : Text
  pub signature : Text
  pub timestamp : Text
  pub body : Text

abbrev signed_with : Crypto → Request → Option Text → Bool
signed_with x r none = false
signed_with x r (some key) =
    text_eq (x.hmac key (r.timestamp ++ (codes "." ++ r.body)))
      (trim_prefix r.signature (codes "sha256="))

abbrev pub timely : ℕ → Option ℤ → Bool
timely now none = false
timely now (some ts) = is_current now ts

-- `verifySigning`; the clock is in seconds.
unfoldable pub verify_signing : Crypto → ℕ → Request → ApiKey → Bool
unfolding parse_int
verify_signing x now r key =
    if is_empty key.signing_secret_enc
    then true
    else if is_empty r.signature || is_empty r.timestamp
    then false
    else if timely now (parse_int r.timestamp)
    then signed_with x r (x.open_secret key.signing_secret_enc)
    else false

-- The client id that `clientAuth` sets, or the status code with which it aborts.
pub data AuthResult : Type 0 where
  client : ℕ → AuthResult
  denied : ℕ → AuthResult

abbrev pub find_key : Db → Text → Option ApiKey
find_key db prefix =
    first (λ (k : ApiKey). text_eq k.prefix prefix && (k.active && not k.deleted)) db.keys

abbrev pub client_active : Db → ℕ → Bool
client_active db id = any (λ (c : Client). c.id == id && (c.active && not c.deleted)) db.clients

-- The note of the last use.
touch_key : ℕ → ApiKey → Db → Db
touch_key now key db = record db {
  keys =
      update_where (λ k. k.id == key.id && not k.deleted)
        (λ k. record k { last_used_at = some now; updated_at = now }) db.keys;
}

unfoldable pub check_key : Crypto → ℕ → Text → Request → Db → Text → Option ApiKey → AuthResult × Db
unfolding touch_key
check_key x now scope r db sec none = (AuthResult.denied 401, db)
check_key x now scope r db sec (some key) =
    if not (x.verify sec key.hash)
    then (AuthResult.denied 401, db)
    else if not (client_active db key.client_id)
    then (AuthResult.denied 401, db)
    else if not (has_scope key.scopes scope)
    then (AuthResult.denied 403, db)
    else if not (verify_signing x now r key)
    then (AuthResult.denied 401, db)
    else (AuthResult.client key.client_id, touch_key now key db)

unfoldable pub check_bearer :
    Crypto → ℕ → Text → Request → Db → Option (Text × Text) → AuthResult × Db
unfolding check_key
check_bearer x now scope r db none = (AuthResult.denied 401, db)
check_bearer x now scope r db (some (prefix, sec)) =
    check_key x now scope r db sec (find_key db prefix)

-- `clientAuth`; the clock is in seconds.
unfoldable pub client_auth : Crypto → ℕ → Text → Request → Db → AuthResult × Db
unfolding check_bearer
client_auth x now scope r db = check_bearer x now scope r db (parse_bearer r.authorization)
