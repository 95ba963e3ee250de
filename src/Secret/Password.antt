-- ===== src/Secret/Password.antt =====
-- Hash and Verify of server/internal/secret/secret.go. The key derivation is a parameter, and so is
-- what `rand.Read` gives for the salt.
pub mod Verdict
use wsms_gateway.Base.{
  ℕ, Bool, true, false, Option, none, some, List, [], ◌∷◌, ◌++◌, length, if◌then◌else◌,
}
use wsms_gateway.Models.Records.{Text}
use wsms_gateway.Text.{codes, text_eq, split, has_prefix, drop}
use wsms_gateway.Text.Decimal.{decimal, scan_uint}
use wsms_gateway.Secret.Base64.{std, encode, decode}

-- `argon2.IDKey` of a password and a salt, with time, memory, threads and length of the key; none
-- is a panic.
pub record Argon : Type 0 where
  pub id_key : Text → Text → ℕ → ℕ → ℕ → ℕ → Option Text

abbrev pub argon_time : ℕ
argon_time = 1

abbrev pub argon_memory : ℕ
argon_memory = 65536

abbrev pub argon_threads : ℕ
argon_threads = 4

abbrev pub argon_key_len : ℕ
argon_key_len = 32

pub encoded : Text → Text → Text
unfolding decimal
encoded salt key =
    codes "$argon2id$v=19$m="
    ++ (decimal argon_memory
        ++ (codes ",t="
            ++ (decimal argon_time
                ++ (codes ",p="
                    ++ (decimal argon_threads
                        ++ b'$' ∷ (encode std salt ++ b'$' ∷ encode std key))))))

abbrev with_salt : Text → Option Text → Option Text
with_salt salt none = none
with_salt salt (some key) = some (encoded salt key)

-- `Hash`; none is an error of `rand.Read`, or the panic.
unfoldable pub hash : Argon → Option Text → Text → Option Text
hash lib none plain = none
hash lib (some salt) plain =
    with_salt salt (lib.id_key plain salt argon_time argon_memory argon_threads argon_key_len)

-- The parameters of a hash: memory, time and threads.
pub record Params : Type 0 where
  pub memory : ℕ
  pub time : ℕ
  pub threads : ℕ

-- A word of the format of `Sscanf`.
abbrev literal : Text → Text → Option Text
literal word s = if has_prefix s word then some (drop (length word) s) else none

infixl 5 ◌>>=◌
abbrev ◌>>=◌ : {A B : Type 0} → Option A → (A → Option B) → Option B
none >>= f = none
some a >>= f = f a

-- `Sscanf` with "m=%d,t=%d,p=%d" into a uint32, a uint32 and a uint8; what follows is not read.
pub scan_params : Text → Option Params
unfolding scan_uint
scan_params s = do
  s ← literal (codes "m=") s
  (m, s) ← scan_uint 32 s
  s ← literal (codes ",t=") s
  (t, s) ← scan_uint 32 s
  s ← literal (codes ",p=") s
  (p, s) ← scan_uint 8 s
  some (record { memory = m; time = t; threads = p })

pub data Result : Type 0 where
  accepted rejected panics : Result

-- `ConstantTimeCompare(got, want) == 1`.
abbrev pub compared : Text → Option Text → Result
compared want none = Result.panics
compared want (some got) = if text_eq got want then Result.accepted else Result.rejected

abbrev pub derived : Argon → Text → Option Params → Option Text → Option Text → Result
derived lib plain (some p) (some salt) (some want) =
    compared want (lib.id_key plain salt p.time p.memory p.threads (length want))
derived lib plain _ _ _ = Result.rejected

pub check_parts : Argon → Text → List Text → Result
unfolding scan_params
check_parts lib plain (start ∷ name ∷ version ∷ params ∷ salt ∷ key ∷ []) =
    if text_eq name (codes "argon2id")
    then derived lib plain (scan_params params) (decode std salt) (decode std key)
    else Result.rejected
check_parts lib plain _ = Result.rejected

-- `Verify`.
unfoldable pub verify : Argon → Text → Text → Result
unfolding check_parts split
verify lib plain text = check_parts lib plain (split b'$' text)

-- What a caller of `Verify` goes on with.
abbrev pub accepts : Result → Bool
accepts Result.accepted = true
accepts _ = false
