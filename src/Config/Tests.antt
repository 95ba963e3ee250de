-- ===== src/Config/Tests.antt =====
-- The settings of small environments.
use wsms_gateway.Api.Auth.{parse_int}
use wsms_gateway.Base.{ℕ, zero, suc, ◌≡◌, refl, none, some, [], ◌∷◌, if◌then◌else◌}
use wsms_gateway.Base.Int.{pos}
use wsms_gateway.Models.Records.{Text}
use wsms_gateway.Text.{codes, text_eq}
use wsms_gateway.Text.Hex.{hex}
use wsms_gateway.Config.{Environ, Library, load}
use wsms_gateway.Config.MasterKey.{KeyFor, secret_key, load-KeyFor}

replicate : ℕ → ℕ → Text
replicate zero c = []
replicate (suc n) c = c ∷ replicate n c

abbrev lib : Library ℕ
lib = record {
  parse_float = λ s. none;
  parse_duration = λ s. if text_eq s (codes "45s") then some (pos 45000000000) else none;
  sum256 = λ s. replicate 32 7;
}

-- A key is set, and two other values, of which one is no number.
abbrev vars : Environ
vars k =
    if text_eq k secret_key
    then hex (replicate 32 0xab)
    else if text_eq k (codes "WSMS_ACK_TIMEOUT")
    then codes "45s"
    else if text_eq k (codes "WSMS_DISPATCH_WORKERS")
    then codes "x8"
    else []

load_ack : (load lib 5 vars).ack_timeout ≡ pos 45000000000
unfolding load
load_ack = refl

load_workers : (load lib 5 vars).dispatch_workers ≡ pos 4
unfolding load parse_int
load_workers = refl

load-KeyFor_example :
    KeyFor lib (vars secret_key) (load lib 5 vars).master_key (load lib 5 vars).master_key_dev
unfolding replicate
load-KeyFor_example = load-KeyFor lib 5 vars (λ s. refl)
