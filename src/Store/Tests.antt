-- ===== src/Store/Tests.antt =====
-- The theorems about a starting server, at concrete tables.

use wsms_gateway.Base.{◌≡◌, refl, ◌+◌, true, false, some, [], ◌∷◌, ◌==◌, arith}
use wsms_gateway.Models.Enums.{Operator}
use wsms_gateway.Models.Records.{Text, is_empty, Db}
use wsms_gateway.Text.{codes, text_eq}
use wsms_gateway.Text.Laws.{text_eq_refl}
use wsms_gateway.Router.Msisdn.{default_prefixes}
use wsms_gateway.Api.Auth.{Crypto, Request, AuthResult, client_auth}
use wsms_gateway.Store.{Boot, Started, bootstrap_client, seed_prefixes}
use wsms_gateway.Store.Bootstrap.{bootstrap_client-client_auth}
use wsms_gateway.Store.Stuck.{bootstrap_client_stranded}
use wsms_gateway.Samples.{fleet_db}

-- The tables of a server that never ran, but for a prefix that was edited.
abbrev empty_db : Db
empty_db = record fleet_db {
  clients = [];
  keys = [];
  prefixes = record { prefix = codes "0811"; operator = Operator.xl } ∷ [];
}

abbrev boot : Boot
boot = record {
  now = 1000;
  new_id = λ n. 700 + n;
  random = λ n. some (codes "abcd");
  hash = λ s. some s;
  digest = λ s. s;
  counts = true;
  stores = λ n. true;
}

abbrev plain : Crypto
plain = record { verify = text_eq; open_secret = λ s. some s; hmac = λ key signed. key }

abbrev token : Text
token = codes "wsms_61626364.abcd"

abbrev call : Request
call = record {
  authorization = codes "Bearer wsms_61626364.abcd";
  signature = [];
  timestamp = [];
  body = [];
}

begins : (bootstrap_client boot empty_db).0 ≡ Started.created token
unfolding bootstrap_client
begins = refl

bootstrap_client-client_auth_example :
    (client_auth plain 1000 (codes "sims:read") call (bootstrap_client boot empty_db).1).0
    ≡ AuthResult.client 700
bootstrap_client-client_auth_example =
    bootstrap_client-client_auth boot token empty_db plain 1000 (codes "sims:read") call verifies
      filled refl begins refl
  where
    verifies : (s h : Text) → boot.hash s ≡ some h → plain.verify s h ≡ true
    verifies s h k = ground (arith, text_eq_refl s)

    filled : (s : Text) → boot.random 1 ≡ some s → is_empty s ≡ false
    filled s k = ground arith

abbrev broken : Boot
broken = record boot { stores = λ n. n == 0 }

bootstrap_client_stranded_example :
    ((bootstrap_client broken empty_db).0 ≡ Started.failed)
    × ((bootstrap_client broken empty_db).1.keys ≡ [])
    × ((later : Boot)
        → later.counts ≡ true
        → bootstrap_client later (bootstrap_client broken empty_db).1
          ≡ (Started.present, (bootstrap_client broken empty_db).1))
bootstrap_client_stranded_example =
    bootstrap_client_stranded broken empty_db (codes "abcd") (codes "abcd") refl refl refl refl refl
      refl

seeds : (seed_prefixes (λ p. false) empty_db).0 ≡ true
unfolding seed_prefixes default_prefixes
seeds = refl
