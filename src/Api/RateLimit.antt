-- ===== src/Api/RateLimit.antt =====
-- server/internal/api/ratelimit.go: one token bucket for each client. The bucket is the `rate.Limiter` of
-- golang.org/x/time, a parameter: its state when it is new, and what `Allow` answers at a time.
pub mod Isolation
use wsms_gateway.Base.{
  ℕ, Bool, true, false, ◌==◌, Option, none, some, List, [], ◌∷◌, by_key, update_where,
  if◌then◌else◌,
}

pub record Limiter (S : Type 0) : Type 0 where
  pub fresh : S
  pub allows : ℕ → S → Bool × S

-- `clientBucket`, under its key in the map.
pub record Bucket (S : Type 0) : Type 0 where
  pub client : ℕ
  pub lim : S
  pub seen : ℕ

abbrev pub bucket_key : {S : Type 0} → Bucket S → ℕ
bucket_key b = b.client

module _ {S : Type 0} (lib : Limiter S) where
  -- The bucket is made at the first call of a client.
  bucket_of : ℕ → List (Bucket S) → List (Bucket S)
  bucket_of client buckets = elim (by_key bucket_key client buckets) [
    | some b ↦ buckets
    | none ↦ record { client = client; lim = lib.fresh; seen = 0 } ∷ buckets
  ]

  answer_of : ℕ → Option (Bucket S) → Bool
  answer_of now none = (lib.allows now lib.fresh).0
  answer_of now (some b) = (lib.allows now b.lim).0

  -- `allow`; the two parts run as one step, since a limiter has a lock of its own.
  unfoldable pub allow : ℕ → ℕ → List (Bucket S) → Bool × List (Bucket S)
  unfolding bucket_of answer_of
  allow now client buckets = (
    answer_of now (by_key bucket_key client buckets),
    update_where (λ b. b.client == client)
        (λ b. record b { lim = (lib.allows now b.lim).1; seen = now }) (bucket_of client buckets),
  )

  -- `middleware` on the requests of authenticated clients at times: whether each goes on, or ends with 429.
  unfoldable pub serve_all : List (ℕ × ℕ) → List (Bucket S) → List (ℕ × Bool)
  serve_all [] buckets = []
  serve_all ((now, client) ∷ calls) buckets =
      let (ok, rest) = allow now client buckets in (client, ok) ∷ serve_all calls rest
