-- ===== src/Api/RateLimit/Isolation.antt =====
-- Each client has a limiter to itself (server/internal/api/ratelimit.go).
use mathlib.Core.Option
use wsms_gateway.Base.{
  ℕ, ◌≡◌, refl, sym, ap, ◌∙◌, Bool, true, false, ◌==◌, ==_refl, Option, none, some, List, [], ◌∷◌,
  arith, by_key, by_key-update_where, Option-cases, Bool-cases, inl, inr, if◌then◌else◌,
  first_sound,
}
use wsms_gateway.Api.RateLimit.{Limiter, Bucket, bucket_key, bucket_of, answer_of, allow, serve_all}

-- One limiter of the library over the calls of one client: the specification.
pub alone : {S : Type 0} → Limiter S → ℕ → List (ℕ × ℕ) → S → List Bool
alone lib k [] s = []
alone lib k ((now, client) ∷ calls) s =
    let (ok, next) = lib.allows now s in
    let mine = ok ∷ alone lib k calls next in
    let other = alone lib k calls s in if client == k then mine else other

-- The answers that a client gets.
pub answers_to : ℕ → List (ℕ × Bool) → List Bool
answers_to k [] = []
answers_to k ((client, ok) ∷ answers) =
    let rest = answers_to k answers in if client == k then ok ∷ rest else rest

module _ {S : Type 0} (lib : Limiter S) where
  abbrev lim_or_fresh : Option (Bucket S) → S
  lim_or_fresh none = lib.fresh
  lim_or_fresh (some b) = b.lim

  -- The limiter of a client: a new one, if it has none.
  abbrev lim_of : ℕ → List (Bucket S) → S
  lim_of k buckets = lim_or_fresh (by_key bucket_key k buckets)

  answer_of-lim :
      (now : ℕ) (o : Option (Bucket S)) → answer_of lib now o ≡ (lib.allows now (lim_or_fresh o)).0
  unfolding answer_of
  answer_of-lim now none = refl
  answer_of-lim now (some b) = refl

  lim_of-bucket_of :
      (k client : ℕ) (buckets : List (Bucket S))
      → lim_of k (bucket_of lib client buckets) ≡ lim_of k buckets
  unfolding bucket_of
  lim_of-bucket_of k client buckets = elim (Option-cases (by_key bucket_key client buckets)) [
    | inr (b, q) ↦ rw (q, bucket_of) refl
    | inl q ↦ elim (Bool-cases (client == k)) [
      | inl t ↦
          let same : client ≡ k = ground arith in
          rw (q, bucket_of, t, ap (λ j. by_key bucket_key j buckets) (sym same), q) refl
      | inr f ↦ rw (q, bucket_of, f) refl
    ]
  ]

  bucket_of-some :
      (client : ℕ) (buckets : List (Bucket S))
      → (b : Bucket S) × (by_key bucket_key client (bucket_of lib client buckets) ≡ some b)
  unfolding bucket_of
  bucket_of-some client buckets = elim (Option-cases (by_key bucket_key client buckets)) [
    | inr (b, q) ↦ (b, rw (q, bucket_of) q)
    | inl q ↦ (
      record { client = client; lim = lib.fresh; seen = 0 },
      rw (q, bucket_of, ==_refl client) refl,
    )
  ]

  abbrev used : ℕ → ℕ → Bucket S → Bucket S
  used now client b =
      if b.client == client then record b { lim = (lib.allows now b.lim).1; seen = now } else b

  lim_of-used :
      (now k client : ℕ) (buckets : List (Bucket S)) (o : Option (Bucket S))
      → by_key bucket_key k (bucket_of lib client buckets) ≡ o
      → lim_or_fresh (Option.map (used now client) o)
        ≡ (if client == k then (lib.allows now (lim_or_fresh o)).1 else lim_or_fresh o)
  lim_of-used now k client buckets (some b) q =
      let here = first_sound (λ (x : Bucket S). x.client == k) (bucket_of lib client buckets) q in
      let named : b.client ≡ k = ground arith in
      elim (Bool-cases (client == k)) [
        | inl t ↦ let back : (b.client == client) ≡ true = ground arith in rw (back, t) refl
        | inr f ↦ let away : (b.client == client) ≡ false = ground arith in rw (away, f) refl
      ]
  lim_of-used now k client buckets none q = elim (Bool-cases (client == k)) [
    | inr f ↦ rw f refl
    | inl t ↦
        let (b, there) = bucket_of-some client buckets in
        let same : client ≡ k = ground arith in
        absurd (
          none-ne-some (
            sym q
            ∙ (ap (λ j. by_key bucket_key j (bucket_of lib client buckets)) (sym same) ∙ there)))
  ]
    where
      none-ne-some : {b : Bucket S} → ◌≡◌ {A = Option (Bucket S)} none (some b) → ⊥
      none-ne-some z = cc

  lim_of-allow :
      (now k client : ℕ) (buckets : List (Bucket S))
      → lim_of k (allow lib now client buckets).1
        ≡ (if client == k then (lib.allows now (lim_of k buckets)).1 else lim_of k buckets)
  unfolding allow
  lim_of-allow now k client buckets =
      ap lim_or_fresh (
        by_key-update_where bucket_key (λ (b : Bucket S). b.client == client)
          (λ b. record b { lim = (lib.allows now b.lim).1; seen = now }) k
          (bucket_of lib client buckets) (λ b. refl))
      ∙ (lim_of-used now k client buckets _ refl
          ∙ ap (λ s. if client == k then (lib.allows now s).1 else s)
              (lim_of-bucket_of k client buckets))

  answer-allow :
      (now client : ℕ) (buckets : List (Bucket S))
      → (allow lib now client buckets).0 ≡ (lib.allows now (lim_of client buckets)).0
  unfolding allow
  answer-allow now client buckets = answer_of-lim now (by_key bucket_key client buckets)

  answers_of :
      (k : ℕ) (calls : List (ℕ × ℕ)) (buckets : List (Bucket S))
      → answers_to k (serve_all lib calls buckets) ≡ alone lib k calls (lim_of k buckets)
  unfolding serve_all answers_to alone
  answers_of k [] buckets = refl
  answers_of k ((now, client) ∷ calls) buckets =
      let ih = answers_of k calls (allow lib now client buckets).1 in
      let moved = lim_of-allow now k client buckets in
      elim (Bool-cases (client == k)) [
        | inl t ↦
            let same : client ≡ k = ground arith in
            let ok : (allow lib now client buckets).0 ≡ (lib.allows now (lim_of k buckets)).0 =
              answer-allow now client buckets ∙ rw same refl in
            rw t (both ok (ih ∙ ap (alone lib k calls) (rw t at moved)))
        | inr f ↦ rw f (ih ∙ ap (alone lib k calls) (rw f at moved))
      ]
    where
      both : {a b : Bool} {xs ys : List Bool} → a ≡ b → xs ≡ ys → (a ∷ xs) ≡ (b ∷ ys)
      both p q = cc

  -- Refinement: whatever calls other clients make in between, a client gets the answers of one limiter
  -- of its own over its own calls.
  pub serve_all-alone :
      (k : ℕ) (calls : List (ℕ × ℕ))
      → answers_to k (serve_all lib calls []) ≡ alone lib k calls lib.fresh
  serve_all-alone k calls = answers_of k calls []
