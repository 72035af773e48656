-- ===== src/Server/Limiter/Bucket.antt =====
-- The abstract view of a bucket: the tokens that it has once it is refilled. A key without a bucket
-- counts as full, so eviction and refilling cannot be seen.
use north.Common.{
  ℕ, sym, ◌∙◌, ◌*◌, ◌^◌, ◌≤◌, ◌≡◌, refl, Option, none, some, Result, arith, if◌then◌else◌, is_ok,
  inl, inr, Bool-cases, leb,
}
use north.Common.Float.{F64, one, sub, sub-le}
use north.Common.Map.{
  lookup, remove, insert, IsUnique, lookup-retain, lookup-insert, lookup-remove, retain-IsUnique,
  insert-IsUnique, remove-IsUnique, bind_option,
}
use north.Server.Limiter.{
  ClientRateLimiter, TokenBucket, BucketKey, Buckets, refill, keep_bucket, evict_safe_buckets,
  key_eq, key_equality, take, bucket_for,
}

module _ (l : ClientRateLimiter) where
  unfoldable pub available : ℕ → Option TokenBucket → F64
  available now none = l.capacity
  available now (some b) = (refill l now b).tokens

  -- The tokens that `key` has at `now`.
  unfoldable pub tokens_at : BucketKey → ℕ → Buckets → F64
  unfolding available
  tokens_at key now buckets = available now (lookup key buckets)

  available-keep_bucket :
      (now : ℕ) (o : Option TokenBucket)
      → ((b : TokenBucket) → o ≡ some b → b.tokens ≤ l.capacity)
      → available now (bind_option o (keep_bucket l now)) ≡ available now o
  unfolding available keep_bucket refill
  available-keep_bucket now none h = refl
  available-keep_bucket now (some b) h = ground (arith, h b refl)

  -- The capacity is that of a `u32`, keys are unique, and no bucket holds more than the capacity.
  pub record IsSound (buckets : Buckets) : Type 0 where
    pub u32_capacity : l.capacity ≤ 2 ^ 32 * one
    pub unique : IsUnique buckets
    pub capped :
        (key : BucketKey) (b : TokenBucket) → lookup key buckets ≡ some b → b.tokens ≤ l.capacity

  -- Eviction changes the tokens of no key.
  pub tokens_at-evict :
      (key : BucketKey) (now : ℕ) (buckets : Buckets)
      → IsSound buckets
      → tokens_at key now (evict_safe_buckets l now buckets) ≡ tokens_at key now buckets
  unfolding tokens_at evict_safe_buckets
  tokens_at-evict key now buckets s =
      rw (lookup-retain key (keep_bucket l now) buckets s.unique)
        (available-keep_bucket now (lookup key buckets) (s.capped key))

  keep_bucket-capped :
      (now : ℕ) (o : Option TokenBucket) (b : TokenBucket)
      → ((c : TokenBucket) → o ≡ some c → c.tokens ≤ l.capacity)
      → bind_option o (keep_bucket l now) ≡ some b
      → b.tokens ≤ l.capacity
  unfolding keep_bucket refill
  keep_bucket-capped now none b h e = cc
  keep_bucket-capped now (some c) b h e = ground (arith, h c refl)

  pub evict-IsSound :
      (now : ℕ) (buckets : Buckets) → IsSound buckets → IsSound (evict_safe_buckets l now buckets)
  unfolding evict_safe_buckets
  evict-IsSound now buckets s = record {
    u32_capacity = s.u32_capacity;
    unique = retain-IsUnique (keep_bucket l now) buckets s.unique;
    capped = λ key b e.
        keep_bucket-capped now (lookup key buckets) b (s.capped key)
          (sym (lookup-retain key (keep_bucket l now) buckets s.unique) ∙ e);
  }

  -- The bucket that a call takes from has exactly the tokens of its key, as of now.
  pub bucket_for-tokens :
      (key : BucketKey) (now : ℕ) (buckets : Buckets) (o : Option TokenBucket) (b : TokenBucket)
      → bucket_for l key now buckets o ≡ some b
      → (b.tokens ≡ available now o) × (now ≤ b.updated_at)
  unfolding bucket_for refill available
  bucket_for-tokens key now buckets none b e = ground arith
  bucket_for-tokens key now buckets (some c) b e = ground arith

  -- What a call leaves of the tokens of its key: it takes 1.0 if it is allowed.
  abbrev pub spent : Result (Unit {0}) ℕ → F64 → F64
  spent result tokens = if is_ok result then sub tokens one else tokens

  available-fresh :
      (now : ℕ) (b : TokenBucket) → now ≤ b.updated_at → available now (some b) ≡ b.tokens
  unfolding available refill
  available-fresh now b h = ground arith

  pub take_lem :
      (now : ℕ) (b : TokenBucket)
      → l.capacity ≤ 2 ^ 32 * one
      → b.tokens ≤ l.capacity
      → now ≤ b.updated_at
      → (available now (some (take l now b).0) ≡ spent (take l now b).1 b.tokens)
        × ((take l now b).0.tokens ≤ l.capacity)
        × (is_ok (take l now b).1 ≡ leb one b.tokens)
  unfolding take
  take_lem now b wide h u = (
    available-fresh now (take l now b).0 (ground arith) ∙ ground arith,
    elim (Bool-cases (leb one b.tokens)) [
      | inl whole ↦ ground (arith, whole, sub-le b.tokens (omega arith) (ground arith))
      | inr part ↦ ground (arith, part)
    ],
    ground arith,
  )

  available-le-capacity :
      (now : ℕ) (o : Option TokenBucket)
      → ((b : TokenBucket) → o ≡ some b → b.tokens ≤ l.capacity)
      → available now o ≤ l.capacity
  unfolding available refill
  available-le-capacity now none h = omega arith
  available-le-capacity now (some b) h = ground (arith, h b refl)

  pub tokens_at-le :
      (key : BucketKey) (now : ℕ) (buckets : Buckets)
      → IsSound buckets
      → tokens_at key now buckets ≤ l.capacity
  unfolding tokens_at
  tokens_at-le key now buckets s = available-le-capacity now (lookup key buckets) (s.capped key)

  pub lookup-replace :
      (k key : BucketKey) (b : TokenBucket) (buckets : Buckets)
      → lookup k (insert key b (remove key buckets))
        ≡ (if key_eq key k then some b else lookup k buckets)
  lookup-replace k key b buckets =
      ground (arith, lookup-insert k key b (remove key buckets), lookup-remove k key buckets)

  pub replace-IsSound :
      (key : BucketKey) (b : TokenBucket) (buckets : Buckets)
      → IsSound buckets
      → b.tokens ≤ l.capacity
      → IsSound (insert key b (remove key buckets))
  replace-IsSound key b buckets s h = record {
    u32_capacity = s.u32_capacity;
    unique = insert-IsUnique key b (remove key buckets) (remove-IsUnique key buckets s.unique);
    capped = λ k c e. ground (arith, lookup-replace k key b buckets, s.capped k c);
  }
