-- ===== src/Server/Limiter/Rate.antt =====
-- What a call of `try_consume` takes, when it is allowed, and sequences of calls.
use north.Common.{
  ℕ, ◌*◌, ◌≤◌, ◌≡◌, ◌≢◌, refl, Bool, ◌&&◌, ◌||◌, Option, none, some, List, [], ◌∷◌, Result, arith,
  is_ok, leb, ltb, ◌∙◌, ap, ◌^◌,
}
use north.Common.Float.{one}
use north.Common.Map.{lookup, remove, insert, count_keys, contains_key, is_some}
use north.Server.Limiter.{
  ClientRateLimiter, TokenBucket, BucketKey, Buckets, evict_safe_buckets, key_eq_iff, key_equality,
  take, bucket_for, consume_from, try_consume, endpoint_eq,
}
use north.Server.Limiter.Bucket.{
  available, tokens_at, tokens_at-evict, IsSound, evict-IsSound, bucket_for-tokens, spent, take_lem,
  tokens_at-le, lookup-replace, replace-IsSound,
}

module _ (l : ClientRateLimiter) where
  -- What a call for `key` at `now` may do to the buckets.
  pub record Spends (key : BucketKey) (now : ℕ) (before : Buckets) (after : Buckets)
      (result : Result (Unit {0}) ℕ) : Type 0 where
    pub sound : IsSound l after
    pub others : (k : BucketKey) → k ≢ key → tokens_at l k now after ≡ tokens_at l k now before
    pub own : tokens_at l key now after ≡ spent l result (tokens_at l key now before)

  replace_others :
      (key k : BucketKey) (now : ℕ) (b : TokenBucket) (buckets : Buckets)
      → k ≢ key
      → tokens_at l k now (insert key b (remove key buckets)) ≡ tokens_at l k now buckets
  unfolding tokens_at
  replace_others key k now b buckets h =
      ground (arith, lookup-replace l k key b buckets, key_eq_iff key k)

  replace_own :
      (key : BucketKey) (now : ℕ) (b : TokenBucket) (buckets : Buckets)
      → tokens_at l key now (insert key b (remove key buckets)) ≡ available l now (some b)
  unfolding tokens_at
  replace_own key now b buckets =
      ground (arith, lookup-replace l key key b buckets, key_eq_iff key key)

  consume_from-Spends :
      (key : BucketKey) (now : ℕ) (kept : Buckets) (o : Option TokenBucket)
      → IsSound l kept
      → ((b : TokenBucket)
          → o ≡ some b
          → (b.tokens ≡ tokens_at l key now kept) × (now ≤ b.updated_at) × (b.tokens ≤ l.capacity))
      → Spends key now kept (consume_from l key now kept o).0 (consume_from l key now kept o).1
  unfolding consume_from
  consume_from-Spends key now kept none s h = record { sound = s; others = λ k n. refl; own = refl }
  consume_from-Spends key now kept (some b) s h =
      let (same, fresh, capped) = h b refl in
      let (paid, below, _) = take_lem l now b s.u32_capacity capped fresh in
      record {
        sound = replace-IsSound l key (take l now b).0 kept s below;
        others = λ k n. replace_others key k now (take l now b).0 kept n;
        own = replace_own key now (take l now b).0 kept ∙ paid ∙ ap (spent l (take l now b).1) same;
      }

  found_bucket :
      (key : BucketKey) (now : ℕ) (kept : Buckets)
      → IsSound l kept
      → (b : TokenBucket) → bucket_for l key now kept (lookup key kept) ≡ some b
      → (b.tokens ≡ tokens_at l key now kept) × (now ≤ b.updated_at) × (b.tokens ≤ l.capacity)
  unfolding tokens_at
  found_bucket key now kept s b e =
      let (same, fresh) = bucket_for-tokens l key now kept (lookup key kept) b e in
      (same, fresh, omega (arith, same, tokens_at-le l key now kept s))

  -- A call takes 1.0 from the tokens of its key if it is allowed and nothing if it is refused,
  -- changes the tokens of no other key, and keeps the buckets sound.
  pub try_consume-Spends :
      (key : BucketKey) (now : ℕ) (buckets : Buckets)
      → IsSound l buckets
      → Spends key now buckets (try_consume l key now buckets).0 (try_consume l key now buckets).1
  unfolding try_consume
  try_consume-Spends key now buckets s =
      let kept = evict_safe_buckets l now buckets in
      let sound = evict-IsSound l now buckets s in
      let step =
        consume_from-Spends key now kept (bucket_for l key now kept (lookup key kept)) sound
          (found_bucket key now kept sound) in
      record {
        sound = step.sound;
        others = λ k n. step.others k n ∙ tokens_at-evict l k now buckets s;
        own =
            step.own
            ∙ ap (spent l (try_consume l key now buckets).1) (tokens_at-evict l key now buckets s);
      }

  -- Whether a call gets a bucket: its key has one after eviction, or its endpoint has room.
  unfoldable pub has_room : BucketKey → ℕ → Buckets → Bool
  has_room key now buckets =
      let kept = evict_safe_buckets l now buckets in
      contains_key key kept
      || ltb (count_keys (λ k. endpoint_eq k.endpoint key.endpoint) kept) l.max_entries

  bucket_for-is_some :
      (key : BucketKey) (now : ℕ) (kept : Buckets)
      → is_some (bucket_for l key now kept (lookup key kept)) ≡ (
          contains_key key kept
          || ltb (count_keys (λ k. endpoint_eq k.endpoint key.endpoint) kept) l.max_entries)
  unfolding bucket_for contains_key
  bucket_for-is_some key now kept = ground arith

  consume_from-is_ok :
      (key : BucketKey) (now : ℕ) (kept : Buckets) (o : Option TokenBucket)
      → IsSound l kept
      → ((b : TokenBucket)
          → o ≡ some b
          → (b.tokens ≡ tokens_at l key now kept) × (now ≤ b.updated_at) × (b.tokens ≤ l.capacity))
      → is_ok (consume_from l key now kept o).1 ≡ (is_some o && leb one (tokens_at l key now kept))
  unfolding consume_from
  consume_from-is_ok key now kept none s h = refl
  consume_from-is_ok key now kept (some b) s h =
      let (same, fresh, capped) = h b refl in
      ground (arith, take_lem l now b s.u32_capacity capped fresh, same)

  -- A call is allowed exactly if it gets a bucket and the tokens of its key, as `f64` arithmetic
  -- refills them up to the time of the call, reach 1.0; a key without a bucket counts as full.
  pub is_ok-try_consume :
      (key : BucketKey) (now : ℕ) (buckets : Buckets)
      → IsSound l buckets
      → is_ok (try_consume l key now buckets).1
        ≡ (has_room key now buckets && leb one (tokens_at l key now buckets))
  unfolding try_consume has_room
  is_ok-try_consume key now buckets s =
      let kept = evict_safe_buckets l now buckets in
      let sound = evict-IsSound l now buckets s in
      cc (
        consume_from-is_ok key now kept (bucket_for l key now kept (lookup key kept)) sound
            (found_bucket key now kept sound),
        bucket_for-is_some key now kept,
        tokens_at-evict l key now buckets s,
      )

  -- A sequence of calls, each a key and the time at which it is made.
  abbrev pub Calls : Type 0
  Calls = List (BucketKey × ℕ)

  unfoldable pub serve : Calls → Buckets → Buckets
  serve [] buckets = buckets
  serve ((key, now) ∷ calls) buckets = serve calls (try_consume l key now buckets).0

  pub empty-IsSound : l.capacity ≤ 2 ^ 32 * one → IsSound l []
  unfolding lookup
  empty-IsSound wide = record { u32_capacity = wide; unique = tt; capped = λ key b e. cc }
