-- ===== src/Server/Limiter/Entries.antt =====
-- The cap on the entries of an endpoint, and the room that a key with a bucket has.
use north.Common.{
  ℕ, ◌+◌, ◌≤◌, ◌≡◌, refl, ap, inl, inr, Bool, true, false, Option, none, some, [], ◌∷◌, arith,
  if◌then◌else◌, leb, Bool-cases, ◌∙◌, Option-cases,
}
use north.Common.Map.{
  lookup, remove, insert, count_keys, contains_key, bind_option, count_keys-retain,
  count_keys-remove, count_keys-remove_lt, count_keys-retain_lt, lookup-retain,
}
use north.Server.Limiter.{
  ClientRateLimiter, PublicEndpoint, TokenBucket, BucketKey, Buckets, keep_bucket,
  evict_safe_buckets, refill, key_equality, take, bucket_for, consume_from, try_consume,
  endpoint_eq,
}
use north.Server.Limiter.Bucket.{IsSound}
use north.Server.Limiter.Rate.{has_room, Calls, serve}

-- The number of buckets that an endpoint has.
unfoldable pub entries : PublicEndpoint → Buckets → ℕ
entries endpoint buckets = count_keys (λ k. endpoint_eq k.endpoint endpoint) buckets

module _ (l : ClientRateLimiter) where
  evict-entries :
      (endpoint : PublicEndpoint) (now : ℕ) (buckets : Buckets)
      → entries endpoint (evict_safe_buckets l now buckets) ≤ entries endpoint buckets
  unfolding entries evict_safe_buckets
  evict-entries endpoint now buckets =
      count_keys-retain (λ k. endpoint_eq k.endpoint endpoint) (keep_bucket l now) buckets

  replace-entries_present :
      (endpoint : PublicEndpoint) (key : BucketKey) (b c : TokenBucket) (kept : Buckets)
      → lookup key kept ≡ some c
      → entries endpoint (insert key b (remove key kept)) ≤ entries endpoint kept
  unfolding entries insert count_keys
  replace-entries_present endpoint key b c kept h =
      let p : BucketKey → Bool = λ k. endpoint_eq k.endpoint endpoint in
      ground (
        arith,
        count_keys-remove p key (remove key kept),
        count_keys-remove p key kept,
        count_keys-remove_lt p key kept c h,
      )

  replace-entries :
      (endpoint : PublicEndpoint) (key : BucketKey) (b : TokenBucket) (kept : Buckets)
      → entries endpoint (insert key b (remove key kept))
        ≤ entries endpoint kept + (if endpoint_eq key.endpoint endpoint then 1 else 0)
  unfolding entries insert count_keys
  replace-entries endpoint key b kept =
      let p : BucketKey → Bool = λ k. endpoint_eq k.endpoint endpoint in
      ground (arith, count_keys-remove p key (remove key kept), count_keys-remove p key kept)

  endpoint_eq_sound : (a b : PublicEndpoint) → endpoint_eq a b ≡ true → a ≡ b
  endpoint_eq_sound a b h = ground arith

  -- A new bucket is made only while its endpoint has fewer than the cap.
  fresh-entries :
      (endpoint : PublicEndpoint) (key : BucketKey) (b : TokenBucket) (kept : Buckets)
      → entries endpoint kept ≤ l.max_entries
      → leb l.max_entries (entries key.endpoint kept) ≡ false
      → entries endpoint (insert key b (remove key kept)) ≤ l.max_entries
  fresh-entries endpoint key b kept bounded room =
      ground (arith, replace-entries endpoint key b kept, endpoint_eq_sound key.endpoint endpoint)

  consume_from-entries :
      (endpoint : PublicEndpoint) (key : BucketKey) (now : ℕ) (kept : Buckets)
      (o : Option TokenBucket)
      → lookup key kept ≡ o
      → entries endpoint kept ≤ l.max_entries
      → entries endpoint (consume_from l key now kept (bucket_for l key now kept o)).0
        ≤ l.max_entries
  unfolding consume_from bucket_for
  consume_from-entries endpoint key now kept (some c) h bounded =
      omega (arith, replace-entries_present endpoint key (take l now (refill l now c)).0 c kept h)
  consume_from-entries endpoint key now kept none h bounded =
      elim (Bool-cases
        (leb l.max_entries (count_keys (λ k. endpoint_eq k.endpoint key.endpoint) kept))) [
          | inl full_up ↦ rw full_up bounded
          | inr room ↦
              let b : TokenBucket = record {
                tokens = l.capacity;
                updated_at = now;
                last_accessed = now;
              } in
              rw room
                (fresh-entries endpoint key (take l now b).0 kept bounded (unfold entries in room))
        ]

  try_consume-entries :
      (endpoint : PublicEndpoint) (key : BucketKey) (now : ℕ) (buckets : Buckets)
      → entries endpoint buckets ≤ l.max_entries
      → entries endpoint (try_consume l key now buckets).0 ≤ l.max_entries
  unfolding try_consume
  try_consume-entries endpoint key now buckets bounded =
      let kept = evict_safe_buckets l now buckets in
      consume_from-entries endpoint key now kept (lookup key kept) refl
        (omega (arith, evict-entries endpoint now buckets))

  -- Whatever the calls, an endpoint never has more buckets than the cap.
  pub serve-entries :
      (endpoint : PublicEndpoint) (calls : Calls l) (buckets : Buckets)
      → entries endpoint buckets ≤ l.max_entries
      → entries endpoint (serve l calls buckets) ≤ l.max_entries
  unfolding serve
  serve-entries endpoint [] buckets bounded = bounded
  serve-entries endpoint ((key, now) ∷ calls) buckets bounded =
      serve-entries endpoint calls (try_consume l key now buckets).0
        (try_consume-entries endpoint key now buckets bounded)

  -- A key that has a bucket gets one again later: if its bucket is evicted, its endpoint has room.
  has_room_again :
      (key : BucketKey) (now : ℕ) (buckets : Buckets) (b : TokenBucket)
      → IsSound l buckets
      → entries key.endpoint buckets ≤ l.max_entries
      → lookup key buckets ≡ some b
      → has_room l key now buckets ≡ true
  unfolding has_room entries contains_key evict_safe_buckets
  has_room_again key now buckets b s bounded h = elim (Option-cases (keep_bucket l now b)) [
    | inl gone ↦
        let p : BucketKey → Bool = λ k. endpoint_eq k.endpoint key.endpoint in
        ground (arith, count_keys-retain_lt p (keep_bucket l now) key buckets b h gone)
    | inr (c, kept) ↦
        let there : lookup key (evict_safe_buckets l now buckets) ≡ some c =
          lookup-retain key (keep_bucket l now) buckets s.unique
          ∙ ap (λ o. bind_option o (keep_bucket l now)) h
          ∙ kept in
        rw there
  ]
