-- ===== src/Server/Limiter.antt =====
-- `ClientRateLimiter` of crates/north-server/src/public_abuse.rs. An `Instant` and a `Duration` are
-- numbers of nanoseconds; the tokens of a bucket are an `f64`.
pub mod Bucket
pub mod Rate
pub mod Entries
use north.Common.{
  ℕ, ◌-◌, ◌/◌, ◌≡◌, ◌↔◌, Bool, true, false, not, ◌&&◌, String, str_eq, eq_iff, Option, none, some,
  Result, ok, err, arith, ltb, leb, ◌==◌, if◌then◌else◌,
}
use north.Common.Float.{F64, one, add, sub, mul, div, of_integer, as_secs_f64, ceil_as_u64}
use north.Common.Map.{Map, Eq, lookup, remove, insert, retain, count_keys}
use Prim.Native.Nat.{min, max}

pub data PublicEndpoint : Type 0 where
  request_code daemon_setup : PublicEndpoint

unfoldable pub as_str : PublicEndpoint → String
as_str request_code = "request_code"
as_str daemon_setup = "daemon_setup"

abbrev pub endpoint_eq : PublicEndpoint → PublicEndpoint → Bool
endpoint_eq request_code request_code = true
endpoint_eq daemon_setup daemon_setup = true
endpoint_eq _ _ = false

pub record BucketKey : Type 0 where
  pub endpoint : PublicEndpoint
  pub primary_key : String

abbrev pub key_eq : BucketKey → BucketKey → Bool
key_eq a b = endpoint_eq a.endpoint b.endpoint && str_eq a.primary_key b.primary_key

pub key_eq_iff : (a b : BucketKey) → (key_eq a b ≡ true) ↔ (a ≡ b)
key_eq_iff a b = (
  λ h. ground (arith, eq_iff a.primary_key b.primary_key),
  λ h. ground (arith, eq_iff a.primary_key b.primary_key),
)

instance abbrev pub key_equality : Eq BucketKey
key_equality = record { beq = key_eq; beq_iff = key_eq_iff }

pub record TokenBucket : Type 0 where
  pub tokens : F64
  pub updated_at : ℕ
  pub last_accessed : ℕ

pub record ClientRateLimiter : Type 0 where
  pub capacity : F64
  pub refill_interval : ℕ
  pub max_entries : ℕ

abbrev pub Buckets : Type 0
Buckets = Map BucketKey TokenBucket

abbrev pub nanos_per_second : ℕ
nanos_per_second = 1000000000

-- The capacity is a `u32`; `none` is a failed assertion.
unfoldable pub with_clock_and_max_entries : ℕ → ℕ → ℕ → Option ClientRateLimiter
with_clock_and_max_entries capacity refill_interval max_entries =
    if ltb 0 capacity && ltb 0 refill_interval && ltb 0 max_entries
    then some (record {
      capacity = of_integer capacity;
      refill_interval = refill_interval;
      max_entries = max_entries;
    })
    else none

module _ (l : ClientRateLimiter) where
  unfoldable pub refill : ℕ → TokenBucket → TokenBucket
  refill now bucket =
      let elapsed = now - bucket.updated_at in
      if elapsed == 0 then bucket else record bucket {
        tokens =
            min (add bucket.tokens (div (as_secs_f64 elapsed) (as_secs_f64 l.refill_interval)))
              l.capacity;
        updated_at = now;
      }

  -- The closure of `retain`: the bucket is refilled, and kept unless it is full and idle.
  unfoldable pub keep_bucket : ℕ → TokenBucket → Option TokenBucket
  unfolding refill
  keep_bucket now bucket =
      let b = refill now bucket in
      if not (leb l.capacity b.tokens && leb l.refill_interval (now - b.last_accessed))
      then some b
      else none

  unfoldable pub evict_safe_buckets : ℕ → Buckets → Buckets
  evict_safe_buckets now = retain (keep_bucket now)

  -- The seconds until the missing part of a token has been refilled
  unfoldable pub retry_seconds : F64 → ℕ
  retry_seconds tokens = max (ceil_as_u64 (mul (sub one tokens) (as_secs_f64 l.refill_interval))) 1

  unfoldable pub take : ℕ → TokenBucket → TokenBucket × Result (Unit {0}) ℕ
  take now bucket =
      let b = record bucket { last_accessed = now } in
      if leb one b.tokens
      then (record b { tokens = sub b.tokens one }, ok tt)
      else (b, err (retry_seconds b.tokens))

  -- The bucket that a call takes from, if it gets one.
  unfoldable pub bucket_for : BucketKey → ℕ → Buckets → Option TokenBucket → Option TokenBucket
  bucket_for key now buckets (some bucket) = some (refill now bucket)
  bucket_for key now buckets none =
      if leb l.max_entries (count_keys (λ k. endpoint_eq k.endpoint key.endpoint) buckets)
      then none
      else some (record { tokens = l.capacity; updated_at = now; last_accessed = now })

  unfoldable pub consume_from :
      BucketKey → ℕ → Buckets → Option TokenBucket → Buckets × Result (Unit {0}) ℕ
  consume_from key now buckets none = (buckets, err (max (l.refill_interval / nanos_per_second) 1))
  consume_from key now buckets (some bucket) =
      let (b, result) = take now bucket in (insert key b (remove key buckets), result)

  unfoldable pub try_consume : BucketKey → ℕ → Buckets → Buckets × Result (Unit {0}) ℕ
  try_consume key now buckets =
      let kept = evict_safe_buckets now buckets in
      consume_from key now kept (bucket_for key now kept (lookup key kept))
