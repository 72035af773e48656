-- ===== src/Tests/Limiter.antt =====
-- The rate limiter at concrete inputs: two calls at once, and refills.
use north.Common.{
  ◌+◌, ◌-◌, zero, suc, false, ℕ, ◌^◌, err, true, ◌*◌, ◌≤◌, ◌≡◌, refl, ◌&&◌, [], ◌∷◌, is_ok, leb,
  arith,
}
use north.Common.Float.{
  one, round, of_integer, nearest, excess, add, sub, mul, div, as_secs_f64, ceil_as_u64,
}
use north.Common.Map.{lookup, retain, remove, insert, count_keys}
use north.Server.Limiter.{
  retry_seconds, refill, ClientRateLimiter, TokenBucket, BucketKey, request_code, try_consume,
  consume_from, bucket_for, evict_safe_buckets, take, keep_bucket,
}
use north.Server.Limiter.Bucket.{tokens_at}
use north.Server.Limiter.Rate.{
  Spends, try_consume-Spends, has_room, is_ok-try_consume, empty-IsSound, Calls, serve,
}
use north.Server.Limiter.Entries.{entries, serve-entries}

-- Two tokens, refilled every two seconds.
abbrev limiter : ClientRateLimiter
limiter = record { capacity = of_integer 2; refill_interval = 2000000000; max_entries = 3 }

abbrev client : BucketKey
client = record { endpoint = request_code; primary_key = "192.0.2.1/32" }

abbrev calls_of_client : Calls limiter
calls_of_client = (client, 10) ∷ (client, 11) ∷ (client, 12) ∷ (client, 2000000020) ∷ []

-- Two calls at once are allowed, a third is told to wait two seconds.
third_waits :
    (try_consume limiter client 12 (serve limiter ((client, 12) ∷ (client, 12) ∷ []) [])).1 ≡ err 2
unfolding serve try_consume consume_from bucket_for lookup evict_safe_buckets retain count_keys
    insert keep_bucket of_integer round nearest excess one take sub retry_seconds ceil_as_u64 add
    as_secs_f64 div mul remove refill
third_waits = refl

-- A third is 6004799503160661 / 2 ^ 54, and a tenth of a second is 3602879701896397 / 2 ^ 55 of one.
third_of_one : div one (of_integer 3) ≡ 6004799503160661 * 2 ^ 1020
unfolding of_integer div round nearest excess one
third_of_one = refl

tenth_of_second : as_secs_f64 100000000 ≡ 3602879701896397 * 2 ^ 1019
unfolding of_integer add div as_secs_f64 round nearest excess one
tenth_of_second = refl

-- One token in 120 seconds, asked for every second: rounding leaves the key short of a token.
abbrev slow : ClientRateLimiter
slow = record { capacity = of_integer 1; refill_interval = 120000000000; max_entries = 3 }

polled : ℕ → TokenBucket → TokenBucket
polled zero b = b
polled (suc n) b = let c = polled n b in refill slow (c.updated_at + 1000000000) c

abbrev spent_bucket : TokenBucket
spent_bucket = record { tokens = 0; updated_at = 0; last_accessed = 0 }

short_of_a_token :
    let b = polled 120 spent_bucket in
    (b.updated_at ≡ slow.refill_interval)
    × (leb one b.tokens ≡ false)
    × (b.tokens ≡ (2 ^ 53 - 10) * 2 ^ 1021)
unfolding polled refill of_integer add div as_secs_f64 round nearest excess one
short_of_a_token = (refl, refl, refl)

capacity_fits : limiter.capacity ≤ 2 ^ 32 * one
unfolding of_integer round one nearest excess
capacity_fits = leb_sound (of_integer 2) (2 ^ 32 * one) refl
  where
    leb_sound : (m n : ℕ) → leb m n ≡ true → m ≤ n
    leb_sound m n h = ground arith

try_consume-Spends_example :
    Spends limiter client 10 []
      (try_consume limiter client 10 []).0
      (try_consume limiter client 10 []).1
try_consume-Spends_example =
    try_consume-Spends limiter client 10 [] (empty-IsSound limiter capacity_fits)

is_ok-try_consume_example :
    is_ok (try_consume limiter client 10 []).1
    ≡ (has_room limiter client 10 [] && leb one (tokens_at limiter client 10 []))
is_ok-try_consume_example =
    is_ok-try_consume limiter client 10 [] (empty-IsSound limiter capacity_fits)

empty_is_small : entries request_code [] ≤ 3
unfolding entries count_keys
empty_is_small = omega arith

serve-entries_example : entries request_code (serve limiter calls_of_client []) ≤ 3
serve-entries_example = serve-entries limiter request_code calls_of_client [] empty_is_small
