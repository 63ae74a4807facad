-- ===== src/Limiter/Tests.antt =====
-- Runs of the rate limiter of internal/relay/limiter.go over whole numbers of tokens, and its
-- theorems at concrete limiters.
use p2papp.Prelude.{
  ℕ, ◌+◌, ◌-◌, ◌*◌, ◌/◌, ◌≡◌, refl, true, false, none, [], ◌∷◌, arith, str_dec, codes, pos, negsuc,
  ℤ, ltb, leb, add64, sub64, lt64, sub_time, if◌then◌else◌,
}
use p2papp.Assoc
use p2papp.Assoc.{Unique}
use p2papp.Limiter.{
  Float, TokenBucket, LimiterConfig, RateLimiter, count_of, new_bucket, refill, take_tokens,
  allow_n, allow, peer_bucket, request_peer, allow_request, allow_connection, release_connection,
  stale, reset, cleanup_loop, cleanup,
}
use p2papp.Limiter.Bucket
use p2papp.Limiter.Bucket.{IsOrdered}
use p2papp.Limiter.Connections
use p2papp.Limiter.Connections.{opens, closes, only}
use p2papp.Limiter.Cleanup
use p2papp.Limiter.Cleanup.{is_stale}

whole_seconds : ℤ → ℕ
whole_seconds (pos n) = n / 1000000000
whole_seconds (negsuc n) = 0

whole_duration : ℕ → ℤ
whole_duration n = pos n

program : Unit {0}
unfolding whole_seconds count_of new_bucket refill take_tokens allow_n allow peer_bucket
    request_peer allow_request allow_connection release_connection stale reset cleanup_loop cleanup
    str_dec add64 sub64 lt64 sub_time Assoc.get Assoc.put Assoc.remove
program = tt

abbrev whole : Float
whole = record {
  F = ℕ;
  add = λ a b. a + b;
  sub = λ a b. a - b;
  mul = λ a b. a * b;
  div = λ a b. a / b;
  lt = ltb;
  le = leb;
  of_int = λ n. n;
  to_int = λ n. n;
  seconds = whole_seconds;
  to_duration = whole_duration;
}

whole-IsOrdered : IsOrdered whole
whole-IsOrdered = record {
  finite = λ a. true;
  lt_irrefl = λ a. ground arith;
  le_of_not_lt = λ a b h k n. ground arith;
  add_nonneg = λ a b h k. ground arith;
  mul_nonneg = λ a b f g h k. ground arith;
  seconds_nonneg = λ n. (refl, ground arith);
  sub_nonneg = λ a b f h k. ground arith;
  sub-le = λ a b c f h k l. ground arith;
  finite_below = λ a b f h k. refl;
}

abbrev bucket : ℕ → ℕ → TokenBucket ℕ
bucket tokens max = record { tokens = tokens; max_tokens = max; refill_rate = 2; last_refill = 0 }

bucket-IsValid : Bucket.IsValid whole whole-IsOrdered (bucket 3 5)
unfolding whole-IsOrdered
bucket-IsValid = record {
  tokens_nonneg = refl;
  tokens_le = refl;
  max_finite = refl;
  max_nonneg = refl;
  rate_finite = refl;
  rate_nonneg = refl;
}

refill_run : refill whole 1000000000 (bucket 4 5) ≡ record (bucket 5 5) { last_refill = 1000000000 }
unfolding program
refill_run = refl

run_requests-IsValid_example :
    Bucket.IsValid whole whole-IsOrdered
      (Bucket.run_requests whole whole-IsOrdered ((1000000000, 2) ∷ (5, 4) ∷ []) (bucket 3 5))
run_requests-IsValid_example =
    Bucket.run_requests-IsValid whole whole-IsOrdered ((1000000000, 2) ∷ (5, 4) ∷ []) (bucket 3 5)
      (refl, (refl, tt)) bucket-IsValid

abbrev config : LimiterConfig ℕ
config = record {
  max_requests_per_second = 2;
  max_burst_size = 5;
  max_bytes_per_second = 100;
  max_connections_per_peer = 1;
}

abbrev limiter : RateLimiter ℕ
limiter = record {
  config = config;
  peer_buckets = (codes "p", bucket 0 5) ∷ [];
  byte_buckets = (codes "q", bucket 9 9) ∷ [];
  connections = (codes "p", 1) ∷ (codes "q", 1) ∷ [];
  global_bucket = bucket 9 50;
}

-- The peer's own bucket is empty, and the global one has paid.
refused_run :
    ((allow_request whole (codes "p") 0 0 0 limiter).1 ≡ false)
    × ((allow_request whole (codes "p") 0 0 0 limiter).0.global_bucket ≡ bucket 8 50)
unfolding program
refused_run = (refl, refl)

limiter-IsValid : Connections.IsValid ℕ limiter
unfolding count_of Assoc.get
limiter-IsValid = record { signed = omega arith; within = λ p. ground arith }

run_events-IsValid_example :
    Connections.IsValid ℕ
      (Connections.run_events whole (opens (codes "p") ∷ closes (codes "q") ∷ []) limiter)
run_events-IsValid_example =
    Connections.run_events-IsValid whole (opens (codes "p") ∷ closes (codes "q") ∷ []) limiter
      limiter-IsValid

limiter-Unique : Unique limiter.peer_buckets
unfolding Assoc.get
limiter-Unique = (refl, tt)

-- The peer without a request bucket is not forgotten at any age.
get-cleanup_example :
    (Assoc.get (codes "q") (cleanup whole 900 (pos 5) limiter).peer_buckets ≡ (
      if is_stale whole 900 (pos 5) (Assoc.get (codes "q") limiter.peer_buckets)
      then none
      else Assoc.get (codes "q") limiter.peer_buckets))
    × (Assoc.get (codes "q") (cleanup whole 900 (pos 5) limiter).byte_buckets ≡ (
        if is_stale whole 900 (pos 5) (Assoc.get (codes "q") limiter.peer_buckets)
        then none
        else Assoc.get (codes "q") limiter.byte_buckets))
    × (Assoc.get (codes "q") (cleanup whole 900 (pos 5) limiter).connections ≡ (
        if is_stale whole 900 (pos 5) (Assoc.get (codes "q") limiter.peer_buckets)
        then none
        else Assoc.get (codes "q") limiter.connections))
    × ((cleanup whole 900 (pos 5) limiter).config ≡ limiter.config)
get-cleanup_example = Cleanup.get-cleanup whole 900 (pos 5) (codes "q") limiter limiter-Unique

cleanup-allow_connection_example :
    ((allow_connection whole (codes "p") limiter).1 ≡ false)
    × ((allow_connection whole (codes "p") (cleanup whole 900 (pos 5) limiter)).1 ≡ true)
unfolding program
cleanup-allow_connection_example =
    Cleanup.cleanup-allow_connection whole 900 (pos 5) (codes "p") (bucket 0 5) limiter
      limiter-Unique refl refl limiter-IsValid refl (omega arith)
