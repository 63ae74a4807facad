-- ===== src/Limiter.antt =====
-- internal/relay/limiter.go: token buckets, and the rate limiter that keeps them for each peer.
-- `float64` is a parameter, `Float`; each reading of the clock is an argument.
pub mod Bucket
pub mod Requests
pub mod Connections
pub mod Cleanup
mod Tests
use mathlib.Core.Logic.{ite}
use p2papp.Prelude.{
  ℕ, Bool, true, false, Option, none, some, List, [], ◌∷◌, Str, add64, sub64, lt64, Time, Duration,
  pos, negsuc, ℤ, ltb_ℤ, sub_time, if◌then◌else◌,
}
use p2papp.Assoc
use p2papp.Assoc.{Assoc}

-- The float64 operations that the limiter uses: `lt a b` is a < b and `le a b` is a <= b, both
-- false at a NaN; `seconds` is `Duration.Seconds`.
pub record Float : Type 1 where
  pub F : Type 0
  pub add : F → F → F
  pub sub : F → F → F
  pub mul : F → F → F
  pub div : F → F → F
  pub lt : F → F → Bool
  pub le : F → F → Bool
  pub of_int : ℕ → F
  pub to_int : F → ℕ
  pub seconds : Duration → F
  pub to_duration : F → Duration

-- `TokenBucket`
pub record TokenBucket (F : Type 0) : Type 0 where
  pub tokens : F
  pub max_tokens : F
  pub refill_rate : F
  pub last_refill : Time

-- `LimiterConfig`
pub record LimiterConfig (F : Type 0) : Type 0 where
  pub max_requests_per_second : F
  pub max_burst_size : F
  pub max_bytes_per_second : ℕ
  pub max_connections_per_peer : ℕ

-- `RateLimiter`
pub record RateLimiter (F : Type 0) : Type 0 where
  pub config : LimiterConfig F
  pub peer_buckets : Assoc (TokenBucket F)
  pub byte_buckets : Assoc (TokenBucket F)
  pub connections : Assoc ℕ
  pub global_bucket : TokenBucket F

-- `PeerLimitStats`
pub record PeerLimitStats (F : Type 0) : Type 0 where
  pub peer_id : Str
  pub request_tokens : F
  pub byte_tokens : ℕ
  pub open_connections : ℕ

-- A count in the map, zero where the key is missing.
abbrev pub or_zero : Option ℕ → ℕ
or_zero none = 0
or_zero (some n) = n

unfoldable pub count_of : Str → Assoc ℕ → ℕ
count_of p m = or_zero (Assoc.get p m)

module _ (fl : Float) where
  open fl use {F, add, sub, mul, div, lt, le, of_int, to_int, seconds, to_duration}

  -- `NewTokenBucket`
  unfoldable pub new_bucket : F → F → Time → TokenBucket F
  new_bucket max_tokens refill_rate now = record {
    tokens = max_tokens;
    max_tokens = max_tokens;
    refill_rate = refill_rate;
    last_refill = now;
  }

  -- `refill`
  unfoldable pub refill : Time → TokenBucket F → TokenBucket F
  refill now b =
      let t = add b.tokens (mul (seconds (sub_time now b.last_refill)) b.refill_rate) in
      record b { tokens = if lt b.max_tokens t then b.max_tokens else t; last_refill = now }

  -- `AllowN`; `Allow` is `AllowN(1)`.
  unfoldable pub take_tokens : F → TokenBucket F → TokenBucket F × Bool
  take_tokens n b =
      if le n b.tokens then (record b { tokens = sub b.tokens n }, true) else (b, false)

  unfoldable pub allow_n : F → Time → TokenBucket F → TokenBucket F × Bool
  allow_n n now b = take_tokens n (refill now b)

  unfoldable pub allow : Time → TokenBucket F → TokenBucket F × Bool
  allow now b = allow_n (of_int 1) now b

  -- `Tokens`
  unfoldable pub tokens_of : Time → TokenBucket F → TokenBucket F × F
  tokens_of now b = (refill now b, (refill now b).tokens)

  -- `WaitTime`
  unfoldable pub wait_time : F → Time → TokenBucket F → TokenBucket F × Duration
  wait_time n now b =
      let b' = refill now b in
      (
        b',
        if le n b'.tokens
            then pos 0
            else to_duration (mul (div (sub n b'.tokens) b'.refill_rate) (of_int 1000000000)),
      )

  -- `DefaultLimiterConfig`
  unfoldable pub default_limiter_config : LimiterConfig F
  default_limiter_config = record {
    max_requests_per_second = of_int 100;
    max_burst_size = of_int 200;
    max_bytes_per_second = 10485760;
    max_connections_per_peer = 10;
  }

  -- `NewRateLimiter`
  unfoldable pub new_rate_limiter : LimiterConfig F → Time → RateLimiter F
  new_rate_limiter config now = record {
    config = config;
    peer_buckets = [];
    byte_buckets = [];
    connections = [];
    global_bucket =
        new_bucket (mul config.max_burst_size (of_int 10))
          (mul config.max_requests_per_second (of_int 10)) now;
  }

  -- The bucket of a peer, or a new one.
  abbrev pub bucket_or : TokenBucket F → Option (TokenBucket F) → TokenBucket F
  bucket_or new none = new
  bucket_or new (some b) = b

  unfoldable pub peer_bucket : Str → Time → RateLimiter F → TokenBucket F
  peer_bucket p now r =
      bucket_or (new_bucket r.config.max_burst_size r.config.max_requests_per_second now)
        (Assoc.get p r.peer_buckets)

  unfoldable pub byte_bucket : Str → Time → RateLimiter F → TokenBucket F
  byte_bucket p now r =
      let rate = of_int r.config.max_bytes_per_second in
      bucket_or (new_bucket rate rate now) (Assoc.get p r.byte_buckets)

  -- `AllowRequest` once the global bucket has granted a token.
  unfoldable pub request_peer : Str → Time → Time → RateLimiter F → RateLimiter F × Bool
  request_peer p t2 t3 r =
      let (b, ok) = allow t3 (peer_bucket p t2 r) in
      (record r { peer_buckets = Assoc.put p b r.peer_buckets }, ok)

  -- `AllowRequest`; the clock is read for the global bucket, for a new bucket and for the peer's.
  unfoldable pub allow_request : Str → Time → Time → Time → RateLimiter F → RateLimiter F × Bool
  allow_request p t1 t2 t3 r =
      let (g, ok) = allow t1 r.global_bucket in
      let r' = record r { global_bucket = g } in if ok then request_peer p t2 t3 r' else (r', false)

  -- `AllowBytes`
  unfoldable pub allow_bytes : Str → ℕ → Time → Time → RateLimiter F → RateLimiter F × Bool
  allow_bytes p n t1 t2 r =
      let (b, ok) = allow_n (of_int n) t2 (byte_bucket p t1 r) in
      (record r { byte_buckets = Assoc.put p b r.byte_buckets }, ok)

  -- `AllowConnection`
  unfoldable pub allow_connection : Str → RateLimiter F → RateLimiter F × Bool
  allow_connection p r =
      let count = count_of p r.connections in
      if lt64 count r.config.max_connections_per_peer
      then (record r { connections = Assoc.put p (add64 count 1) r.connections }, true)
      else (r, false)

  -- `ReleaseConnection`
  unfoldable pub release_connection : Str → RateLimiter F → RateLimiter F
  release_connection p r =
      let count = count_of p r.connections in
      if lt64 0 count
      then record r { connections = Assoc.put p (sub64 count 1) r.connections }
      else r

  -- `WaitForRequest`
  unfoldable pub wait_at :
      Str → Time → Option (TokenBucket F) → RateLimiter F → RateLimiter F × Duration
  wait_at p now none r = (r, pos 0)
  wait_at p now (some b) r =
      let (b', d) = wait_time (of_int 1) now b in
      (record r { peer_buckets = Assoc.put p b' r.peer_buckets }, d)

  unfoldable pub wait_for_request : Str → Time → RateLimiter F → RateLimiter F × Duration
  wait_for_request p now r = wait_at p now (Assoc.get p r.peer_buckets) r

  -- `GetPeerStats`; reading the tokens refills the buckets.
  abbrev pub refilled : Str → Time → Assoc (TokenBucket F) → Assoc (TokenBucket F)
  refilled p now m = elim (Assoc.get p m) [ none ↦ m | some b ↦ Assoc.put p (refill now b) m ]

  abbrev pub tokens_or_zero : Time → Option (TokenBucket F) → F
  tokens_or_zero now none = of_int 0
  tokens_or_zero now (some b) = (refill now b).tokens

  abbrev pub int_tokens : Time → Option (TokenBucket F) → ℕ
  int_tokens now none = 0
  int_tokens now (some b) = to_int (refill now b).tokens

  unfoldable pub get_peer_stats :
      Str → Time → Time → RateLimiter F → RateLimiter F × PeerLimitStats F
  get_peer_stats p t1 t2 r = (
    record r {
      peer_buckets = refilled p t1 r.peer_buckets;
      byte_buckets = refilled p t2 r.byte_buckets;
    },
    record {
      peer_id = p;
      request_tokens = tokens_or_zero t1 (Assoc.get p r.peer_buckets);
      byte_tokens = int_tokens t2 (Assoc.get p r.byte_buckets);
      open_connections = count_of p r.connections;
    },
  )

  -- `Reset`
  unfoldable pub reset : Str → RateLimiter F → RateLimiter F
  reset p r = record r {
    peer_buckets = Assoc.remove p r.peer_buckets;
    byte_buckets = Assoc.remove p r.byte_buckets;
    connections = Assoc.remove p r.connections;
  }

  -- `ResetAll`
  unfoldable pub reset_all : RateLimiter F → RateLimiter F
  reset_all r = record r { peer_buckets = []; byte_buckets = []; connections = [] }

  -- `Cleanup`: the range over the request buckets.
  unfoldable pub stale : Time → Duration → TokenBucket F → Bool
  stale now max_age b = ltb_ℤ max_age (sub_time now b.last_refill)

  unfoldable pub cleanup_loop :
      Time → Duration → Assoc (TokenBucket F) → RateLimiter F → RateLimiter F
  cleanup_loop now max_age [] r = r
  cleanup_loop now max_age ((p, b) ∷ rest) r =
      cleanup_loop now max_age rest (if stale now max_age b then reset p r else r)

  unfoldable pub cleanup : Time → Duration → RateLimiter F → RateLimiter F
  cleanup now max_age r = cleanup_loop now max_age r.peer_buckets r
