-- ===== src/Limiter/Cleanup.antt =====
-- `Cleanup` of internal/relay/limiter.go, which goes by the request buckets alone.
use p2papp.Prelude.{
  ◌≡◌, refl, ap, Bool, true, false, Option, some, none, [], ◌∷◌, arith, Str, Time, Duration,
  if◌then◌else◌, lt64_small, ◌<◌,
}
use p2papp.Assoc
use p2papp.Assoc.{Assoc, Unique, get-put, get-remove}
use p2papp.Limiter.{
  Float, LimiterConfig, TokenBucket, RateLimiter, count_of, stale, reset, cleanup_loop, cleanup,
  allow_connection,
}
use p2papp.Limiter.Connections.{IsValid, allow_connection_lem}

module _ (fl : Float) (now : Time) (max_age : Duration) where
  -- Whether a peer has a request bucket that is too old.
  abbrev pub is_stale : Option (TokenBucket fl.F) → Bool
  is_stale none = false
  is_stale (some b) = stale fl now max_age b

  cleanup_loop_lem :
      (j : Str) (m : Assoc (TokenBucket fl.F)) (r : RateLimiter fl.F)
      → Unique m
      → (Assoc.get j (cleanup_loop fl now max_age m r).peer_buckets
          ≡ (if is_stale (Assoc.get j m) then none else Assoc.get j r.peer_buckets))
        × (Assoc.get j (cleanup_loop fl now max_age m r).byte_buckets
            ≡ (if is_stale (Assoc.get j m) then none else Assoc.get j r.byte_buckets))
        × (Assoc.get j (cleanup_loop fl now max_age m r).connections
            ≡ (if is_stale (Assoc.get j m) then none else Assoc.get j r.connections))
        × ((cleanup_loop fl now max_age m r).config ≡ r.config)
  unfolding cleanup_loop reset Assoc.get
  cleanup_loop_lem j [] r u = (refl, refl, refl, refl)
  cleanup_loop_lem j ((p, b) ∷ m) r u =
      let (peer, byte, conn, conf) =
        cleanup_loop_lem j m (if stale fl now max_age b then reset fl p r else r) u.1 in
      (
        ground (arith, peer, get-remove j p r.peer_buckets),
        ground (arith, byte, get-remove j p r.byte_buckets),
        ground (arith, conn, get-remove j p r.connections),
        ground (arith, conf),
      )

  -- `Cleanup` forgets a peer whose request bucket was last refilled more than the given age ago,
  -- with its byte bucket and its connection count; it leaves every other peer as it is, and so
  -- never forgets a peer that has no request bucket.
  pub get-cleanup :
      (j : Str) (r : RateLimiter fl.F)
      → Unique r.peer_buckets
      → (Assoc.get j (cleanup fl now max_age r).peer_buckets
          ≡ (if is_stale (Assoc.get j r.peer_buckets) then none else Assoc.get j r.peer_buckets))
        × (Assoc.get j (cleanup fl now max_age r).byte_buckets
            ≡ (if is_stale (Assoc.get j r.peer_buckets) then none else Assoc.get j r.byte_buckets))
        × (Assoc.get j (cleanup fl now max_age r).connections
            ≡ (if is_stale (Assoc.get j r.peer_buckets) then none else Assoc.get j r.connections))
        × ((cleanup fl now max_age r).config ≡ r.config)
  unfolding cleanup
  get-cleanup j r u = cleanup_loop_lem j r.peer_buckets r u

  -- A peer with an old request bucket that holds all its connections open is granted another one
  -- after `Cleanup`: the connections that it holds are no longer counted.
  pub cleanup-allow_connection :
      (j : Str) (b : TokenBucket fl.F) (r : RateLimiter fl.F)
      → Unique r.peer_buckets
      → Assoc.get j r.peer_buckets ≡ some b
      → stale fl now max_age b ≡ true
      → IsValid fl.F r
      → count_of j r.connections ≡ r.config.max_connections_per_peer
      → 0 < r.config.max_connections_per_peer
      → ((allow_connection fl j r).1 ≡ false)
        × ((allow_connection fl j (cleanup fl now max_age r)).1 ≡ true)
  unfolding allow_connection count_of
  cleanup-allow_connection j b r u has old v full positive =
      let m = r.config.max_connections_per_peer in
      let (peer, byte, conn, conf) = get-cleanup j r u in
      let config = ap (λ (c : LimiterConfig fl.F). c.max_connections_per_peer) conf in
      (
        ground (arith, (allow_connection_lem fl j r v).0),
        ground (arith, conn, config, has, old, lt64_small 0 m (omega arith) v.signed),
      )
