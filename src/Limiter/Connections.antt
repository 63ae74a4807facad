-- ===== src/Limiter/Connections.antt =====
-- The connection counts of internal/relay/limiter.go.
use mathlib.Core.Logic.{ite}
use p2papp.Prelude.{
  ◌+◌, ◌-◌, ◌<◌, ◌≤◌, ◌≡◌, ◌≢◌, refl, sym, ap, ◌∙◌, ◌&&◌, List, [], ◌∷◌, arith, Str, str_dec, holds,
  half_word, add64, sub64, lt64, add64_small, sub64_small, lt64_small, ltb, if◌then◌else◌,
}
use p2papp.Assoc.{get-put}
use p2papp.Limiter.{
  Float, RateLimiter, LimiterConfig, count_of, allow_connection, release_connection,
}

-- No count is above the limit, which is a positive int.
pub record IsValid (F : Type 0) (r : RateLimiter F) : Type 0 where
  pub signed : r.config.max_connections_per_peer < half_word
  pub within : (p : Str) → count_of p r.connections ≤ r.config.max_connections_per_peer

pub data Event : Type 0 where
  opens closes : Str → Event

abbrev pub peer_of : Event → Str
peer_of (opens p) = p
peer_of (closes p) = p

-- The events of one peer, in their order.
unfoldable pub only : Str → List Event → List Event
only j [] = []
only j (e ∷ es) = if holds (str_dec (peer_of e) j) then e ∷ only j es else only j es

module _ (fl : Float) where
  open fl use {F}

  -- `AllowConnection` grants a slot exactly while the peer has fewer than the limit, and counts it;
  -- the counts of other peers stay.
  pub allow_connection_lem :
      (p : Str) (r : RateLimiter F)
      → IsValid F r
      → ((allow_connection fl p r).1
          ≡ ltb (count_of p r.connections) r.config.max_connections_per_peer)
        × ((j : Str)
            → count_of j (allow_connection fl p r).0.connections ≡ (
                if holds (str_dec p j)
                  && ltb (count_of p r.connections) r.config.max_connections_per_peer
                then count_of j r.connections + 1
                else count_of j r.connections))
        × ((allow_connection fl p r).0.config ≡ r.config)
  unfolding allow_connection count_of
  allow_connection_lem p r v =
      let n = count_of p r.connections in
      let m = r.config.max_connections_per_peer in
      let b : n ≤ m = v.within p in
      let s = v.signed in
      let test : lt64 n m ≡ ltb n m = lt64_small n m (omega arith) s in
      (
        ground (arith, test),
        λ j. ground (arith, test, add64_small n 1, get-put j p (add64 n 1) r.connections),
        ground (arith, test),
      )

  -- `ReleaseConnection` gives a slot back, and does nothing for a peer that holds none.
  pub release_connection_lem :
      (p : Str) (r : RateLimiter F)
      → IsValid F r
      → ((j : Str)
          → count_of j (release_connection fl p r).connections
            ≡ ite (str_dec p j) (count_of j r.connections - 1) (count_of j r.connections))
        × ((release_connection fl p r).config ≡ r.config)
  unfolding release_connection count_of
  release_connection_lem p r v =
      let n = count_of p r.connections in
      let b : n ≤ r.config.max_connections_per_peer = v.within p in
      let s = v.signed in
      let test : lt64 0 n ≡ ltb 0 n = lt64_small 0 n (omega arith) (omega arith) in
      (
        λ j. ground (arith, test, sub64_small n 1, get-put j p (sub64 n 1) r.connections),
        ground (arith, test),
      )

  unfoldable pub after : Event → RateLimiter F → RateLimiter F
  after (opens p) r = (allow_connection fl p r).0
  after (closes p) r = release_connection fl p r

  unfoldable pub run_events : List Event → RateLimiter F → RateLimiter F
  run_events [] r = r
  run_events (e ∷ es) r = run_events es (after e r)

  after-IsValid : (e : Event) (r : RateLimiter F) → IsValid F r → IsValid F (after e r)
  unfolding after
  after-IsValid (opens p) r v =
      let (granted, counts, config) = allow_connection_lem p r v in
      record {
        signed = rw config v.signed;
        within = λ j. rw config (ground (arith, counts j, v.within j));
      }
  after-IsValid (closes p) r v =
      let (counts, config) = release_connection_lem p r v in
      record {
        signed = rw config v.signed;
        within = λ j. rw config (ground (arith, counts j, v.within j));
      }

  -- The same limits, and the same count for one peer.
  record Agree (j : Str) (r s : RateLimiter F) : Type 0 where
    config : r.config ≡ s.config
    count : count_of j r.connections ≡ count_of j s.connections

  after-Agree :
      (j : Str) (e : Event) (r s : RateLimiter F)
      → IsValid F r
      → IsValid F s
      → Agree j r s
      → Agree j (after e r) (after e s)
  unfolding after
  after-Agree j (opens p) r s v w a =
      let (x, x', x'') = allow_connection_lem p r v in
      let (y, y', y'') = allow_connection_lem p s w in
      record { config = x'' ∙ a.config ∙ sym y''; count = opened (x' j) (y' j) }
    where
      opened :
          count_of j (allow_connection fl p r).0.connections ≡ (
            if holds (str_dec p j)
              && ltb (count_of p r.connections) r.config.max_connections_per_peer
            then count_of j r.connections + 1
            else count_of j r.connections)
          → count_of j (allow_connection fl p s).0.connections ≡ (
              if holds (str_dec p j)
                && ltb (count_of p s.connections) s.config.max_connections_per_peer
              then count_of j s.connections + 1
              else count_of j s.connections)
          → count_of j (allow_connection fl p r).0.connections
            ≡ count_of j (allow_connection fl p s).0.connections
      opened x y = ground (
        arith,
        a.config,
        a.count,
        ap (λ (c : LimiterConfig F). c.max_connections_per_peer) a.config,
      )
  after-Agree j (closes p) r s v w a =
      let (x', x'') = release_connection_lem p r v in
      let (y', y'') = release_connection_lem p s w in
      record { config = x'' ∙ a.config ∙ sym y''; count = ground (arith, x' j, y' j, a.count) }

  after_other :
      (j : Str) (e : Event) (r : RateLimiter F)
      → IsValid F r
      → peer_of e ≢ j
      → Agree j (after e r) r
  unfolding after
  after_other j (opens p) r v h =
      let (granted, counts, config) = allow_connection_lem p r v in
      record { config = config; count = ground (arith, counts j) }
  after_other j (closes p) r v h =
      let (counts, config) = release_connection_lem p r v in
      record { config = config; count = ground (arith, counts j) }

  run_events-Agree :
      (j : Str) (es : List Event) (r s : RateLimiter F)
      → IsValid F r
      → IsValid F s
      → Agree j r s
      → Agree j (run_events es r) (run_events (only j es) s)
  unfolding run_events only
  run_events-Agree j [] r s v w a = a
  run_events-Agree j (e ∷ es) r s v w a =
      elim (str_dec (peer_of e) j)
        as (λ d.
          Agree j (run_events es (after e r))
            (run_events (if holds d then e ∷ only j es else only j es) s)) [
              | yes same ↦
                  run_events-Agree j es (after e r) (after e s) (after-IsValid e r v)
                    (after-IsValid e s w) (after-Agree j e r s v w a)
              | no other ↦
                  let b = after_other j e r v other in
                  run_events-Agree j es (after e r) s (after-IsValid e r v) w
                    (record { config = b.config ∙ a.config; count = b.count ∙ a.count })
            ]

  -- Whatever connections are opened and closed, no peer's count passes the limit.
  pub run_events-IsValid :
      (es : List Event) (r : RateLimiter F) → IsValid F r → IsValid F (run_events es r)
  unfolding run_events
  run_events-IsValid [] r v = v
  run_events-IsValid (e ∷ es) r v = run_events-IsValid es (after e r) (after-IsValid e r v)

  -- What other peers open and close has no effect on a peer's count: it is the count after the
  -- peer's own events alone.
  pub run_events-only :
      (j : Str) (es : List Event) (r : RateLimiter F)
      → IsValid F r
      → count_of j (run_events es r).connections ≡ count_of j (run_events (only j es) r).connections
  run_events-only j es r v =
      (run_events-Agree j es r r v v (record { config = refl; count = refl })).count
