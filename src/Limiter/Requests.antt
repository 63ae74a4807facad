-- ===== src/Limiter/Requests.antt =====
-- `AllowRequest` of internal/relay/limiter.go: the global bucket before the peer's own.
use mathlib.Core.Logic.{ite}
use p2papp.Prelude.{
  ◌≡◌, refl, Bool, ◌&&◌, some, inl, inr, Str, str_dec, Time, Bool-cases, if◌then◌else◌,
}
use p2papp.Assoc
use p2papp.Assoc.{get-put}
use p2papp.Limiter.{Float, RateLimiter, allow, peer_bucket, request_peer, allow_request}

module _ (fl : Float) (p : Str) (t1 t2 t3 : Time) (r : RateLimiter fl.F) where
  -- Whether the global bucket grants a token to the request, and the peer's bucket another.
  abbrev pub global_ok : Bool
  global_ok = (allow fl t1 r.global_bucket).1

  abbrev pub peer_ok : Bool
  peer_ok = (allow fl t3 (peer_bucket fl p t2 r)).1

  -- A request is allowed exactly when both buckets grant it. A request that the global bucket
  -- refuses reaches no peer's bucket; one that the peer's own bucket refuses has still used up a
  -- global token. Counts, byte buckets and the buckets of other peers stay.
  pub allow_request_lem :
      ((allow_request fl p t1 t2 t3 r).1 ≡ (global_ok && peer_ok))
      × ((allow_request fl p t1 t2 t3 r).0.global_bucket ≡ (allow fl t1 r.global_bucket).0)
      × ((j : Str)
          → Assoc.get j (allow_request fl p t1 t2 t3 r).0.peer_buckets ≡ (
              if global_ok
              then ite
                  (str_dec p j)
                  (some (allow fl t3 (peer_bucket fl p t2 r)).0)
                  (Assoc.get j r.peer_buckets)
              else Assoc.get j r.peer_buckets))
      × ((allow_request fl p t1 t2 t3 r).0.connections ≡ r.connections)
      × ((allow_request fl p t1 t2 t3 r).0.byte_buckets ≡ r.byte_buckets)
  unfolding allow_request request_peer peer_bucket
  allow_request_lem = elim (Bool-cases global_ok) [
    | inl granted ↦ rw granted (
      refl,
      refl,
      λ j. get-put j p (allow fl t3 (peer_bucket fl p t2 r)).0 r.peer_buckets,
      refl,
      refl,
    )
    | inr refused ↦ rw refused (refl, refl, λ j. refl, refl, refl)
  ]
