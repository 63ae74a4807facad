-- ===== src/Relay/Ticks.antt =====
-- The ticks of the background loops of internal/relay/node.go, cleanup and delivery.
use p2papp.Prelude.{
  ℕ, Bool, false, not, Option, none, some, List, [], ◌∷◌, map, ◌++◌, Str, Time, pos, ltb_ℤ,
  sub_time, hour, if◌then◌else◌, ◌*◌,
}
use p2papp.Assoc
use p2papp.Assoc.{Assoc}
use p2papp.Cache
use p2papp.Cache.{Cache}
use p2papp.Queue
use p2papp.Queue.{Codec, Outcome, Queue, Message, json, bytes}
use p2papp.Limiter
use p2papp.Limiter.{Float, RateLimiter, LimiterConfig}
use p2papp.Router.{Hashring}
use p2papp.Delivery.{RelayMessage, relay_message, tick_delivery}
use p2papp.Relay.{RelayNode, five_minutes}

-- `!online || time.Since(lastSeen) > 5*time.Minute`, negated.
unfoldable pub reachable : Option Time → Time → Bool
reachable none now = false
reachable (some last_seen) now = not (ltb_ℤ (pos five_minutes) (sub_time now last_seen))

-- The stale peers of the cleanup, a range over the map.
unfoldable pub drop_stale : Time → Assoc Time → Assoc Time → Assoc Time
drop_stale now [] online = online
drop_stale now ((p, last_seen) ∷ rest) online =
    drop_stale now rest
      (if ltb_ℤ (pos hour) (sub_time now last_seen) then Assoc.remove p online else online)

module _ (fl : Float) (h : Hashring) (codec : Codec) (raw_text : List ℕ → List ℕ)
    (io : Str → Outcome) where
  open fl use {F}
  open h use {Ring}

  -- A tick of `cleanupLoop`.
  abbrev pub cleaned_queue : Time → Option Queue → Option Queue
  cleaned_queue now none = none
  cleaned_queue now (some q) = some (Queue.cleanup codec io now q).0

  unfoldable pub cleanup_tick : (ℕ → Time) → RelayNode F Ring → RelayNode F Ring
  cleanup_tick clock r = record r {
    cache = (Cache.cleanup_expired (clock 0) r.cache).0;
    limiter = Limiter.cleanup fl (clock 1) (pos (24 * hour)) r.limiter;
    queue = cleaned_queue (clock 2) r.queue;
    online_peers = drop_stale (clock 3) r.online_peers r.online_peers;
  }

  -- A tick of `deliveryLoop`, its loop over the peers; `network` and `clock` answer for each peer.
  unfoldable pub deliver_to :
      (Str → ℕ → RelayMessage → Bool)
      → (Str → ℕ → Time)
      → Assoc Time
      → (Str → Time)
      → List Str
      → Queue
      → Queue × List RelayMessage
  deliver_to network clock online now [] q = (q, [])
  deliver_to network clock online now (p ∷ ps) q =
      if reachable (Assoc.get p online) (now p)
      then (let s = tick_delivery codec io p (network p) (clock p) q in
          let (q', ms) = deliver_to network clock online now ps s.queue in
          (q', map relay_message s.sent ++ ms))
      else deliver_to network clock online now ps q

  unfoldable pub delivered_queue :
      (Str → ℕ → RelayMessage → Bool)
      → (Str → ℕ → Time)
      → Assoc Time
      → (Str → Time)
      → Option Queue
      → Option Queue × List RelayMessage
  delivered_queue network clock online now none = (none, [])
  delivered_queue network clock online now (some q) =
      let (q', ms) = deliver_to network clock online now (Queue.peers_with_pending q) q in
      (some q', ms)

  unfoldable pub delivery_tick :
      (Str → ℕ → RelayMessage → Bool)
      → (Str → ℕ → Time)
      → (Str → Time)
      → RelayNode F Ring
      → RelayNode F Ring × List RelayMessage
  delivery_tick network clock now r =
      let (q, ms) = delivered_queue network clock r.online_peers now r.queue in
      (record r { queue = q }, ms)
