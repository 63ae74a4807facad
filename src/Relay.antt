-- ===== src/Relay.antt =====
-- internal/relay/node.go: the relay node, which composes the router, the cache, the limiter and the
-- queue. The network is an argument: whether a message that is sent arrives. `clock n` is the n-th
-- reading of the clock in an operation. What an operation sends is part of its result.
pub mod Requests
pub mod Ticks
pub mod Stats
pub mod Forwarding
pub mod Fetching
mod Tests
use p2papp.Prelude.{
  ℕ, Bool, true, false, ◌&&◌, not, Option, none, some, List, [], ◌∷◌, map, ◌++◌, Str, str_dec,
  codes, holds, ltb, length, Time, Duration, pos, ltb_ℤ, sub_time, hour, minute, if◌then◌else◌, ◌*◌,
}
use p2papp.Assoc
use p2papp.Assoc.{Assoc}
use p2papp.Cache
use p2papp.Cache.{Cache}
use p2papp.Queue
use p2papp.Queue.{Codec, Outcome, Queue, Message, json, bytes}
use p2papp.Limiter
use p2papp.Limiter.{Float, RateLimiter, LimiterConfig}
use p2papp.Router
use p2papp.Router.{Hashring, Router, NodeInfo}
use p2papp.Delivery.{RelayMessage, relay_message, announce_delivery, tick_delivery}

-- `RelayConfig`
pub record RelayConfig (F : Type 0) : Type 0 where
  pub relay_mode : Bool
  pub cache_size : ℕ
  pub cache_ttl : Duration
  pub limiter_config : LimiterConfig F

-- `RelayNode`; the queue is none where no data directory is set.
pub record RelayNode (F Ring : Type 0) : Type 0 where
  pub host_id : Str
  pub config : RelayConfig F
  pub router : Router Ring
  pub cache : Cache
  pub limiter : RateLimiter F
  pub queue : Option Queue
  pub online_peers : Assoc Time

-- A message to a peer: the id of the peer, and the message.
abbrev pub Sent : Type 0
Sent = Str × RelayMessage

-- How an operation of the node ends.
pub data Outgoing : Type 0 where
  sent no_relay bad_id not_sent : Outgoing

abbrev pub five_minutes : ℕ
five_minutes = 5 * minute

-- `online && time.Since(lastSeen) < 5*time.Minute`
unfoldable pub recent : Option Time → Time → Bool
recent none now = false
recent (some last_seen) now = ltb_ℤ (sub_time now last_seen) (pos five_minutes)

-- A message of the node's own, without the fields that it does not set.
unfoldable pub bare_message : Str → Str → List ℕ → RelayMessage
bare_message kind key content = record {
  id = [];
  kind = kind;
  from = [];
  to = [];
  key = key;
  content = content;
  timestamp = 0;
}

-- A data directory: whether the queue's can be made in it, its listing, and its files.
pub record DataDir : Type 0 where
  pub has_dir : Bool
  pub listing : Option (List Queue.Entry)
  pub files : Queue.Disk

-- `json.Marshal` of a `json.RawMessage`, the text that stands for queued content.
module _ (fl : Float) (h : Hashring) (codec : Codec) (raw_text : List ℕ → List ℕ)
    (io : Str → Outcome) where
  open fl use {F}
  open h use {Ring}

  -- `NewRelayNode`, with the queue of its data directory, if that is set; none is the error that the
  -- queue cannot be made.
  abbrev pub made_node : Str → RelayConfig F → Option Queue → Time → RelayNode F Ring
  made_node host_id config queue now = record {
    host_id = host_id;
    config = config;
    router = Router.new_router h 100;
    cache = Cache.new_cache config.cache_size;
    limiter = Limiter.new_rate_limiter fl config.limiter_config now;
    queue = queue;
    online_peers = [];
  }

  abbrev pub with_queue : Str → RelayConfig F → Option Queue → Time → Option (RelayNode F Ring)
  with_queue host_id config none now = none
  with_queue host_id config (some q) now = some (made_node host_id config (some q) now)

  unfoldable pub new_relay_node :
      Str → RelayConfig F → Option DataDir → Time → Option (RelayNode F Ring)
  new_relay_node host_id config none now = some (made_node host_id config none now)
  new_relay_node host_id config (some dir) now =
      with_queue host_id config (Queue.new_queue codec dir.has_dir dir.listing dir.files) now

  -- `Start`, in relay mode with the host's first address.
  unfoldable pub start : Str → RelayNode F Ring → RelayNode F Ring
  start address r =
      if r.config.relay_mode
      then record r {
        router =
            Router.add_node h
              (record {
                id = codec.peer_string r.host_id;
                address = address;
                weight = 1;
                healthy = true;
                load = 0;
                capacity = r.config.cache_size;
              })
              r.router;
      }
      else r

  -- `AddRelayNode`, `RemoveRelayNode`
  unfoldable pub add_relay_node : NodeInfo → RelayNode F Ring → RelayNode F Ring
  add_relay_node n r = record r { router = Router.add_node h n r.router }

  unfoldable pub remove_relay_node : Str → RelayNode F Ring → RelayNode F Ring
  remove_relay_node i r = record r { router = Router.remove_node h i r.router }

  -- `handleForward`: the message as it is queued, the queueing, and the handler.
  unfoldable pub queued_message : RelayMessage → Message
  queued_message m = record {
    id = m.id;
    from = m.from;
    to = m.to;
    kind = codes "forward";
    content = json (raw_text m.content);
    created_at = 0;
    expires_at = 0;
    attempts = 0;
    last_attempt = 0;
  }

  unfoldable pub enqueue_forward : Str → Time → RelayMessage → Option Queue → Option Queue
  enqueue_forward fresh_id now m none = none
  enqueue_forward fresh_id now m (some q) =
      some (Queue.enqueue codec io fresh_id now (queued_message m) q).0

  unfoldable pub handle_forward :
      (RelayMessage → Bool)
      → Str
      → (ℕ → Time)
      → RelayMessage
      → RelayNode F Ring
      → RelayNode F Ring × List RelayMessage
  handle_forward arrives fresh_id clock m r =
      if recent (Assoc.get m.to r.online_peers) (clock 0) && arrives m
      then (r, m ∷ [])
      else (record r { queue = enqueue_forward fresh_id (clock 1) m r.queue }, [])

  -- `handleCache`
  unfoldable pub handle_cache : (ℕ → Time) → RelayMessage → RelayNode F Ring → RelayNode F Ring
  handle_cache clock m r =
      if ltb 0 (length m.key) && ltb 0 (length m.content)
      then record r {
        cache = Cache.put_with_ttl m.key m.content r.config.cache_ttl (clock 0) (clock 1) r.cache;
      }
      else r

  -- `handleAnnounce`
  unfoldable pub announce_queue :
      (ℕ → RelayMessage → Bool) → Str → Option Queue → Option Queue × List RelayMessage
  announce_queue network p none = (none, [])
  announce_queue network p (some q) =
      let s = announce_delivery codec io p network q in (some s.queue, map relay_message s.sent)

  unfoldable pub handle_announce :
      (ℕ → RelayMessage → Bool)
      → Time
      → Str
      → RelayNode F Ring
      → RelayNode F Ring × List RelayMessage
  handle_announce network now p r =
      let (q, ms) = announce_queue network p r.queue in
      (record r { queue = q; online_peers = Assoc.put p now r.online_peers }, ms)

  -- `handleRelayStream`: the switch, the message that was decoded, and the handler.
  unfoldable pub dispatch :
      (ℕ → RelayMessage → Bool)
      → Str
      → (ℕ → Time)
      → Str
      → RelayMessage
      → RelayNode F Ring
      → RelayNode F Ring × List RelayMessage
  dispatch network fresh_id clock p m r =
      if holds (str_dec m.kind (codes "forward"))
      then handle_forward (network 0) fresh_id clock m r
      else if holds (str_dec m.kind (codes "cache"))
      then (handle_cache clock m r, [])
      else if holds (str_dec m.kind (codes "announce"))
      then handle_announce network (clock 0) p r
      else (r, [])

  unfoldable pub receive :
      (ℕ → RelayMessage → Bool)
      → Str
      → (ℕ → Time)
      → Time
      → Time
      → Str
      → Option RelayMessage
      → RelayNode F Ring
      → RelayNode F Ring × List RelayMessage
  receive network fresh_id clock stamped seen p none r = (r, [])
  receive network fresh_id clock stamped seen p (some m) r =
      dispatch network fresh_id clock p (record m { from = p; timestamp = stamped })
        (record r { online_peers = Assoc.put p seen r.online_peers })

  unfoldable pub limited : Str → (ℕ → Time) → RelayNode F Ring → RelayNode F Ring × Bool
  limited p clock r =
      let (l, ok) =
        Limiter.allow_request fl (codec.peer_string p) (clock 0) (clock 1) (clock 2) r.limiter in
      (record r { limiter = l }, ok)

  -- `limits` are the readings for the limiter, `clock` those of the handler.
  unfoldable pub handle_relay_stream :
      (ℕ → RelayMessage → Bool)
      → Str
      → (ℕ → Time)
      → (ℕ → Time)
      → Time
      → Time
      → Str
      → Option RelayMessage
      → RelayNode F Ring
      → RelayNode F Ring × List RelayMessage
  handle_relay_stream network fresh_id limits clock stamped seen p decoded r =
      let (r', ok) = limited p limits r in
      if ok then receive network fresh_id clock stamped seen p decoded r' else (r', [])

  -- `handleGetStream`: the response that it encodes, if any.
  abbrev pub response : Str → Option (List ℕ) → Option RelayMessage
  response key none = none
  response key (some content) = some (bare_message (codes "response") key content)

  unfoldable pub answer_get :
      (ℕ → Time) → Option RelayMessage → RelayNode F Ring → RelayNode F Ring × Option RelayMessage
  answer_get clock none r = (r, none)
  answer_get clock (some m) r =
      let (c, found) = Cache.get_item m.key (clock 0) (clock 1) r.cache in
      (record r { cache = c }, response m.key found)

  unfoldable pub handle_get_stream :
      (ℕ → Time)
      → (ℕ → Time)
      → Str
      → Option RelayMessage
      → RelayNode F Ring
      → RelayNode F Ring × Option RelayMessage
  handle_get_stream limits clock p decoded r =
      let (r', ok) = limited p limits r in if ok then answer_get clock decoded r' else (r', none)
