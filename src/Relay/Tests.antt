-- ===== src/Relay/Tests.antt =====
-- The theorems on the relay node of internal/relay/node.go, at concrete nodes.
use mathlib.Core.Logic.{ite}
use p2papp.Prelude.{
  ◌⊎◌, ℕ, ◌+◌, ◌-◌, ◌*◌, ◌/◌, ◌≡◌, refl, Bool, true, Option, none, some, List, [], ◌∷◌, ◌++◌, Str,
  str_dec, codes, arith, Time, ℤ, pos, negsuc, ltb, leb, take, sub_time,
}
use p2papp.Assoc
use p2papp.Cache.{new_cache, expired}
use p2papp.Cache.Invariant.{IsValid}
use p2papp.Cache.Elements.{find_key, total}
use p2papp.Queue.{Codec, Outcome, done, Queue, peek, stamp}
use p2papp.Limiter.{Float, LimiterConfig, new_rate_limiter}
use p2papp.Router.{Hashring, new_router}
use p2papp.Delivery.{RelayMessage, relay_message}
use p2papp.Relay.{RelayNode, recent, handle_forward, queued_message, handle_announce}
use p2papp.Relay.Requests.{cache_content, fetch}
use p2papp.Relay.Forwarding.{
  waiting_in, WasReached, NotReached, stamped_for, handle_forward_lem,
  handle_announce-handle_forward,
}
use p2papp.Relay.Fetching.{fetch-cache_content}

seconds_of : ℤ → ℕ
seconds_of (pos n) = n / 1000000000
seconds_of (negsuc n) = 0

abbrev whole : Float
whole = record {
  F = ℕ;
  add = λ a b. a + b;
  sub = λ a b. a - b;
  mul = λ a b. a * b;
  div = λ a b. a / b;
  lt = ltb;
  le = leb;
  of_int = λ n. n;
  to_int = λ n. n;
  seconds = seconds_of;
  to_duration = λ n. pos n;
}

first : List Str → Option Str
first [] = none
first (i ∷ l) = some i

abbrev ring : Hashring
ring = record {
  Ring = List Str;
  new = λ l. l;
  get_node = λ l k. first l;
  get_nodes = λ l k n. some (take n l);
}

abbrev codec : Codec
codec = record {
  encode = λ ms. some [];
  decode = λ b. none;
  peer_string = λ p. p;
  peer_decode = λ s. some s;
}

abbrev io : Str → Outcome
io name = done

abbrev raw_text : List ℕ → List ℕ
raw_text b = b

abbrev queue : Queue
queue = record { disk = []; pending = []; ttl = 10; max_retry = 10 }

abbrev config : LimiterConfig ℕ
config = record {
  max_requests_per_second = 2;
  max_burst_size = 5;
  max_bytes_per_second = 100;
  max_connections_per_peer = 1;
}

-- A node that saw the peer "q" at time 1 and the peer "p" an hour and two minutes later.
abbrev node : RelayNode ℕ (List Str)
node = record {
  host_id = codes "h";
  config = record {
    relay_mode = true;
    cache_size = 100;
    cache_ttl = pos 50;
    limiter_config = config;
  };
  router = new_router ring 100;
  cache = new_cache 100;
  limiter = new_rate_limiter whole config 0;
  queue = some queue;
  online_peers = (codes "q", 1) ∷ (codes "p", 3720000000000) ∷ [];
}

abbrev clock : ℕ → Time
clock n = 3720000000001 + n

abbrev message : RelayMessage
message = record {
  id = codes "7";
  kind = codes "forward";
  from = codes "p";
  to = codes "q";
  key = [];
  content = 1 ∷ 2 ∷ [];
  timestamp = 5;
}

abbrev arrives : RelayMessage → Bool
arrives m = true

abbrev network : ℕ → RelayMessage → Bool
network k m = true

handle_forward_lem_example :
    let after =
      handle_forward whole ring codec raw_text io arrives (codes "9") clock message node in
    (WasReached (Assoc.get (codes "q") node.online_peers) (clock 0) true
      × (after.0 ≡ node)
      × (after.1 ≡ message ∷ []))
    ⊎ (NotReached (Assoc.get (codes "q") node.online_peers) (clock 0) true
        × (after.0 ≡ record node { queue = after.0.queue })
        × (after.1 ≡ [])
        × ((p : Str)
            → waiting_in p after.0.queue
              ≡ waiting_in p node.queue
                ++ ite
                    (str_dec (codes "q") p)
                    (stamped_for
                      (codes "9")
                      (clock 1)
                      (queued_message whole ring codec raw_text io message)
                      node.queue)
                    []))
handle_forward_lem_example =
    handle_forward_lem whole ring codec raw_text io arrives (codes "9") clock message node

handle_announce-handle_forward_example :
    ((handle_announce whole ring codec raw_text io network
        (clock 9)
        (codes "q")
        (handle_forward whole ring codec raw_text io arrives (codes "9") clock message node).0).1
      ≡ relay_message
          (stamp (codes "9") (clock 1) 10 (queued_message whole ring codec raw_text io message))
        ∷ [])
    × (waiting_in
          (codes "q")
          (handle_announce whole ring codec raw_text io network
            (clock 9)
            (codes "q")
            (handle_forward whole ring codec raw_text io arrives
              (codes "9")
              clock
              message
              node).0).0.queue
        ≡ [])
unfolding peek recent sub_time Assoc.get str_dec
handle_announce-handle_forward_example =
    handle_announce-handle_forward whole ring codec raw_text io network arrives (codes "9") clock
      (clock 9) message node queue refl refl refl (λ x. refl)

cache-IsValid : IsValid (new_cache 100)
unfolding new_cache Assoc.get find_key total
cache-IsValid = record {
  agree = λ k. refl;
  distinct = tt;
  sized = refl;
  within = omega arith;
  signed = omega arith;
  fresh = tt;
}

fetch-cache_content_example :
    (fetch whole ring codec raw_text io
      (λ p. none)
      (codes "k")
      (λ n. 20)
      (cache_content whole ring codec raw_text io (codes "k") (1 ∷ 2 ∷ []) (λ n. 10) node).0).1
    ≡ some (1 ∷ 2 ∷ [])
unfolding new_cache expired sub_time
fetch-cache_content_example =
    fetch-cache_content whole ring codec raw_text io (λ p. none) (codes "k") (1 ∷ 2 ∷ []) (λ n. 10)
      (λ n. 20) node cache-IsValid (omega arith) (omega arith) refl
