-- ===== src/Relay/Requests.antt =====
-- What a relay node of internal/relay/node.go asks of others: `Forward`, `Cache` and `Fetch`.
use p2papp.Prelude.{
  ℕ, Bool, false, Option, none, some, List, [], ◌∷◌, Str, str_dec, codes, holds, ltb, length, Time,
  if◌then◌else◌,
}
use p2papp.Cache
use p2papp.Cache.{Cache}
use p2papp.Queue.{Codec, Outcome}
use p2papp.Limiter.{Float}
use p2papp.Router
use p2papp.Router.{Hashring, Router, NodeInfo}
use p2papp.Delivery.{RelayMessage}
use p2papp.Relay.{RelayNode, Sent, Outgoing, sent, no_relay, bad_id, not_sent, bare_message}

module _ (fl : Float) (h : Hashring) (codec : Codec) (raw_text : List ℕ → List ℕ)
    (io : Str → Outcome) where
  open fl use {F}
  open h use {Ring}

  -- `Forward`, from the node that the router gives and the peer id of its name.
  unfoldable pub forward_to : (Sent → Bool) → RelayMessage → Option Str → Outgoing
  forward_to arrives m none = bad_id
  forward_to arrives m (some relay) = if arrives (relay, m) then sent else not_sent

  unfoldable pub forward_by : (Sent → Bool) → RelayMessage → Option NodeInfo → Outgoing
  forward_by arrives m none = no_relay
  forward_by arrives m (some n) = forward_to arrives m (codec.peer_decode n.id)

  unfoldable pub forward : (Sent → Bool) → Str → Str → List ℕ → RelayNode F Ring → Outgoing
  forward arrives fresh_id to content r =
      forward_by arrives
        (record (bare_message (codes "forward") [] content) {
          id = fresh_id;
          from = r.host_id;
          to = to;
        })
        (Router.get_node h (codec.peer_string to) r.router)

  -- `Cache`: the messages to the other responsible nodes, and the operation.
  abbrev pub send_to : Option Str → RelayMessage → List Sent → List Sent
  send_to none m rest = rest
  send_to (some relay) m rest = (relay, m) ∷ rest

  unfoldable pub replicas_of : Str → RelayMessage → List NodeInfo → List Sent
  replicas_of self m [] = []
  replicas_of self m (n ∷ ns) =
      let rest = replicas_of self m ns in
      if holds (str_dec n.id self) then rest else send_to (codec.peer_decode n.id) m rest

  unfoldable pub cache_content :
      Str → List ℕ → (ℕ → Time) → RelayNode F Ring → RelayNode F Ring × List Sent
  cache_content key content clock r = (
    record r {
      cache = Cache.put_with_ttl key content r.config.cache_ttl (clock 0) (clock 1) r.cache;
    },
    replicas_of (codec.peer_string r.host_id) (bare_message (codes "cache") key content)
        (Router.get_nodes h key 3 r.router),
  )

  -- `Fetch`: the first node that answers with content, and the operation. `answers` is what a relay
  -- responds: none on an error.
  abbrev pub usable : Option (List ℕ) → Bool
  usable none = false
  usable (some content) = ltb 0 (length content)

  abbrev pub ask : (Str → Option (List ℕ)) → Option Str → Option (List ℕ)
  ask answers none = none
  ask answers (some relay) = answers relay

  unfoldable pub fetch_loop : (Str → Option (List ℕ)) → List NodeInfo → Option (List ℕ)
  fetch_loop answers [] = none
  fetch_loop answers (n ∷ ns) =
      let rest = fetch_loop answers ns in
      let reply = ask answers (codec.peer_decode n.id) in if usable reply then reply else rest

  unfoldable pub keep_fetched :
      Str → Option (List ℕ) → (ℕ → Time) → RelayNode F Ring → RelayNode F Ring
  keep_fetched key none clock r = r
  keep_fetched key (some content) clock r = record r {
    cache = Cache.put_with_ttl key content r.config.cache_ttl (clock 2) (clock 3) r.cache;
  }

  unfoldable pub fetch_remote :
      (Str → Option (List ℕ))
      → Str
      → (ℕ → Time)
      → Option (List ℕ)
      → RelayNode F Ring
      → RelayNode F Ring × Option (List ℕ)
  fetch_remote answers key clock (some content) r = (r, some content)
  fetch_remote answers key clock none r =
      let found = fetch_loop answers (Router.get_nodes h key 3 r.router) in
      (keep_fetched key found clock r, found)

  unfoldable pub fetch :
      (Str → Option (List ℕ))
      → Str
      → (ℕ → Time)
      → RelayNode F Ring
      → RelayNode F Ring × Option (List ℕ)
  fetch answers key clock r =
      let (c, found) = Cache.get_item key (clock 0) (clock 1) r.cache in
      fetch_remote answers key clock found (record r { cache = c })
