-- ===== src/Relay/Fetching.antt =====
-- Content in the relay network: `Cache` and `Fetch` of internal/relay/node.go.
use p2papp.Prelude.{
  ℕ, ◌+◌, ◌<◌, ◌≤◌, ◌≡◌, ap, ◌∙◌, Bool, false, Option, some, List, Str, length, half_word, Time,
  if◌then◌else◌,
}
use p2papp.Queue.{Codec, Outcome}
use p2papp.Limiter.{Float}
use p2papp.Router.{Hashring}
use p2papp.Cache.{expired, get_item, put_with_ttl}
use p2papp.Cache.Invariant.{IsValid}
use p2papp.Cache.Put.{new_element}
use p2papp.Cache.Reads.{get_item-put_with_ttl}
use p2papp.Relay.{RelayNode}
use p2papp.Relay.Requests.{cache_content, fetch, fetch_remote}

-- Content that a node with a well-formed cache caches is what it fetches next, under the same key,
-- while its time to live has not passed, whatever the other relays answer, where the content fits
-- the cache and no size wraps.
pub fetch-cache_content :
    (fl : Float) (h : Hashring) (codec : Codec) (raw_text : List ℕ → List ℕ) (io : Str → Outcome)
    (answers : Str → Option (List ℕ)) (key : Str) (content : List ℕ) (clock later : ℕ → Time)
    (r : RelayNode fl.F h.Ring)
    → IsValid r.cache
    → r.cache.capacity + length content < half_word
    → length content ≤ r.cache.capacity
    → expired
        (later 0)
        (new_element r.cache.next_id key content r.config.cache_ttl (clock 0) (clock 1))
      ≡ false
    → (fetch fl h codec raw_text io answers key later
        (cache_content fl h codec raw_text io key content clock r).0).1
      ≡ some content
unfolding fetch fetch_remote cache_content
fetch-cache_content fl h codec raw_text io answers key content clock later r v small fits young =
    let cache = put_with_ttl key content r.config.cache_ttl (clock 0) (clock 1) r.cache in
    let cached = (cache_content fl h codec raw_text io key content clock r).0 in
    ap
      (λ o.
        (fetch_remote fl h codec raw_text io answers key later o
          (record cached { cache = (get_item key (later 0) (later 1) cache).0 })).1)
      (get_item-put_with_ttl key content r.config.cache_ttl (clock 0) (clock 1) (later 0) (later 1)
          r.cache v small fits
        ∙ ap (λ (b : Bool). if b then Option.none else some content) young)
