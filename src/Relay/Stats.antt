-- ===== src/Relay/Stats.antt =====
-- The statistics of internal/relay: `Stats` of cache.go, queue.go and node.go. float64 is a
-- parameter: its zero, and the quotient of two whole numbers.
use p2papp.Prelude.{
  ℕ, ◌≡◌, refl, Bool, true, false, ◌||◌, Option, none, some, List, [], ◌∷◌, Str, Time, ◌==◌, length,
  ltb, lt64, add64, inl, inr, if◌then◌else◌, Bool-cases,
}
use p2papp.Assoc.{Assoc}
use p2papp.Cache
use p2papp.Cache.{Cache}
use p2papp.Queue.{Message, Queue, total_of}
use p2papp.Relay.{RelayNode}

-- The loop of the queue's statistics: the attempts, and the oldest time, 0 where there is none yet.
unfoldable pub older : Time → Time → Time
older oldest t = if oldest == 0 || ltb t oldest then t else oldest

unfoldable pub count_messages : List Message → ℕ × Time → ℕ × Time
count_messages [] acc = acc
count_messages (m ∷ ms) (attempts, oldest) =
    count_messages ms (add64 attempts m.attempts, older oldest m.created_at)

unfoldable pub count_peers : Assoc (List Message) → ℕ × Time → ℕ × Time
count_peers [] acc = acc
count_peers ((p, ms) ∷ rest) acc = count_peers rest (count_messages ms acc)

module _ (F : Type 0) (zero_float : F) (ratio : ℕ → ℕ → F) where
  -- `CacheStats` and `Stats` of the cache.
  pub record CacheStats : Type 0 where
    pub hits : ℕ
    pub misses : ℕ
    pub hit_rate : F
    pub current_size : ℕ
    pub capacity : ℕ
    pub item_count : ℕ

  unfoldable pub cache_stats : Cache → CacheStats
  cache_stats c = record {
    hits = c.hits;
    misses = c.misses;
    hit_rate =
        if lt64 0 (add64 c.hits c.misses) then ratio c.hits (add64 c.hits c.misses) else zero_float;
    current_size = c.current_size;
    capacity = c.capacity;
    item_count = length c.items;
  }

  -- `QueueStats` and `Stats` of the queue.
  pub record QueueStats : Type 0 where
    pub total_messages : ℕ
    pub total_peers : ℕ
    pub oldest_message : Time
    pub average_attempts : F

  unfoldable pub queue_stats : Queue → QueueStats
  queue_stats q =
      let (attempts, oldest) = count_peers q.pending (0, 0) in
      record {
        total_messages = total_of q.pending;
        total_peers = length q.pending;
        oldest_message = oldest;
        average_attempts =
            if ltb 0 (total_of q.pending) then ratio attempts (total_of q.pending) else zero_float;
      }

  -- `RelayStats` and `Stats` of the node; the queue's are none where it has no queue, for the zero
  -- value.
  pub record RelayStats : Type 0 where
    pub of_cache : CacheStats
    pub of_queue : Option QueueStats
    pub online : ℕ
    pub relay_nodes : ℕ

  abbrev pub stats_of_queue : Option Queue → Option QueueStats
  stats_of_queue none = none
  stats_of_queue (some q) = some (queue_stats q)

  unfoldable pub relay_stats : {G Ring : Type 0} → RelayNode G Ring → RelayStats
  relay_stats r = record {
    of_cache = cache_stats r.cache;
    of_queue = stats_of_queue r.queue;
    online = length r.online_peers;
    relay_nodes = length r.router.nodes;
  }

-- `Get` counts: a hit where it returns content, else a miss.
abbrev is_some : Option (List ℕ) → Bool
is_some none = false
is_some (some b) = true

counts-get_at :
    (o : Option Cache.Element) (t1 t2 : Time) (c : Cache)
    → let (c', found) = Cache.get_at o t1 t2 c in
      (c'.hits ≡ (if is_some found then add64 c.hits 1 else c.hits))
      × (c'.misses ≡ (if is_some found then c.misses else add64 c.misses 1))
unfolding Cache.get_at Cache.remove_element
counts-get_at none t1 t2 c = (refl, refl)
counts-get_at (some e) t1 t2 c = elim (Bool-cases (Cache.expired t1 e)) [
  | inl old ↦ rw old (refl, refl)
  | inr young ↦ rw young (refl, refl)
]

-- What `Stats` of the cache says after a `Get`, the counts of which are exact up to their wrap-around.
pub cache_stats-get_item :
    (F : Type 0) (zero_float : F) (ratio : ℕ → ℕ → F) (key : Str) (t1 t2 : Time) (c : Cache)
    → let (c', found) = Cache.get_item key t1 t2 c in
      let s = cache_stats F zero_float ratio c' in
      (s.hits ≡ (if is_some found then add64 c.hits 1 else c.hits))
      × (s.misses ≡ (if is_some found then c.misses else add64 c.misses 1))
      × (s.item_count ≡ length c'.items)
unfolding cache_stats Cache.get_item
cache_stats-get_item F zero_float ratio key t1 t2 c =
    let l = counts-get_at _ t1 t2 c in (l.0, l.1, refl)
