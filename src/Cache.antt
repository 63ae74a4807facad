-- ===== src/Cache.antt =====
-- internal/relay/cache.go: the LRU cache. `items` is the `container/list` of elements, front first;
-- a pointer to an element is the element's number, and `lookup` maps a key to such a pointer.
-- `removeElement` goes by the pointer, as in the source. Sizes are int64 words.
pub mod Elements
pub mod Invariant
pub mod Recency
pub mod Put
pub mod Reads
pub mod Cleanup
mod Tests
use mathlib.Core.Logic.{ite}
use native.Mathlib.Decide.{ℕ_discrete}
use p2papp.Prelude.{
  ℕ, zero, suc, ◌%◌, Bool, true, false, ◌&&◌, Option, none, some, List, [], ◌∷◌, ◌++◌, map, Str,
  length, word, add64, sub64, lt64, Time, Duration, pos, ltb_ℤ, sub_time, ltb, if◌then◌else◌,
}
use p2papp.Assoc.{Assoc, get, put, remove}

-- `CacheItem`, with the number of the list element that holds it.
pub record Element : Type 0 where
  pub id : ℕ
  pub key : Str
  pub content : List ℕ
  pub size : ℕ
  pub created_at : Time
  pub accessed_at : Time
  pub ttl : Duration

pub record Cache : Type 0 where
  pub capacity : ℕ
  pub current_size : ℕ
  pub items : List Element
  pub lookup : Assoc ℕ
  pub hits : ℕ
  pub misses : ℕ
  pub next_id : ℕ

-- `NewLRUCache`
unfoldable pub new_cache : ℕ → Cache
new_cache capacity = record {
  capacity = capacity;
  current_size = 0;
  items = [];
  lookup = [];
  hits = 0;
  misses = 0;
  next_id = 0;
}

-- The element behind a pointer.
unfoldable pub element_at : ℕ → List Element → Option Element
element_at i [] = none
element_at i (e ∷ es) = ite (ℕ_discrete e.id i) (some e) (element_at i es)

-- The element of a looked-up pointer. A pointer outside the list counts as none: `IsValid` has no
-- such pointer.
abbrev pub deref : Option ℕ → List Element → Option Element
deref none es = none
deref (some i) es = element_at i es

-- `list.Remove`
unfoldable pub list_remove : ℕ → List Element → List Element
list_remove i [] = []
list_remove i (e ∷ es) = ite (ℕ_discrete e.id i) es (e ∷ list_remove i es)

-- `list.Back`
unfoldable pub list_back : List Element → Option Element
list_back [] = none
list_back (e ∷ []) = some e
list_back (e ∷ f ∷ es) = list_back (f ∷ es)

-- `item.TTL > 0 && now.Sub(item.CreatedAt) > item.TTL`
unfoldable pub expired : Time → Element → Bool
expired now e = ltb_ℤ (pos 0) e.ttl && ltb_ℤ e.ttl (sub_time now e.created_at)

-- `removeElement`
unfoldable pub remove_element : Element → Cache → Cache
remove_element e c = record c {
  items = list_remove e.id c.items;
  lookup = remove e.key c.lookup;
  current_size = sub64 c.current_size e.size;
}

-- `Get` once the map has been read; `t1` and `t2` are the two readings of the clock.
unfoldable pub get_at : Option Element → Time → Time → Cache → Cache × Option (List ℕ)
get_at none t1 t2 c = (record c { misses = add64 c.misses 1 }, none)
get_at (some e) t1 t2 c =
    if expired t1 e then (record (remove_element e c) { misses = add64 c.misses 1 }, none) else (
      record c {
        items = record e { accessed_at = t2 } ∷ list_remove e.id c.items;
        hits = add64 c.hits 1;
      },
      some e.content,
    )

-- `Get`
unfoldable pub get_item : Str → Time → Time → Cache → Cache × Option (List ℕ)
get_item key t1 t2 c = get_at (deref (get key c.lookup) c.items) t1 t2 c

-- `evictOldest`
unfoldable pub evict_at : Option Element → Cache → Cache
evict_at none c = c
evict_at (some e) c = remove_element e c

unfoldable pub evict_oldest : Cache → Cache
evict_oldest c = evict_at (list_back c.items) c

-- The test of the eviction loop: `c.currentSize+size > c.capacity && c.items.Len() > 0`
unfoldable pub must_evict : ℕ → Cache → Bool
must_evict size c = lt64 c.capacity (add64 c.current_size size) && ltb 0 (length c.items)

-- The eviction loop, on fuel.
unfoldable pub evict_loop : ℕ → ℕ → Cache → Cache
evict_loop zero size c = c
evict_loop (suc fuel) size c = elim (must_evict size c) [
  | true ↦ evict_loop fuel size (evict_oldest c)
  | false ↦ c
]

-- `if elem, exists := c.lookup[key]; exists { … }` of `PutWithTTL`
unfoldable pub drop_at : Str → Option Element → Cache → Cache
drop_at key none c = c
drop_at key (some e) c = record c {
  current_size = sub64 c.current_size e.size;
  items = list_remove e.id c.items;
  lookup = remove key c.lookup;
}

unfoldable pub drop_existing : Str → Cache → Cache
drop_existing key c = drop_at key (deref (get key c.lookup) c.items) c

-- The end of `PutWithTTL`: `PushFront` allocates an element.
unfoldable pub push_front : Str → List ℕ → ℕ → Duration → Time → Time → Cache → Cache
push_front key content size ttl t1 t2 c = record c {
  items =
      record {
        id = c.next_id;
        key = key;
        content = content;
        size = size;
        created_at = t1;
        accessed_at = t2;
        ttl = ttl;
      }
      ∷ c.items;
  lookup = put key c.next_id c.lookup;
  current_size = add64 c.current_size size;
  next_id = suc c.next_id;
}

-- `PutWithTTL`; the loop's fuel is the number of items, one to a round.
unfoldable pub put_with_ttl : Str → List ℕ → Duration → Time → Time → Cache → Cache
put_with_ttl key content ttl t1 t2 c =
    let size = length content % word in
    let dropped = drop_existing key c in
    let c' = evict_loop (length dropped.items) size dropped in
    if lt64 c'.capacity size then c' else push_front key content size ttl t1 t2 c'

-- `Put`
unfoldable pub put_item : Str → List ℕ → Time → Time → Cache → Cache
put_item key content t1 t2 c = put_with_ttl key content (pos 0) t1 t2 c

-- `Delete`
unfoldable pub delete_at : Option Element → Cache → Cache × Bool
delete_at none c = (c, false)
delete_at (some e) c = (remove_element e c, true)

unfoldable pub delete : Str → Cache → Cache × Bool
delete key c = delete_at (deref (get key c.lookup) c.items) c

-- `Clear`
unfoldable pub clear : Cache → Cache
clear c = record c { items = []; lookup = []; current_size = 0 }

-- `CleanupExpired`: the scan from the back, then the removals.
unfoldable pub to_remove : Time → List Element → List Element
to_remove now [] = []
to_remove now (e ∷ es) = to_remove now es ++ (if expired now e then e ∷ [] else [])

unfoldable pub remove_all : List Element → Cache → Cache
remove_all [] c = c
remove_all (e ∷ es) c = remove_all es (remove_element e c)

unfoldable pub cleanup_expired : Time → Cache → Cache × ℕ
cleanup_expired now c = let stale = to_remove now c.items in (remove_all stale c, length stale)

-- `Keys`
unfoldable pub keys : Cache → List Str
keys c = map (λ (e : Element). e.key) c.items

-- `Contains`
unfoldable pub contains : Str → Cache → Bool
contains key c = elim (get key c.lookup) [ none ↦ false | some i ↦ true ]
