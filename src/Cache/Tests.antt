-- ===== src/Cache/Tests.antt =====
-- Runs of the cache of internal/relay/cache.go, and its theorems at concrete caches.
use p2papp.Prelude.{
  ℕ, ◌≡◌, ◌≢◌, refl, none, some, [], ◌∷◌, arith, str_dec, codes, pos, add64, sub64, lt64, sub_time,
  length, if◌then◌else◌, ◌-◌, leb, List,
}
use p2papp.Assoc.{get, put, remove}
use p2papp.Cache.{
  Element, Cache, new_cache, element_at, list_remove, list_back, expired, remove_element, get_at,
  get_item, evict_at, evict_oldest, must_evict, evict_loop, drop_at, drop_existing, push_front,
  put_with_ttl, put_item, delete_at, delete, to_remove, remove_all, cleanup_expired, keys, contains,
}
use p2papp.Cache.Elements.{find_key, total}
use p2papp.Cache.Invariant.{IsValid}
use p2papp.Cache.Recency.{without, fitting}
use p2papp.Cache.Put
use p2papp.Cache.Put.{new_element}
use p2papp.Cache.Reads
use p2papp.Cache.Reads.{live_content, touched}

program : Unit {0}
unfolding new_cache element_at list_remove list_back expired remove_element get_at get_item evict_at
    evict_oldest must_evict evict_loop drop_at drop_existing push_front put_with_ttl put_item
    delete_at delete to_remove remove_all cleanup_expired keys contains get put remove str_dec add64
    sub64 lt64 sub_time
program = tt

-- A cache of ten bytes that holds one element of three bytes, which lives for five nanoseconds.
abbrev element : Element
element = new_element 0 (codes "a") (1 ∷ 2 ∷ 3 ∷ []) (pos 5) 100 100

abbrev one : Cache
one = record {
  capacity = 10;
  current_size = 3;
  items = element ∷ [];
  lookup = (codes "a", 0) ∷ [];
  hits = 0;
  misses = 0;
  next_id = 1;
}

one_run : put_with_ttl (codes "a") (1 ∷ 2 ∷ 3 ∷ []) (pos 5) 100 100 (new_cache 10) ≡ one
unfolding program
one_run = refl

eviction_order :
    keys (
      put_item
        (codes "c")
        (1 ∷ 2 ∷ 3 ∷ 4 ∷ 5 ∷ [])
        103
        103
        (get_item (codes "a") 102 102 (put_item (codes "b") (1 ∷ 2 ∷ 3 ∷ 4 ∷ []) 101 101 one)).0)
    ≡ codes "c" ∷ codes "a" ∷ []
unfolding program
eviction_order = refl

-- Content that does not fit takes everything else with it.
oversize_empties :
    keys (put_item (codes "b") (0 ∷ 1 ∷ 2 ∷ 3 ∷ 4 ∷ 5 ∷ 6 ∷ 7 ∷ 8 ∷ 9 ∷ 10 ∷ []) 101 101 one) ≡ []
unfolding program
oversize_empties = refl

one-IsValid : IsValid one
unfolding get find_key element_at total
one-IsValid = record {
  agree = λ k. ground arith;
  distinct = (refl, refl, tt);
  sized = refl;
  within = omega arith;
  signed = omega arith;
  fresh = (omega arith, tt);
}

abbrev content : List ℕ
content = 7 ∷ 8 ∷ []

put_with_ttl-items_example : (put_with_ttl (codes "b") content (pos 0) 101 101 one).items ≡ (
    if leb (length content) 10
    then new_element 1 (codes "b") content (pos 0) 101 101
      ∷ fitting (10 - length content) (without (codes "b") one.items)
    else [])
put_with_ttl-items_example =
    Put.put_with_ttl-items (codes "b") content (pos 0) 101 101 one one-IsValid (omega arith)

put_with_ttl-IsValid_example : IsValid (put_with_ttl (codes "b") content (pos 0) 101 101 one)
put_with_ttl-IsValid_example =
    Put.put_with_ttl-IsValid (codes "b") content (pos 0) 101 101 one one-IsValid (omega arith)

get_item_lem_example :
    ((get_item (codes "a") 102 102 one).1 ≡ live_content 102 (find_key (codes "a") one.items))
    × ((get_item (codes "a") 102 102 one).0.items
        ≡ touched (codes "a") 102 102 one.items (find_key (codes "a") one.items))
get_item_lem_example = Reads.get_item_lem (codes "a") 102 102 one one-IsValid

get_item-put_with_ttl_example :
    (get_item (codes "b") 102 102 (put_with_ttl (codes "b") content (pos 9) 101 101 one)).1 ≡ (
      if expired 102 (new_element 1 (codes "b") content (pos 9) 101 101)
      then none
      else some content)
get_item-put_with_ttl_example =
    Reads.get_item-put_with_ttl (codes "b") content (pos 9) 101 101 102 102 one one-IsValid
      (omega arith) (omega arith)

a_ne_b : codes "b" ≢ codes "a"
a_ne_b e = ground arith
