-- ===== src/Cache/Invariant.antt =====
-- The well-formedness of the cache of internal/relay/cache.go, and the operations that keep it.
use p2papp.Prelude.{
  ℕ, zero, suc, ◌<◌, ◌≤◌, ◌≡◌, refl, Option, none, some, List, [], ◌∷◌, inl, inr, arith, Str, All,
  half_word, sub64_small, Time, Option-cases, Bool-cases,
}
use p2papp.Assoc.{get, get-remove}
use p2papp.Cache.{
  Element, Cache, new_cache, element_at, deref, list_remove, expired, remove_element, get_at,
  get_item, drop_at, delete_at, evict_at, evict_oldest, must_evict, evict_loop, drop_existing,
  delete, clear,
}
use p2papp.Cache.Elements.{
  find_key, total, Distinct, element_at-find_key, find_key-element_at, find_key-list_remove,
  element_at-list_remove_self, list_remove-Distinct, list_remove-All, total-list_remove,
  list_back-cases,
}

abbrev pub id_of : Option Element → Option ℕ
id_of none = none
id_of (some e) = some e.id

-- The map holds exactly the list's elements, no key and no pointer occurs twice, the size counter
-- is the sum of the sizes, and the sum is within the capacity.
pub record IsValid (c : Cache) : Type 0 where
  pub agree : (k : Str) → get k c.lookup ≡ id_of (find_key k c.items)
  pub distinct : Distinct c.items
  pub sized : c.current_size ≡ total c.items
  pub within : total c.items ≤ c.capacity
  pub signed : c.capacity < half_word
  pub fresh : All (λ (e : Element). e.id < c.next_id) c.items

pub new_cache-IsValid : (capacity : ℕ) → capacity < half_word → IsValid (new_cache capacity)
unfolding new_cache get find_key total
new_cache-IsValid capacity h = record {
  agree = λ k. refl;
  distinct = tt;
  sized = refl;
  within = omega arith;
  signed = h;
  fresh = tt;
}

-- Following the map's pointer finds what a search of the list finds.
pub pointer_lem :
    (c : Cache) (k : Str) → IsValid c → deref (get k c.lookup) c.items ≡ find_key k c.items
pointer_lem c k v = elim (Option-cases (find_key k c.items)) [
  | inl miss ↦ rw (v.agree k, miss)
  | inr (e, hit) ↦ rw (v.agree k, hit) (element_at-find_key k c.items e v.distinct hit).0
]

pub remove_element-IsValid :
    (c : Cache) (e : Element)
    → IsValid c
    → element_at e.id c.items ≡ some e
    → IsValid (remove_element e c)
unfolding remove_element
remove_element-IsValid c e v h = record {
  agree = λ k. ground (
    arith,
    v.agree k,
    get-remove k e.key c.lookup,
    find_key-list_remove k c.items e v.distinct h,
  );
  distinct = list_remove-Distinct e.id c.items v.distinct;
  sized = omega (
    arith,
    v.sized,
    v.within,
    v.signed,
    total-list_remove e.id c.items e h,
    sub64_small c.current_size e.size,
  );
  within = omega (arith, v.within, total-list_remove e.id c.items e h);
  signed = v.signed;
  fresh = list_remove-All (λ (f : Element). f.id < c.next_id) e.id c.items v.fresh;
}

fresh_of :
    (es : List Element) (e : Element) (i n : ℕ)
    → element_at i es ≡ some e
    → All (λ (f : Element). f.id < n) es
    → e.id < n
unfolding element_at
fresh_of [] e i n h a = cc
fresh_of (f ∷ es) e i n h a = ground (arith, fresh_of es e i n)

-- The counters of hits and misses are in no part of the invariant.
with_counters : (c : Cache) (h m : ℕ) → IsValid c → IsValid (record c { hits = h; misses = m })
with_counters c h m v = record {
  agree = v.agree;
  distinct = v.distinct;
  sized = v.sized;
  within = v.within;
  signed = v.signed;
  fresh = v.fresh;
}

-- The state after a hit, its counters apart.
abbrev pub move_to_front : Element → Time → Cache → Cache
move_to_front e t c = record c { items = record e { accessed_at = t } ∷ list_remove e.id c.items }

move_to_front-IsValid :
    (c : Cache) (e : Element) (t : Time)
    → IsValid c
    → element_at e.id c.items ≡ some e
    → IsValid (move_to_front e t c)
unfolding find_key total
move_to_front-IsValid c e t v h = record {
  agree = λ k. ground (
    arith,
    v.agree k,
    find_key-list_remove k c.items e v.distinct h,
    find_key-element_at c.items e e.id v.distinct h,
  );
  distinct = (
    ground (arith, find_key-list_remove e.key c.items e v.distinct h),
    element_at-list_remove_self e.id c.items v.distinct,
    list_remove-Distinct e.id c.items v.distinct,
  );
  sized = omega (arith, v.sized, total-list_remove e.id c.items e h);
  within = omega (arith, v.within, total-list_remove e.id c.items e h);
  signed = v.signed;
  fresh = (
    fresh_of c.items e e.id c.next_id h v.fresh,
    list_remove-All (λ (f : Element). f.id < c.next_id) e.id c.items v.fresh,
  );
}

pub get_item-IsValid :
    (key : Str) (t1 t2 : Time) (c : Cache) → IsValid c → IsValid (get_item key t1 t2 c).0
unfolding get_item get_at
get_item-IsValid key t1 t2 c v = elim (Option-cases (find_key key c.items)) [
  | inl miss ↦ rw (pointer_lem c key v, miss) (with_counters c _ _ v)
  | inr (e, hit) ↦
      let at = (element_at-find_key key c.items e v.distinct hit).0 in
      elim (Bool-cases (expired t1 e)) [
        | inl old ↦
            rw (pointer_lem c key v, hit, get_at, old)
              (with_counters (remove_element e c) _ _ (remove_element-IsValid c e v at))
        | inr live ↦
            rw (pointer_lem c key v, hit, get_at, live)
              (with_counters (move_to_front e t2 c) _ _ (move_to_front-IsValid c e t2 v at))
      ]
]

pub delete-IsValid : (key : Str) (c : Cache) → IsValid c → IsValid (delete key c).0
unfolding delete delete_at
delete-IsValid key c v = elim (Option-cases (find_key key c.items)) [
  | inl miss ↦ rw (pointer_lem c key v, miss) v
  | inr (e, hit) ↦
      rw (pointer_lem c key v, hit)
        (remove_element-IsValid c e v (element_at-find_key key c.items e v.distinct hit).0)
]

pub clear-IsValid : (c : Cache) → IsValid c → IsValid (clear c)
unfolding clear get find_key total
clear-IsValid c v = record {
  agree = λ k. refl;
  distinct = tt;
  sized = refl;
  within = omega arith;
  signed = v.signed;
  fresh = tt;
}

pub drop_existing-IsValid : (key : Str) (c : Cache) → IsValid c → IsValid (drop_existing key c)
unfolding drop_existing drop_at remove_element
drop_existing-IsValid key c v = elim (Option-cases (find_key key c.items)) [
  | inl miss ↦ rw (pointer_lem c key v, miss) v
  | inr (e, hit) ↦
      let (at, same) = element_at-find_key key c.items e v.distinct hit in
      rw (pointer_lem c key v, hit, ← same) (remove_element-IsValid c e v at)
]

pub evict_oldest-IsValid : (c : Cache) → IsValid c → IsValid (evict_oldest c)
unfolding evict_oldest evict_at
evict_oldest-IsValid c v = elim (list_back-cases c.items v.distinct) [
  | inl (e, empty) ↦ rw empty v
  | inr (b, back, at, rest) ↦ rw back (remove_element-IsValid c b v at)
]

pub evict_loop-IsValid : (fuel size : ℕ) (c : Cache) → IsValid c → IsValid (evict_loop fuel size c)
unfolding evict_loop
evict_loop-IsValid zero size c v = v
evict_loop-IsValid (suc fuel) size c v = elim (Bool-cases (must_evict size c)) [
  | inl more ↦
      rw (more, evict_loop)
        (evict_loop-IsValid fuel size (evict_oldest c) (evict_oldest-IsValid c v))
  | inr done ↦ rw (done, evict_loop) v
]
