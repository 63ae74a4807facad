-- ===== src/Cache/Reads.antt =====
-- What `Get`, `Delete` and `Contains` of internal/relay/cache.go return and leave, by the recency
-- list, and what is read after a `Put`.
use p2papp.Prelude.{
  ℕ, ◌+◌, ◌-◌, ◌<◌, ◌≤◌, ◌≡◌, ◌≢◌, refl, sym, Option, none, some, List, ◌∷◌, inl, inr, ◌⊎◌, arith,
  Str, length, half_word, Time, Duration, Option-cases, if◌then◌else◌,
}
use p2papp.Cache.{
  Element, Cache, expired, remove_element, get_at, get_item, delete_at, delete, contains,
  put_with_ttl,
}
use p2papp.Cache.Elements.{find_key}
use p2papp.Cache.Invariant.{IsValid, pointer_lem}
use p2papp.Cache.Recency.{
  without, list_remove-without, without_absent, find_key-fitting_or, find_key-without_ne,
}
use p2papp.Cache.Put.{new_element, put_with_ttl-items, put_with_ttl-IsValid}

-- The content that `Get` returns, from the element of the key.
abbrev pub live_content : Time → Option Element → Option (List ℕ)
live_content t none = none
live_content t (some e) = if expired t e then none else some e.content

-- The recency list after `Get`: a hit moves to the front, an expired element goes.
abbrev pub touched : Str → Time → Time → List Element → Option Element → List Element
touched key t1 t2 es none = es
touched key t1 t2 es (some e) =
    if expired t1 e then without key es else record e { accessed_at = t2 } ∷ without key es

-- `Get` returns the content of the key's element unless it is absent or has expired; a hit moves
-- it to the front, an expired element is removed, and the order of the others stays.
pub get_item_lem :
    (key : Str) (t1 t2 : Time) (c : Cache)
    → IsValid c
    → ((get_item key t1 t2 c).1 ≡ live_content t1 (find_key key c.items))
      × ((get_item key t1 t2 c).0.items ≡ touched key t1 t2 c.items (find_key key c.items))
unfolding get_item get_at remove_element
get_item_lem key t1 t2 c v = elim (Option-cases (find_key key c.items)) [
  | inl miss ↦ rw (pointer_lem c key v, miss) (refl, refl)
  | inr (e, hit) ↦
      rw (pointer_lem c key v, hit)
        (ground arith, ground (arith, list_remove-without key c.items e v.distinct hit))
]

-- A `Get` after a `PutWithTTL` of content within the capacity returns that content, unless the
-- time to live has passed.
pub get_item-put_with_ttl :
    (key : Str) (content : List ℕ) (ttl : Duration) (t1 t2 t3 t4 : Time) (c : Cache)
    → IsValid c
    → c.capacity + length content < half_word
    → length content ≤ c.capacity
    → (get_item key t3 t4 (put_with_ttl key content ttl t1 t2 c)).1
      ≡ (if expired t3 (new_element c.next_id key content ttl t1 t2) then none else some content)
unfolding find_key
get_item-put_with_ttl key content ttl t1 t2 t3 t4 c v small fits =
    rw
      (
        (get_item_lem key t3 t4 (put_with_ttl key content ttl t1 t2 c)
            (put_with_ttl-IsValid key content ttl t1 t2 c v small)).0,
        put_with_ttl-items key content ttl t1 t2 c v small,
      )
      (ground arith)

-- A `PutWithTTL` of one key keeps the element of another key, or evicts it.
pub find_key-put_with_ttl_ne :
    (key other : Str) (content : List ℕ) (ttl : Duration) (t1 t2 : Time) (c : Cache)
    → IsValid c
    → c.capacity + length content < half_word
    → key ≢ other
    → (find_key other (put_with_ttl key content ttl t1 t2 c).items ≡ find_key other c.items)
      ⊎ (find_key other (put_with_ttl key content ttl t1 t2 c).items ≡ none)
unfolding find_key
find_key-put_with_ttl_ne key other content ttl t1 t2 c v small ne =
    rw (put_with_ttl-items key content ttl t1 t2 c v small) (
      ground (
        arith,
        find_key-fitting_or other (c.capacity - length content) (without key c.items),
        find_key-without_ne other key c.items,
      ))

-- `Delete` reports whether the key was there, and removes its element alone.
pub delete_lem :
    (key : Str) (c : Cache)
    → IsValid c
    → ((delete key c).0.items ≡ without key c.items) × ((delete key c).1 ≡ contains key c)
unfolding delete delete_at remove_element contains
delete_lem key c v = elim (Option-cases (find_key key c.items)) [
  | inl miss ↦
      rw (pointer_lem c key v, miss)
        (sym (without_absent key c.items miss), ground (arith, v.agree key))
  | inr (e, hit) ↦
      rw (pointer_lem c key v, hit)
        (list_remove-without key c.items e v.distinct hit, ground (arith, v.agree key))
]
