-- ===== src/Cache/Put.antt =====
-- `PutWithTTL` of internal/relay/cache.go: the recency list that it leaves, and its invariant.
use p2papp.Prelude.{
  ℕ, suc, ◌+◌, ◌-◌, ◌%◌, ◌<◌, ◌≤◌, ◌≡◌, refl, sym, ap, true, none, List, [], ◌∷◌, inl, inr, arith,
  Str, All, length, half_word, word, lt64, add64_small, lt64_small, Time, Duration, Option-cases,
  Bool-cases, ltb, leb, if◌then◌else◌,
}
use p2papp.Assoc.{get-put}
use p2papp.Cache.{Element, Cache, drop_at, evict_loop, drop_existing, push_front, put_with_ttl}
use p2papp.Cache.Elements.{find_key, total, element_at-fresh}
use p2papp.Cache.Invariant.{IsValid, pointer_lem, evict_loop-IsValid, drop_existing-IsValid}
use p2papp.Cache.Recency.{
  without, fitting, room, without_absent, list_remove-without, find_key-without_self,
  find_key-fitting, evict_loop_lem, total-fitting-le,
}

-- The element that `PutWithTTL` pushes.
abbrev pub new_element : ℕ → Str → List ℕ → Duration → Time → Time → Element
new_element i key content ttl t1 t2 = record {
  id = i;
  key = key;
  content = content;
  size = length content;
  created_at = t1;
  accessed_at = t2;
  ttl = ttl;
}

drop_existing_lem :
    (key : Str) (c : Cache)
    → IsValid c
    → ((drop_existing key c).items ≡ without key c.items)
      × ((drop_existing key c).capacity ≡ c.capacity)
      × ((drop_existing key c).next_id ≡ c.next_id)
unfolding drop_existing drop_at
drop_existing_lem key c v = elim (Option-cases (find_key key c.items)) [
  | inl miss ↦ rw (pointer_lem c key v, miss) (sym (without_absent key c.items miss), refl, refl)
  | inr (e, hit) ↦
      rw (pointer_lem c key v, hit) (list_remove-without key c.items e v.distinct hit, refl, refl)
]

push_front-IsValid :
    (key : Str) (content : List ℕ) (ttl : Duration) (t1 t2 : Time) (c : Cache)
    → IsValid c
    → find_key key c.items ≡ none
    → total c.items + length content ≤ c.capacity
    → IsValid (push_front key content (length content) ttl t1 t2 c)
unfolding push_front find_key total
push_front-IsValid key content ttl t1 t2 c v absent fits = record {
  agree = λ k. ground (arith, v.agree k, get-put k key c.next_id c.lookup);
  distinct = (absent, element_at-fresh c.next_id c.items v.fresh, v.distinct);
  sized = omega (arith, v.sized, v.signed, add64_small c.current_size (length content));
  within = omega arith;
  signed = v.signed;
  fresh = (omega arith, fresh_later c.next_id c.items v.fresh);
}
  where
    fresh_later :
        (n : ℕ) (es : List Element)
        → All (λ (e : Element). e.id < n) es
        → All (λ (e : Element). e.id < suc n) es
    fresh_later n [] a = tt
    fresh_later n (e ∷ es) a = (omega arith, fresh_later n es a.1)

module _ (key : Str) (content : List ℕ) (ttl : Duration) (t1 t2 : Time) (c : Cache) where
  -- The state after the eviction loop of `PutWithTTL`.
  abbrev evicted : Cache
  evicted = evict_loop (length (drop_existing key c).items) (length content) (drop_existing key c)

  module _ (v : IsValid c) (small : c.capacity + length content < half_word) where
    evicted_lem :
        (evicted.items ≡ room c.capacity (length content) (without key c.items))
        × (evicted.capacity ≡ c.capacity)
        × (evicted.next_id ≡ c.next_id)
    evicted_lem =
        let (items, capacity, next) = drop_existing_lem key c v in
        let (items', capacity', next') =
          evict_loop_lem (length (drop_existing key c).items) (length content) (drop_existing key c)
            (drop_existing-IsValid key c v) (omega (arith, capacity)) (omega arith) in
        (ground arith, ground arith, ground arith)

    kept :
        leb (length content) c.capacity ≡ true
        → evicted.items ≡ fitting (c.capacity - length content) (without key c.items)
    unfolding room
    kept fits = ground (arith, evicted_lem)

    put_with_ttl-evicted : put_with_ttl key content ttl t1 t2 c ≡ (
        if leb (length content) c.capacity
        then push_front key content (length content) ttl t1 t2 evicted
        else evicted)
    unfolding put_with_ttl
    put_with_ttl-evicted =
        let s : length content % word ≡ length content = omega arith in
        let l : lt64 evicted.capacity (length content) ≡ ltb c.capacity (length content) =
          rw (evicted_lem.1) (lt64_small c.capacity (length content) v.signed (omega arith)) in
        rw (s, l) (ground arith)

    -- After `PutWithTTL` the list holds the new element in front of the longest front part of the
    -- other elements that leaves room for it: exactly the least recently used are evicted. Content
    -- larger than the capacity is not stored, and empties the cache.
    pub put_with_ttl-items : (put_with_ttl key content ttl t1 t2 c).items ≡ (
        if leb (length content) c.capacity
        then new_element c.next_id key content ttl t1 t2
          ∷ fitting (c.capacity - length content) (without key c.items)
        else [])
    unfolding push_front room
    put_with_ttl-items = rw put_with_ttl-evicted (ground (arith, evicted_lem))

    -- `PutWithTTL` keeps the invariant: the sizes add up to the counter and fit the capacity.
    pub put_with_ttl-IsValid : IsValid (put_with_ttl key content ttl t1 t2 c)
    put_with_ttl-IsValid =
        let valid =
          evict_loop-IsValid (length (drop_existing key c).items) (length content)
            (drop_existing key c) (drop_existing-IsValid key c v) in
        elim (Bool-cases (leb (length content) c.capacity)) [
          | inr large ↦ rw (put_with_ttl-evicted, large) valid
          | inl fits ↦
              rw (put_with_ttl-evicted, fits)
                (push_front-IsValid key content ttl t1 t2 evicted valid
                  (rw (kept fits)
                    (find_key-fitting key _ _ (find_key-without_self key c.items v.distinct)))
                  (ground (
                    arith,
                    kept fits,
                    evicted_lem,
                    ap total (kept fits),
                    total-fitting-le (c.capacity - length content) (without key c.items),
                  )))
        ]
