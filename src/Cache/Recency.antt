-- ===== src/Cache/Recency.antt =====
-- What `PutWithTTL` and `Get` of internal/relay/cache.go leave in the cache, as functions of the
-- recency list alone: no pointers, no map and no word arithmetic.
use mathlib.Core.Logic.{ite}
use p2papp.Prelude.{
  ℕ, zero, suc, ◌+◌, ◌-◌, ◌<◌, ◌≤◌, ◌≡◌, ◌≢◌, refl, sym, ap, ◌∙◌, true, false, none, some, List, [],
  ◌∷◌, ◌⊎◌, inl, inr, arith, Str, str_dec, length, take, length-take-le, half_word, add64, lt64,
  add64_small, lt64_small, Bool-cases, ltb, leb, if◌then◌else◌,
}
use p2papp.Cache.{
  Element, Cache, element_at, list_remove, remove_element, evict_at, evict_oldest, must_evict,
  evict_loop,
}
use p2papp.Cache.Elements.{find_key, total, Distinct, element_at-find_key, list_back-cases}
use p2papp.Cache.Invariant.{IsValid, evict_oldest-IsValid}

-- The list without the element of a key.
unfoldable pub without : Str → List Element → List Element
without k [] = []
without k (e ∷ es) = ite (str_dec e.key k) es (e ∷ without k es)

-- The longest front part of the list that accounts for at most `budget` bytes.
unfoldable pub fitting : ℕ → List Element → List Element
fitting budget [] = []
fitting budget (e ∷ es) =
    let rest = fitting (budget - e.size) es in if leb e.size budget then e ∷ rest else []

pub without_absent : (k : Str) (es : List Element) → find_key k es ≡ none → without k es ≡ es
unfolding find_key without
without_absent k [] h = refl
without_absent k (e ∷ es) h = ground (arith, without_absent k es)

pub list_remove-without :
    (k : Str) (es : List Element) (e : Element)
    → Distinct es
    → find_key k es ≡ some e
    → list_remove e.id es ≡ without k es
unfolding find_key without list_remove element_at
list_remove-without k [] e d h = cc
list_remove-without k (f ∷ es) e d h =
    ground (arith, list_remove-without k es e d.2, element_at-find_key k es e d.2)

pub fitting_all : (b : ℕ) (es : List Element) → total es ≤ b → fitting b es ≡ es
unfolding fitting total
fitting_all b [] h = refl
fitting_all b (e ∷ es) h = ground (arith, fitting_all (b - e.size) es)

-- Of a list that does not fit, the last element is not in the part that fits.
pub fitting-take :
    (b : ℕ) (es : List Element) → b < total es → fitting b (take (length es - 1) es) ≡ fitting b es
unfolding fitting total
fitting-take b [] h = absurd (omega arith)
fitting-take b (e ∷ []) h = ground arith
fitting-take b (e ∷ f ∷ es) h = ground (arith, fitting-take (b - e.size) (f ∷ es))

pub total-fitting-le : (b : ℕ) (es : List Element) → total (fitting b es) ≤ b
unfolding fitting total
total-fitting-le b [] = omega arith
total-fitting-le b (e ∷ es) = ground (arith, total-fitting-le (b - e.size) es)

pub find_key-fitting :
    (k : Str) (b : ℕ) (es : List Element) → find_key k es ≡ none → find_key k (fitting b es) ≡ none
unfolding fitting find_key
find_key-fitting k b [] h = refl
find_key-fitting k b (e ∷ es) h = ground (arith, find_key-fitting k (b - e.size) es)

pub find_key-without_self :
    (k : Str) (es : List Element) → Distinct es → find_key k (without k es) ≡ none
unfolding without find_key
find_key-without_self k [] d = refl
find_key-without_self k (e ∷ es) d = ground (arith, find_key-without_self k es d.2)

-- The test of the eviction loop, without words.
must_evict_lem :
    (size : ℕ) (c : Cache)
    → IsValid c
    → c.capacity + size < half_word
    → (must_evict size c ≡ true → (c.capacity < total c.items + size) × (0 < length c.items))
      × (must_evict size c ≡ false → (total c.items + size ≤ c.capacity) ⊎ (length c.items ≡ 0))
unfolding must_evict
must_evict_lem size c v h =
    let s : add64 c.current_size size ≡ total c.items + size =
      omega (arith, add64_small c.current_size size, v.sized, v.within) in
    let l : lt64 c.capacity (add64 c.current_size size) ≡ ltb c.capacity (total c.items + size) =
      rw s (lt64_small _ _ (omega (arith, v.signed)) (omega (arith, v.within))) in
    (λ e. ground arith, λ e. ground arith)

-- What stays when `size` bytes are to be added: the most recent elements that leave room.
unfoldable pub room : ℕ → ℕ → List Element → List Element
room capacity size es = if leb size capacity then fitting (capacity - size) es else []

room-take :
    (capacity size : ℕ) (es : List Element)
    → capacity < total es + size
    → room capacity size (take (length es - 1) es) ≡ room capacity size es
unfolding room
room-take capacity size es h = ground (arith, fitting-take (capacity - size) es)

room_stop :
    (capacity size : ℕ) (es : List Element)
    → (total es + size ≤ capacity) ⊎ (length es ≡ 0)
    → room capacity size es ≡ es
unfolding room fitting
room_stop capacity size [] h = ground arith
room_stop capacity size (e ∷ es) h = ground (arith, fitting_all (capacity - size) (e ∷ es))

evict_oldest_lem :
    (c : Cache)
    → IsValid c
    → ((evict_oldest c).items ≡ take (length c.items - 1) c.items)
      × ((evict_oldest c).capacity ≡ c.capacity)
      × ((evict_oldest c).next_id ≡ c.next_id)
unfolding evict_oldest evict_at remove_element
evict_oldest_lem c v = elim (list_back-cases c.items v.distinct) [
  | inl (e, empty) ↦ rw empty (e ∙ ap (λ es. take (length es - 1) es) (sym e), refl, refl)
  | inr (b, back, at, rest) ↦ rw back (rest, refl, refl)
]

-- With a round of fuel for each element the loop ends by its own test, and it has dropped from the
-- back exactly what does not leave room.
pub evict_loop_lem :
    (fuel size : ℕ) (c : Cache)
    → IsValid c
    → c.capacity + size < half_word
    → length c.items ≤ fuel
    → ((evict_loop fuel size c).items ≡ room c.capacity size c.items)
      × ((evict_loop fuel size c).capacity ≡ c.capacity)
      × ((evict_loop fuel size c).next_id ≡ c.next_id)
unfolding evict_loop
evict_loop_lem zero size c v h f =
    (sym (room_stop c.capacity size c.items (inr (omega arith))), refl, refl)
evict_loop_lem (suc fuel) size c v h f = elim (Bool-cases (must_evict size c)) [
  | inl more ↦
      let test = (must_evict_lem size c v h).0 more in
      let step = evict_oldest_lem c v in
      let rest =
        evict_loop_lem fuel size (evict_oldest c) (evict_oldest-IsValid c v) (omega (arith, step.1))
          (omega (arith, ap length step.0, length-take-le (length c.items - 1) c.items)) in
      rw (more, evict_loop)
        (ground (arith, room-take c.capacity size c.items), ground arith, ground arith)
  | inr done ↦
      rw (done, evict_loop)
        (sym (room_stop c.capacity size c.items ((must_evict_lem size c v h).1 done)), refl, refl)
]

pub find_key-fitting_or :
    (k : Str) (b : ℕ) (es : List Element)
    → (find_key k (fitting b es) ≡ find_key k es) ⊎ (find_key k (fitting b es) ≡ none)
unfolding fitting find_key
find_key-fitting_or k b [] = inl refl
find_key-fitting_or k b (e ∷ es) = ground (arith, find_key-fitting_or k (b - e.size) es)

pub find_key-without_ne :
    (k j : Str) (es : List Element) → j ≢ k → find_key k (without j es) ≡ find_key k es
unfolding without find_key
find_key-without_ne k j [] n = refl
find_key-without_ne k j (e ∷ es) n = ground (arith, find_key-without_ne k j es)
