-- ===== src/Cache/Elements.antt =====
-- The list of elements of the cache of internal/relay/cache.go: pointers, keys, sizes and order.
use mathlib.Core.Logic.{ite, if_pos, if_neg}
use native.Mathlib.Decide.{ℕ_discrete}
use p2papp.Prelude.{
  ℕ, zero, suc, ◌+◌, ◌<◌, ◌≤◌, ◌≡◌, refl, ap, ◌∙◌, ◌⊎◌, inl, inr, ◌-◌, Option, none, some, List, [],
  ◌∷◌, arith, Str, str_dec, All, length, take,
}
use p2papp.Cache.{Element, element_at, list_remove, list_back}

-- The element with a key, as a search through the list finds it.
unfoldable pub find_key : Str → List Element → Option Element
find_key k [] = none
find_key k (e ∷ es) = ite (str_dec e.key k) (some e) (find_key k es)

-- The bytes that the elements account for.
unfoldable pub total : List Element → ℕ
total [] = 0
total (e ∷ es) = e.size + total es

-- No key and no pointer occurs twice.
abbrev pub Distinct : List Element → Type 0
Distinct [] = Unit
Distinct (e ∷ es) = (find_key e.key es ≡ none) × (element_at e.id es ≡ none) × Distinct es

module _ (k : Str) where
  pub element_at-find_key :
      (es : List Element) (e : Element)
      → Distinct es
      → find_key k es ≡ some e
      → (element_at e.id es ≡ some e) × (e.key ≡ k)
  unfolding find_key element_at
  element_at-find_key [] e d h = cc
  element_at-find_key (f ∷ es) e d h = ground (arith, element_at-find_key es e d.2)

pub find_key-element_at :
    (es : List Element) (e : Element) (i : ℕ)
    → Distinct es
    → element_at i es ≡ some e
    → (find_key e.key es ≡ some e) × (e.id ≡ i)
unfolding find_key element_at
find_key-element_at [] e i d h = cc
find_key-element_at (f ∷ es) e i d h = ground (arith, find_key-element_at es e i d.2)

pub find_key-list_remove :
    (k : Str) (es : List Element) (e : Element)
    → Distinct es
    → element_at e.id es ≡ some e
    → find_key k (list_remove e.id es) ≡ ite (str_dec e.key k) none (find_key k es)
unfolding find_key element_at list_remove
find_key-list_remove k [] e d h = cc
find_key-list_remove k (f ∷ es) e d h =
    ground (arith, find_key-list_remove k es e d.2, find_key-element_at es e e.id d.2)

find_key-list_remove-none :
    (k : Str) (i : ℕ) (es : List Element)
    → find_key k es ≡ none
    → find_key k (list_remove i es) ≡ none
unfolding find_key list_remove
find_key-list_remove-none k i [] h = refl
find_key-list_remove-none k i (f ∷ es) h = ground (arith, find_key-list_remove-none k i es)

element_at-list_remove-none :
    (j i : ℕ) (es : List Element) → element_at j es ≡ none → element_at j (list_remove i es) ≡ none
unfolding element_at list_remove
element_at-list_remove-none j i [] h = refl
element_at-list_remove-none j i (f ∷ es) h = ground (arith, element_at-list_remove-none j i es)

pub element_at-list_remove_self :
    (i : ℕ) (es : List Element) → Distinct es → element_at i (list_remove i es) ≡ none
unfolding element_at list_remove
element_at-list_remove_self i [] d = refl
element_at-list_remove_self i (f ∷ es) d = ground (arith, element_at-list_remove_self i es d.2)

pub element_at-list_remove_ne :
    (j i : ℕ) (es : List Element) → ¬ (i ≡ j) → element_at j (list_remove i es) ≡ element_at j es
unfolding element_at list_remove
element_at-list_remove_ne j i [] n = refl
element_at-list_remove_ne j i (f ∷ es) n = ground (arith, element_at-list_remove_ne j i es)

pub list_remove-Distinct : (i : ℕ) (es : List Element) → Distinct es → Distinct (list_remove i es)
unfolding list_remove
list_remove-Distinct i [] d = tt
list_remove-Distinct i (f ∷ es) d = elim (ℕ_discrete f.id i) [
  | yes p ↦ rw (if_pos _ p) d.2
  | no p ↦ rw (if_neg _ p) (
    find_key-list_remove-none f.key i es d.0,
    element_at-list_remove-none f.id i es d.1,
    list_remove-Distinct i es d.2,
  )
]

pub list_remove-All :
    (P : Element → Type 0) (i : ℕ) (es : List Element) → All P es → All P (list_remove i es)
unfolding list_remove
list_remove-All P i [] a = tt
list_remove-All P i (f ∷ es) a = elim (ℕ_discrete f.id i) [
  | yes p ↦ rw (if_pos _ p) a.1
  | no p ↦ rw (if_neg _ p) (a.0, list_remove-All P i es a.1)
]

pub total-list_remove :
    (i : ℕ) (es : List Element) (e : Element)
    → element_at i es ≡ some e
    → (total (list_remove i es) + e.size ≡ total es) × (suc (length (list_remove i es)) ≡ length es)
unfolding total list_remove element_at
total-list_remove i [] e h = cc
total-list_remove i (f ∷ es) e h = ground (arith, total-list_remove i es e)

-- An element with a fresh pointer is not in the list.
pub element_at-fresh : (i : ℕ) (es : List Element) → All (λ e. e.id < i) es → element_at i es ≡ none
unfolding element_at
element_at-fresh i [] a = refl
element_at-fresh i (e ∷ es) a = ground (arith, element_at-fresh i es a.1)

-- The back of a non-empty list is one of its elements, and without it the list is shorter by one.
pub list_back-element_at :
    (e : Element) (es : List Element)
    → Distinct (e ∷ es)
    → (b : Element) × (list_back (e ∷ es) ≡ some b)
      × (element_at b.id (e ∷ es) ≡ some b)
      × (list_remove b.id (e ∷ es) ≡ take (length es) (e ∷ es))
unfolding list_back element_at list_remove
list_back-element_at e [] d = (e, refl, ground arith, ground arith)
list_back-element_at e (f ∷ es) d =
    let (b, back, at, rest) = list_back-element_at f es d.2 in (b, back, ground arith, ground arith)

-- Both cases of `list.Back`.
pub list_back-cases :
    (es : List Element)
    → Distinct es
    → ((es ≡ []) × (list_back es ≡ none))
      ⊎ ((b : Element) × (list_back es ≡ some b)
          × (element_at b.id es ≡ some b)
          × (list_remove b.id es ≡ take (length es - 1) es))
unfolding list_back
list_back-cases [] d = inl (refl, refl)
list_back-cases (e ∷ es) d =
    let (b, back, at, rest) = list_back-element_at e es d in
    inr (b, back, at, rest ∙ ap (λ n. take n (e ∷ es)) (omega arith))

pub total-take-le : (n : ℕ) (es : List Element) → total (take n es) ≤ total es
unfolding total
total-take-le zero es = omega arith
total-take-le (suc n) [] = omega arith
total-take-le (suc n) (e ∷ es) = omega (arith, total-take-le n es)
