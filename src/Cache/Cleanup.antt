-- ===== src/Cache/Cleanup.antt =====
-- `CleanupExpired` of internal/relay/cache.go.
use mathlib.Core.Logic.{if_neg}
use p2papp.Prelude.{
  ℕ, ◌+◌, ◌≡◌, refl, sym, ap, ◌∙◌, Bool, true, false, none, some, List, [], ◌∷◌, ◌++◌, inl, inr,
  arith, All, length, length-append, Time, Bool-cases, if◌then◌else◌,
}
use p2papp.Cache.{
  Element, Cache, element_at, list_remove, expired, remove_element, to_remove, remove_all,
  cleanup_expired,
}
use p2papp.Cache.Elements.{Distinct, element_at-list_remove_ne}
use p2papp.Cache.Invariant.{IsValid, remove_element-IsValid}

-- The elements that have not expired, in their order.
unfoldable pub live_only : Time → List Element → List Element
live_only now [] = []
live_only now (e ∷ es) = if expired now e then live_only now es else e ∷ live_only now es

-- No pointer of a list is `i`, in the form that a removal leaves standing.
abbrev Apart : ℕ → List Element → Type 0
Apart i = All (λ (f : Element). ¬ (f.id ≡ i))

-- Pointers that differ pairwise.
abbrev Pairwise : List Element → Type 0
Pairwise [] = Unit
Pairwise (e ∷ es) = Apart e.id es × Pairwise es

-- Every element of a list is where its pointer says.
abbrev Held : List Element → List Element → Type 0
Held items = All (λ (f : Element). element_at f.id items ≡ some f)

Apart-append : (i : ℕ) (xs ys : List Element) → Apart i xs → Apart i ys → Apart i (xs ++ ys)
Apart-append i [] ys a b = b
Apart-append i (x ∷ xs) ys a b = (a.0, Apart-append i xs ys a.1 b)

Apart-to_remove :
    (i : ℕ) (now : Time) (es : List Element) → element_at i es ≡ none → Apart i (to_remove now es)
unfolding element_at to_remove
Apart-to_remove i now [] h = tt
Apart-to_remove i now (e ∷ es) h =
    Apart-append i (to_remove now es) _ (Apart-to_remove i now es (ground arith))
      (last (expired now e))
  where
    last : (b : Bool) → Apart i (if b then e ∷ [] else [])
    last true = (λ p. absurd (ground arith), tt)
    last false = tt

Pairwise-append :
    (e : Element) (xs : List Element) → Apart e.id xs → Pairwise xs → Pairwise (xs ++ (e ∷ []))
Pairwise-append e [] a p = (tt, tt)
Pairwise-append e (x ∷ xs) a p =
    (Apart-append x.id xs (e ∷ []) p.0 (λ q. a.0 (sym q), tt), Pairwise-append e xs a.1 p.1)

append_nil : (xs : List Element) → xs ++ [] ≡ xs
append_nil [] = refl
append_nil (x ∷ xs) = ap (◌∷◌ x) (append_nil xs)

Pairwise-to_remove : (now : Time) (es : List Element) → Distinct es → Pairwise (to_remove now es)
unfolding to_remove
Pairwise-to_remove now [] d = tt
Pairwise-to_remove now (e ∷ es) d = elim (Bool-cases (expired now e)) [
  | inl old ↦ rw old (
      Pairwise-append e (to_remove now es) (Apart-to_remove e.id now es d.1)
        (Pairwise-to_remove now es d.2))
  | inr live ↦ rw (live, append_nil) (Pairwise-to_remove now es d.2)
]

Held-cons : (e : Element) (es xs : List Element) → Apart e.id xs → Held es xs → Held (e ∷ es) xs
unfolding element_at
Held-cons e es [] a h = tt
Held-cons e es (x ∷ xs) a h = (ground arith, Held-cons e es xs a.1 h.1)

Held-append : (items xs ys : List Element) → Held items xs → Held items ys → Held items (xs ++ ys)
Held-append items [] ys a b = b
Held-append items (x ∷ xs) ys a b = (a.0, Held-append items xs ys a.1 b)

Held-to_remove : (now : Time) (es : List Element) → Distinct es → Held es (to_remove now es)
unfolding to_remove element_at
Held-to_remove now [] d = tt
Held-to_remove now (e ∷ es) d =
    let front =
      Held-cons e es (to_remove now es) (Apart-to_remove e.id now es d.1)
        (Held-to_remove now es d.2) in
    elim (Bool-cases (expired now e)) [
      | inl old ↦ rw old (Held-append (e ∷ es) (to_remove now es) (e ∷ []) front (ground arith, tt))
      | inr live ↦ rw (live, append_nil) front
    ]

Held-list_remove :
    (i : ℕ) (items xs : List Element) → Apart i xs → Held items xs → Held (list_remove i items) xs
Held-list_remove i items [] a h = tt
Held-list_remove i items (x ∷ xs) a h = (
  element_at-list_remove_ne x.id i items (λ p. a.0 (sym p)) ∙ h.0,
  Held-list_remove i items xs a.1 h.1,
)

pub remove_all-IsValid :
    (xs : List Element) (c : Cache)
    → IsValid c
    → Pairwise xs
    → Held c.items xs
    → IsValid (remove_all xs c)
unfolding remove_all remove_element
remove_all-IsValid [] c v p h = v
remove_all-IsValid (x ∷ xs) c v p h =
    remove_all-IsValid xs (remove_element x c) (remove_element-IsValid c x v h.0) p.1
      (Held-list_remove x.id c.items xs p.0 h.1)

-- The removals of `CleanupExpired`, on the list alone.
unfoldable remove_items : List Element → List Element → List Element
remove_items [] es = es
remove_items (x ∷ xs) es = remove_items xs (list_remove x.id es)

items-remove_all :
    (xs : List Element) (c : Cache) → (remove_all xs c).items ≡ remove_items xs c.items
unfolding remove_all remove_items remove_element
items-remove_all [] c = refl
items-remove_all (x ∷ xs) c = items-remove_all xs (remove_element x c)

remove_items-cons :
    (e : Element) (xs es : List Element)
    → Apart e.id xs
    → remove_items xs (e ∷ es) ≡ e ∷ remove_items xs es
unfolding remove_items list_remove
remove_items-cons e [] es a = refl
remove_items-cons e (x ∷ xs) es a =
    rw (if_neg _ (λ p. a.0 (sym p))) (remove_items-cons e xs (list_remove x.id es) a.1)

remove_items-append :
    (xs ys es : List Element) → remove_items (xs ++ ys) es ≡ remove_items ys (remove_items xs es)
unfolding remove_items
remove_items-append [] ys es = refl
remove_items-append (x ∷ xs) ys es = remove_items-append xs ys (list_remove x.id es)

remove_items-to_remove :
    (now : Time) (es : List Element)
    → Distinct es
    → remove_items (to_remove now es) es ≡ live_only now es
unfolding to_remove live_only remove_items list_remove
remove_items-to_remove now [] d = refl
remove_items-to_remove now (e ∷ es) d = ground (
  arith,
  remove_items-append (to_remove now es) (e ∷ []) (e ∷ es),
  append_nil (to_remove now es),
  remove_items-cons e (to_remove now es) es (Apart-to_remove e.id now es d.1),
  remove_items-to_remove now es d.2,
)

length-to_remove :
    (now : Time) (es : List Element)
    → length (to_remove now es) + length (live_only now es) ≡ length es
unfolding to_remove live_only
length-to_remove now [] = omega arith
length-to_remove now (e ∷ es) = ground (
  arith,
  length-to_remove now es,
  append_nil (to_remove now es),
  length-append (to_remove now es) (e ∷ []),
)

-- `CleanupExpired` keeps the invariant, leaves exactly the elements that have not expired, in their
-- order, and returns how many it removed.
pub cleanup_expired_lem :
    (now : Time) (c : Cache)
    → IsValid c
    → IsValid (cleanup_expired now c).0
      × ((cleanup_expired now c).0.items ≡ live_only now c.items)
      × ((cleanup_expired now c).1 + length (live_only now c.items) ≡ length c.items)
unfolding cleanup_expired
cleanup_expired_lem now c v = (
  remove_all-IsValid (to_remove now c.items) c v (Pairwise-to_remove now c.items v.distinct)
      (Held-to_remove now c.items v.distinct),
  items-remove_all (to_remove now c.items) c ∙ remove_items-to_remove now c.items v.distinct,
  length-to_remove now c.items,
)
