-- ===== src/Assoc.antt =====
-- Go's maps with string keys, as association lists: at most one entry to a key, and the order of
-- the list is an order in which a `range` over the map may visit the entries.
use mathlib.Core.Logic.{ite, if_pos, if_neg}
use p2papp.Prelude.{◌≡◌, refl, ◌≢◌, Option, none, some, List, [], ◌∷◌, arith, Str, str_dec}

abbrev pub Assoc {ℓ} : Type ℓ → Type ℓ
Assoc V = List (Str × V)

module _ {ℓ} {V : Type ℓ} where
  -- m[k], with the test that the key is there.
  unfoldable pub get : Str → Assoc V → Option V
  get k [] = none
  get k ((j, v) ∷ m) = ite (str_dec j k) (some v) (get k m)

  -- m[k] = v
  unfoldable pub put : Str → V → Assoc V → Assoc V
  put k v [] = (k, v) ∷ []
  put k v ((j, w) ∷ m) = ite (str_dec j k) ((k, v) ∷ m) ((j, w) ∷ put k v m)

  -- delete(m, k)
  unfoldable pub remove : Str → Assoc V → Assoc V
  remove k [] = []
  remove k ((j, v) ∷ m) = ite (str_dec j k) (remove k m) ((j, v) ∷ remove k m)

  pub get-put :
      (j k : Str) (v : V) (m : Assoc V) → get j (put k v m) ≡ ite (str_dec k j) (some v) (get j m)
  unfolding get put
  get-put j k v [] = refl
  get-put j k v ((i, w) ∷ m) = ground (arith, get-put j k v m)

  pub get-put_self : (k : Str) (v : V) (m : Assoc V) → get k (put k v m) ≡ some v
  get-put_self k v m = ground (arith, get-put k k v m)

  pub get-put_ne : (j k : Str) (v : V) (m : Assoc V) → k ≢ j → get j (put k v m) ≡ get j m
  get-put_ne j k v m h = ground (arith, get-put j k v m)

  pub get-remove : (j k : Str) (m : Assoc V) → get j (remove k m) ≡ ite (str_dec k j) none (get j m)
  unfolding get remove
  get-remove j k [] = ground arith
  get-remove j k ((i, w) ∷ m) = ground (arith, get-remove j k m)

  pub get-remove_self : (k : Str) (m : Assoc V) → get k (remove k m) ≡ none
  get-remove_self k m = ground (arith, get-remove k k m)

  pub get-remove_ne : (j k : Str) (m : Assoc V) → k ≢ j → get j (remove k m) ≡ get j m
  get-remove_ne j k m h = ground (arith, get-remove j k m)

  -- At most one entry to a key.
  abbrev pub Unique : Assoc V → Type ℓ
  Unique [] = Unit
  Unique ((k, v) ∷ m) = (get k m ≡ none) × Unique m

  pub remove-Unique : (k : Str) (m : Assoc V) → Unique m → Unique (remove k m)
  unfolding remove
  remove-Unique k [] u = tt
  remove-Unique k ((j, v) ∷ m) u = elim (str_dec j k) [
    | yes p ↦ rw (if_pos _ p) (remove-Unique k m u.1)
    | no p ↦ rw (if_neg _ p) (ground (arith, get-remove j k m), remove-Unique k m u.1)
  ]

  pub put-Unique : (k : Str) (v : V) (m : Assoc V) → Unique m → Unique (put k v m)
  unfolding put get
  put-Unique k v [] u = (refl, tt)
  put-Unique k v ((j, w) ∷ m) u = elim (str_dec j k) [
    | yes p ↦ rw (if_pos _ p) (ground arith, u.1)
    | no p ↦ rw (if_neg _ p) (ground (arith, get-put j k v m), put-Unique k v m u.1)
  ]
