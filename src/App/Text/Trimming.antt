-- ===== src/App/Text/Trimming.antt =====
-- What `strings.TrimSpace` of a text is: the text between the white space at its ends.
use p2papp.Prelude.{
  ℕ, zero, suc, ◌<◌, ◌≤◌, ◌≡◌, ◌≢◌, refl, sym, ap, ◌∙◌, Option, none, some, Option-cases, List, [],
  ◌∷◌, ◌++◌, map, Str, length, length-append, All, In, inl, inr, arith,
}
use p2papp.App.Text.{
  white_space, strip, or_else, strip_any, trim_front, backwards, trim_back, trim_space,
}
use mathlib.Core.List.{append_assoc, append-nil}

abbrev pub concat : List Str → Str
concat [] = []
concat (r ∷ rs) = r ++ concat rs

-- A text between runs of white space, that begins and ends with none.
abbrev pub Trimmed : Str → Str → Type 0
Trimmed s t =
    (before : List Str) × (after : List Str) × (s ≡ concat before ++ (t ++ concat after))
    × All (λ r. In r white_space) before
    × All (λ r. In r white_space) after
    × All (λ r. (rest : Str) → t ≢ r ++ rest) white_space
    × All (λ r. (rest : Str) → t ≢ rest ++ r) white_space

strip-some : (r s rest : Str) → strip r s ≡ some rest → s ≡ r ++ rest
unfolding strip
strip-some [] s rest e = ground arith
strip-some (c ∷ r) [] rest e = ground arith
strip-some (c ∷ r) (d ∷ s) rest e = ground (arith, strip-some r s rest)

strip-append : (r rest : Str) → strip r (r ++ rest) ≡ some rest
unfolding strip
strip-append [] rest = refl
strip-append (c ∷ r) rest = ground (arith, strip-append r rest)

strip_any-some :
    (rs : List Str) (s rest : Str)
    → strip_any rs s ≡ some rest
    → (r : Str) × In r rs × (s ≡ r ++ rest)
unfolding strip_any
strip_any-some [] s rest e = ground arith
strip_any-some (r ∷ rs) s rest e = elim (Option-cases (strip r s)) [
  | inr (found, here) ↦ (r, inl refl, strip-some r s rest (ground (arith, here)))
  | inl absent ↦
      let (x, member, split) = strip_any-some rs s rest (ground (arith, absent)) in
      (x, inr member, split)
]

or_else-none : (o p : Option Str) → or_else o p ≡ none → o ≡ none
or_else-none none p e = refl
or_else-none (some a) p e = e

strip_any-none :
    (rs : List Str) (s : Str) → strip_any rs s ≡ none → All (λ r. (rest : Str) → s ≢ r ++ rest) rs
unfolding strip_any
strip_any-none [] s e = tt
strip_any-none (r ∷ rs) s e =
    let absent : strip r s ≡ none = or_else-none (strip r s) (strip_any rs s) e in
    (
      λ rest split. ground (arith, sym absent ∙ ap (strip r) split ∙ strip-append r rest),
      strip_any-none rs s (ground (arith, e, absent)),
    )

-- A text behind a run of runes, that begins with none.
abbrev Follows : List Str → Str → Str → Type 0
Follows rs s t =
    (before : List Str) × (s ≡ concat before ++ t)
    × All (λ r. In r rs) before
    × All (λ r. (rest : Str) → t ≢ r ++ rest) rs

empty-Follows :
    (rs : List Str) → All (λ r. 0 < length r) rs → All (λ r. (rest : Str) → [] ≢ r ++ rest) rs
empty-Follows [] long = tt
empty-Follows (r ∷ rs) long =
    (λ rest e. omega (arith, ap length e, length-append r rest, long.0), empty-Follows rs long.1)

In-positive : (r : Str) (rs : List Str) → In r rs → All (λ x. 0 < length x) rs → 0 < length r
In-positive r [] member long = elim member [ ]
In-positive r (x ∷ rs) (inl same) long = ground (arith, same, long.0)
In-positive r (x ∷ rs) (inr later) long = In-positive r rs later long.1

more-Follows :
    (rs : List Str) (s r rest t : Str)
    → In r rs
    → s ≡ r ++ rest
    → Follows rs rest t
    → Follows rs s t
more-Follows rs s r rest t member split (before, e, all, stops) = (
  r ∷ before,
  split ∙ (ap (r ++◌) e ∙ sym (append_assoc r (concat before) t)),
  (member, all),
  stops,
)

-- Fuel for each byte is enough, where no rune is empty.
trim_front-Follows :
    (rs : List Str) (fuel : ℕ) (s : Str)
    → All (λ r. 0 < length r) rs
    → length s ≤ fuel
    → Follows rs s (trim_front rs fuel s)
unfolding trim_front
trim_front-Follows rs zero [] long enough = ([], refl, tt, empty-Follows rs long)
trim_front-Follows rs zero (d ∷ s) long enough = absurd (omega (arith, enough))
trim_front-Follows rs (suc fuel) s long enough = elim (Option-cases (strip_any rs s)) [
  | inl absent ↦
      let stays : Follows rs s s = ([], refl, tt, strip_any-none rs s absent) in
      rw (trim_front, absent) stays
  | inr (rest, here) ↦
      let (r, member, split) = strip_any-some rs s rest here in
      let shorter : length rest ≤ fuel =
        omega
          (arith, enough, ap length split, length-append r rest, In-positive r rs member long) in
      rw (trim_front, here)
        (more-Follows rs s r rest (trim_front rs fuel rest) member split
          (trim_front-Follows rs fuel rest long shorter))
]

-- Texts read backwards.
backwards-append : (s t : Str) → backwards (s ++ t) ≡ backwards t ++ backwards s
unfolding backwards
backwards-append [] t = sym (append-nil (backwards t))
backwards-append (c ∷ s) t =
    ap (◌++ c ∷ []) (backwards-append s t) ∙ append_assoc (backwards t) (backwards s) (c ∷ [])

backwards-backwards : (s : Str) → backwards (backwards s) ≡ s
unfolding backwards
backwards-backwards [] = refl
backwards-backwards (c ∷ s) =
    backwards-append (backwards s) (c ∷ []) ∙ ap (c ∷◌) (backwards-backwards s)

length-backwards : (s : Str) → length (backwards s) ≡ length s
unfolding backwards
length-backwards [] = refl
length-backwards (c ∷ s) = omega (arith, length-append (backwards s) (c ∷ []), length-backwards s)

In-map :
    (r : Str) (rs : List Str) → In r (map backwards rs) → (x : Str) × In x rs × (r ≡ backwards x)
In-map r [] member = elim member [ ]
In-map r (y ∷ rs) (inl same) = (y, inl refl, same)
In-map r (y ∷ rs) (inr later) = let (x, member, e) = In-map r rs later in (x, inr member, e)

concat-append : (rs qs : List Str) → concat (rs ++ qs) ≡ concat rs ++ concat qs
concat-append [] qs = refl
concat-append (r ∷ rs) qs =
    ap (r ++◌) (concat-append rs qs) ∙ sym (append_assoc r (concat rs) (concat qs))

All-append :
    (ws rs qs : List Str)
    → All (λ r. In r ws) rs
    → All (λ r. In r ws) qs
    → All (λ r. In r ws) (rs ++ qs)
All-append ws [] qs a b = b
All-append ws (r ∷ rs) qs a b = (a.0, All-append ws rs qs a.1 b)

-- A run of runes that are read backwards is a run of them, read backwards.
backwards-concat :
    (ws rs : List Str)
    → All (λ r. In r (map backwards ws)) rs
    → (qs : List Str) × (backwards (concat rs) ≡ concat qs) × All (λ r. In r ws) qs
unfolding backwards
backwards-concat ws [] all = ([], refl, tt)
backwards-concat ws (r ∷ rs) all =
    let (x, member, e) = In-map r ws all.0 in
    let (qs, same, each) = backwards-concat ws rs all.1 in
    let end : backwards r ≡ x ++ [] =
      ap backwards e ∙ (backwards-backwards x ∙ sym (append-nil x)) in
    (
      qs ++ x ∷ [],
      backwards-append r (concat rs)
          ∙ (ap (◌++ backwards r) same
              ∙ (ap (concat qs ++◌) end ∙ sym (concat-append qs (x ∷ [])))),
      All-append ws qs (x ∷ []) each (member, tt),
    )

ends-Follows :
    (ws : List Str) (t : Str)
    → All (λ r. (rest : Str) → t ≢ r ++ rest) (map backwards ws)
    → All (λ r. (rest : Str) → backwards t ≢ rest ++ r) ws
ends-Follows [] t stops = tt
ends-Follows (r ∷ ws) t stops = (
  λ rest e.
      stops.0 (backwards rest)
        (sym (backwards-backwards t) ∙ (ap backwards e ∙ backwards-append rest r)),
  ends-Follows ws t stops.1,
)

begins-Follows :
    (ws : List Str) (s t back : Str)
    → s ≡ t ++ back
    → All (λ r. (rest : Str) → s ≢ r ++ rest) ws
    → All (λ r. (rest : Str) → t ≢ r ++ rest) ws
begins-Follows [] s t back split stops = tt
begins-Follows (r ∷ ws) s t back split stops = (
  λ rest e. stops.0 (rest ++ back) (split ∙ (ap (◌++ back) e ∙ append_assoc r rest back)),
  begins-Follows ws s t back split stops.1,
)

trim_back_lem :
    (s : Str)
    → (after : List Str) × (s ≡ trim_back s ++ concat after)
      × All (λ r. In r white_space) after
      × All (λ r. (rest : Str) → trim_back s ≢ rest ++ r) white_space
unfolding trim_back backwards
trim_back_lem s =
    let u = trim_front (map backwards white_space) (length s) (backwards s) in
    let (before, split, each, stops) =
      trim_front-Follows (map backwards white_space) (length s) (backwards s) (ground arith)
        (omega (arith, length-backwards s)) in
    let (after, same, all) = backwards-concat white_space before each in
    (
      after,
      sym (backwards-backwards s)
          ∙ (ap backwards split ∙ (backwards-append (concat before) u ∙ ap (backwards u ++◌) same)),
      all,
      ends-Follows white_space u stops,
    )

-- `strings.TrimSpace` takes the white space at both ends, and all of it.
pub trim_space-Trimmed : (s : Str) → Trimmed s (trim_space s)
unfolding trim_space
trim_space-Trimmed s =
    let u = trim_front white_space (length s) s in
    let (before, split, each, stops) =
      trim_front-Follows white_space (length s) s (ground arith) (omega arith) in
    let (after, same, all, ends) = trim_back_lem u in
    (
      before,
      after,
      split ∙ ap (concat before ++◌) same,
      each,
      all,
      begins-Follows white_space u (trim_back u) (concat after) same stops,
      ends,
    )
