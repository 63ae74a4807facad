-- ===== src/Path/Joining.antt =====
-- `Join` of a rooted path with a path of given components.
use mathlib.Core.List.{append_assoc}
use p2papp.Prelude.{
  ◌≡◌, ◌≢◌, refl, ap, sym, ◌∙◌, true, List, [], ◌∷◌, ◌++◌, Str, str_dec, All, arith,
}
use p2papp.Path.{slash, dots, dot, split_path, resolve, render, rooted_path, clean, join}

-- A component with no slash, and one that is no empty, `.` or `..` either.
abbrev pub NoSlash : Str → Type 0
NoSlash s = All (λ c. c ≢ slash) s

abbrev pub IsPlain : Str → Type 0
IsPlain s = NoSlash s × (s ≢ []) × (s ≢ dot) × (s ≢ dots)

-- Components in their order, as a path with slashes between them.
abbrev pub path_of : List Str → Str
path_of [] = []
path_of (s ∷ []) = s
path_of (s ∷ t ∷ ss) = s ++ slash ∷ path_of (t ∷ ss)

split_path-append :
    (s rest : Str) → NoSlash s → split_path (s ++ slash ∷ rest) ≡ s ∷ split_path rest
unfolding split_path
split_path-append [] rest n = refl
split_path-append (c ∷ s) rest n = ground (arith, split_path-append s rest n.1, n.0)

split_path_plain : (s : Str) → NoSlash s → split_path s ≡ s ∷ []
unfolding split_path
split_path_plain [] n = refl
split_path_plain (c ∷ s) n = ground (arith, split_path_plain s n.1, n.0)

split_path-path_of :
    (s : Str) (ss : List Str) → All NoSlash (s ∷ ss) → split_path (path_of (s ∷ ss)) ≡ s ∷ ss
split_path-path_of s [] n = split_path_plain s n.0
split_path-path_of s (t ∷ ss) n =
    split_path-append s (path_of (t ∷ ss)) n.0 ∙ ap (s ∷◌) (split_path-path_of t ss n.1)

-- Plain components are pushed.
abbrev pub pushed : List Str → List Str → List Str
pushed [] stack = stack
pushed (s ∷ ss) stack = pushed ss (s ∷ stack)

resolve-plain :
    (stack cs rest : List Str)
    → All IsPlain cs
    → resolve true stack (cs ++ rest) ≡ resolve true (pushed cs stack) rest
unfolding resolve
resolve-plain stack [] rest p = refl
resolve-plain stack (c ∷ cs) rest p =
    ground (arith, p.0.1, p.0.2, p.0.3, resolve-plain (c ∷ stack) cs rest p.1)

render-pushed_onto :
    (c s : Str) (cs stack : List Str)
    → render (pushed (c ∷ cs) (s ∷ stack)) ≡ render (s ∷ stack) ++ slash ∷ path_of (c ∷ cs)
unfolding render
render-pushed_onto c s [] stack = refl
render-pushed_onto c s (d ∷ cs) stack =
    render-pushed_onto d c cs (s ∷ stack)
    ∙ append_assoc (render (s ∷ stack)) (slash ∷ c) (slash ∷ path_of (d ∷ cs))

render-pushed : (c : Str) (cs : List Str) → render (pushed (c ∷ cs) []) ≡ path_of (c ∷ cs)
unfolding render
render-pushed c [] = refl
render-pushed c (d ∷ cs) = render-pushed_onto d c cs []

path_of-append :
    (c r : Str) (cs rs : List Str)
    → path_of (c ∷ cs) ++ slash ∷ path_of (r ∷ rs) ≡ path_of (c ∷ (cs ++ r ∷ rs))
path_of-append c r [] rs = refl
path_of-append c r (d ∷ cs) rs =
    append_assoc c (slash ∷ path_of (d ∷ cs)) (slash ∷ path_of (r ∷ rs))
    ∙ ap (λ p. c ++ slash ∷ p) (path_of-append d r cs rs)

All-NoSlash-append : (cs rs : List Str) → All IsPlain cs → All NoSlash rs → All NoSlash (cs ++ rs)
All-NoSlash-append [] rs p n = n
All-NoSlash-append (c ∷ cs) rs p n = (p.0.0, All-NoSlash-append cs rs p.1 n)

-- A rooted path of plain components.
abbrev pub root_path : List Str → Str
root_path cs = slash ∷ path_of cs

-- `Join` of a rooted path and a relative one: the components of the second are resolved over those
-- of the first.
pub join-root_path :
    (c r : Str) (cs rs : List Str)
    → All IsPlain (c ∷ cs)
    → All NoSlash (r ∷ rs)
    → join (root_path (c ∷ cs)) (path_of (r ∷ rs))
      ≡ rooted_path (resolve true (pushed (c ∷ cs) []) (r ∷ rs))
unfolding join clean split_path
join-root_path c r cs rs p n =
    ap (λ t. rooted_path (resolve true [] ([] ∷ split_path t))) (path_of-append c r cs rs)
    ∙ (ap (λ t. rooted_path (resolve true [] ([] ∷ t)))
          (split_path-path_of c (cs ++ r ∷ rs) (All-NoSlash-append (c ∷ cs) (r ∷ rs) p n))
        ∙ ap rooted_path (skip (c ∷ (cs ++ r ∷ rs)) ∙ resolve-plain [] (c ∷ cs) (r ∷ rs) p))
  where
    skip : (t : List Str) → resolve true [] ([] ∷ t) ≡ resolve true [] t
    skip t = unfold resolve in ground arith

pushed-append : (cs rs stack : List Str) → pushed (cs ++ rs) stack ≡ pushed rs (pushed cs stack)
pushed-append [] rs stack = refl
pushed-append (c ∷ cs) rs stack = pushed-append cs rs (c ∷ stack)

-- Of plain components `Join` makes a path of all of them.
pub join-root_path_plain :
    (c r : Str) (cs : List Str)
    → All IsPlain (c ∷ cs)
    → IsPlain r
    → join (root_path (c ∷ cs)) r ≡ root_path (c ∷ (cs ++ r ∷ []))
unfolding rooted_path resolve
join-root_path_plain c r cs p q =
    join-root_path c r cs [] p (q.0, tt)
    ∙ (ap rooted_path (last_pushed (pushed (c ∷ cs) []))
        ∙ (ap rooted_path (sym (pushed-append (c ∷ cs) (r ∷ []) []))
            ∙ ap (slash ∷◌) (render-pushed c (cs ++ r ∷ []))))
  where
    last_pushed : (stack : List Str) → resolve true stack (r ∷ []) ≡ r ∷ stack
    last_pushed stack = ground (arith, q.1, q.2, q.3)

-- Two components `..` lead from a directory two levels below another to that other one.
pub join-up_two :
    (c a b r : Str) (cs : List Str)
    → All IsPlain (c ∷ cs)
    → IsPlain a
    → IsPlain b
    → IsPlain r
    → join (root_path (c ∷ (cs ++ a ∷ b ∷ []))) (path_of (dots ∷ dots ∷ r ∷ []))
      ≡ root_path (c ∷ (cs ++ r ∷ []))
unfolding rooted_path resolve str_dec
join-up_two c a b r cs p pa pb pr =
    join-root_path c dots (cs ++ a ∷ b ∷ []) (dots ∷ r ∷ []) (all_plain (c ∷ cs) p)
      (dots_no_slash, (dots_no_slash, (pr.0, tt)))
    ∙ (ap (λ t. rooted_path (resolve true t (dots ∷ dots ∷ r ∷ [])))
          (pushed-append (c ∷ cs) (a ∷ b ∷ []) [])
        ∙ (ap rooted_path (up (pushed (c ∷ cs) []))
            ∙ (ap rooted_path (sym (pushed-append (c ∷ cs) (r ∷ []) []))
                ∙ ap (slash ∷◌) (render-pushed c (cs ++ r ∷ [])))))
  where
    dots_no_slash : NoSlash dots
    dots_no_slash = ((λ e. absurd (omega arith)), ((λ e. absurd (omega arith)), tt))

    all_plain : (l : List Str) → All IsPlain l → All IsPlain (l ++ a ∷ b ∷ [])
    all_plain [] q = (pa, (pb, tt))
    all_plain (x ∷ l) q = (q.0, all_plain l q.1)

    up : (stack : List Str) → resolve true (b ∷ a ∷ stack) (dots ∷ dots ∷ r ∷ []) ≡ r ∷ stack
    up stack = ground (arith, pa.3, pb.3, pr.1, pr.2, pr.3)
