-- ===== src/Router/Listing.antt =====
-- `GetAllNodes` and `GetHealthyNodes` of internal/relay/router.go.
use mathlib.Core.List.{Perm}
use mathlib.Core.List.Perm
use p2papp.Prelude.{
  ◌≡◌, refl, true, false, List, [], ◌∷◌, inl, inr, arith, Str, str_lt, All, Bool-cases,
}
use p2papp.Router.{Hashring, NodeInfo, Router, values, insert_node, sort_nodes, get_all_nodes}

-- In the order of the ids: no node is behind one with a greater id.
abbrev pub Sorted : List NodeInfo → Type 0
Sorted [] = Unit
Sorted (n ∷ ns) = All (λ (m : NodeInfo). str_lt m.id n.id ≡ false) ns × Sorted ns

str_lt_asym : (a b : Str) → str_lt a b ≡ true → str_lt b a ≡ false
unfolding str_lt
str_lt_asym [] [] h = cc
str_lt_asym [] (y ∷ ys) h = refl
str_lt_asym (x ∷ xs) [] h = cc
str_lt_asym (x ∷ xs) (y ∷ ys) h = ground (arith, str_lt_asym xs ys)

-- a ≤ b and b ≤ c give a ≤ c, with a ≤ b as: not b < a.
str_le_trans : (a b c : Str) → str_lt b a ≡ false → str_lt c b ≡ false → str_lt c a ≡ false
unfolding str_lt
str_le_trans [] b [] h k = refl
str_le_trans [] b (z ∷ zs) h k = refl
str_le_trans (x ∷ xs) [] c h k = cc
str_le_trans (x ∷ xs) (y ∷ ys) [] h k = cc
str_le_trans (x ∷ xs) (y ∷ ys) (z ∷ zs) h k = ground (arith, str_le_trans xs ys zs)

All-trans :
    (n m : NodeInfo) (ms : List NodeInfo)
    → str_lt m.id n.id ≡ false
    → All (λ (x : NodeInfo). str_lt x.id m.id ≡ false) ms
    → All (λ (x : NodeInfo). str_lt x.id n.id ≡ false) ms
All-trans n m [] h a = tt
All-trans n m (x ∷ ms) h a = (str_le_trans n.id m.id x.id h a.0, All-trans n m ms h a.1)

All-insert_node :
    (P : NodeInfo → Type 0) (n : NodeInfo) (ms : List NodeInfo)
    → P n
    → All P ms
    → All P (insert_node n ms)
unfolding insert_node
All-insert_node P n [] p a = (p, tt)
All-insert_node P n (m ∷ ms) p a = elim (Bool-cases (str_lt m.id n.id)) [
  | inl less ↦ rw less (a.0, All-insert_node P n ms p a.1)
  | inr not_less ↦ rw not_less (p, a)
]

insert_node-Sorted : (n : NodeInfo) (ms : List NodeInfo) → Sorted ms → Sorted (insert_node n ms)
unfolding insert_node
insert_node-Sorted n [] s = (tt, tt)
insert_node-Sorted n (m ∷ ms) s = elim (Bool-cases (str_lt m.id n.id)) [
  | inl less ↦ rw less (
    All-insert_node (λ (x : NodeInfo). str_lt x.id m.id ≡ false) n ms (str_lt_asym m.id n.id less)
        s.0,
    insert_node-Sorted n ms s.1,
  )
  | inr not_less ↦ rw not_less ((not_less, All-trans n m ms not_less s.0), s)
]

insert_node-perm : (n : NodeInfo) (ms : List NodeInfo) → Perm (insert_node n ms) (n ∷ ms)
unfolding insert_node
insert_node-perm n [] = Perm.refl _
insert_node-perm n (m ∷ ms) = elim (Bool-cases (str_lt m.id n.id)) [
  | inl less ↦ rw less (Perm.trans (Perm.cons m (insert_node-perm n ms)) (Perm.swap n m ms))
  | inr not_less ↦ rw not_less (Perm.refl _)
]

sort_nodes_lem : (ns : List NodeInfo) → Sorted (sort_nodes ns) × Perm (sort_nodes ns) ns
unfolding sort_nodes
sort_nodes_lem [] = (tt, Perm.refl [])
sort_nodes_lem (n ∷ ns) =
    let (s, p) = sort_nodes_lem ns in
    (
      insert_node-Sorted n (sort_nodes ns) s,
      Perm.trans (insert_node-perm n (sort_nodes ns)) (Perm.cons n p),
    )

-- `GetAllNodes` returns exactly the registered nodes, in the order of their ids, whatever the
-- order in which the map gives them.
pub get_all_nodes_lem :
    (h : Hashring) (r : Router h.Ring)
    → Sorted (get_all_nodes h r) × Perm (get_all_nodes h r) (values r.nodes)
unfolding get_all_nodes
get_all_nodes_lem h r = sort_nodes_lem (values r.nodes)
