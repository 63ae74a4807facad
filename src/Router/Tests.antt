-- ===== src/Router/Tests.antt =====
-- The theorems on the router of internal/relay/router.go at concrete routers.
use p2papp.Prelude.{
  ℕ, suc, ◌≡◌, refl, true, false, Option, none, some, List, [], ◌∷◌, inl, inr, arith, Str, In, All,
  str_dec, str_lt, codes, take, lt64, mul64, rounds64,
}
use p2papp.Assoc
use p2papp.Router.{
  Hashring, NodeInfo, Router, weight_of, virtual_nodes, node_list, new_router, rebuild_ring,
  add_node, get_node, known, get_nodes,
}
use p2papp.Router.Invariant
use p2papp.Router.Invariant.{IsValid, after}
use p2papp.Router.Selection
use p2papp.Router.Selection.{IsLawful, Serves, DistinctIds}

program : Unit {0}
unfolding weight_of virtual_nodes node_list new_router rebuild_ring add_node get_node known str_dec
    str_lt lt64 mul64 rounds64 Assoc.get Assoc.put Assoc.remove
program = tt

first : List Str → Option Str
first [] = none
first (i ∷ l) = some i

-- A ring that gives every key to the first member, and the first members to every list.
abbrev ring : Hashring
ring = record {
  Ring = List Str;
  new = λ l. l;
  get_node = λ l k. first l;
  get_nodes = λ l k n. some (take n l);
}

first-In : (l : List Str) (i : Str) → first l ≡ some i → In i l
unfolding first
first-In [] i e = cc
first-In (j ∷ l) i e = inl (ground arith)

All-take : (P : Str → Type 0) (n : ℕ) (l : List Str) → All P l → All P (take n l)
All-take P ℕ.zero l a = tt
All-take P (suc n) [] a = tt
All-take P (suc n) (i ∷ l) a = (a.0, All-take P n l a.1)

All-weaken : (P Q : Str → Type 0) (l : List Str) → ((i : Str) → P i → Q i) → All P l → All Q l
All-weaken P Q [] f a = tt
All-weaken P Q (i ∷ l) f a = (f i a.0, All-weaken P Q l f a.1)

All-In : (l : List Str) → All (λ i. In i l) l
All-In [] = tt
All-In (i ∷ l) =
    (inl refl, All-weaken (λ j. In j l) (λ j. In j (i ∷ l)) l (λ j h. inr h) (All-In l))

get_nodes_members :
    (l : List Str) (n : ℕ) (is : List Str) → some (take n l) ≡ some is → All (λ i. In i l) is
get_nodes_members l n is e =
    let same : take n l ≡ is = cc in rw same at (All-take (λ i. In i l) n l (All-In l))

ring-IsLawful : IsLawful ring
unfolding first
ring-IsLawful = record {
  get_node-In = λ l k i e. first-In l i e;
  get_node_nonempty = λ i l k e. cc;
  get_nodes-All = λ l k n is e. get_nodes_members l n is e;
}

abbrev node : Str → NodeInfo
node i = record { id = i; address = []; weight = 1; healthy = true; load = 0; capacity = 9 }

abbrev one : Router (List Str)
one = record {
  ring = codes "n" ∷ codes "n" ∷ [];
  nodes = (codes "n", node (codes "n")) ∷ [];
  replicas = 2;
}

one_run : add_node ring (node (codes "n")) (new_router ring 2) ≡ one
unfolding program
one_run = refl

one-IsValid : IsValid ring one
unfolding program
one-IsValid = record { ring = refl; keyed = λ k n e. ground arith; unique = (refl, tt) }

after-IsValid_example : IsValid ring (after ring (Invariant.Call.sets (codes "n") false) one)
after-IsValid_example =
    Invariant.after-IsValid ring (Invariant.Call.sets (codes "n") false) one one-IsValid

get_node_total_example : (m : NodeInfo) × (get_node ring (codes "k") one ≡ some m)
unfolding program
get_node_total_example =
    Selection.get_node_total ring (codes "k") (codes "n") one (node (codes "n")) ring-IsLawful
      one-IsValid refl refl (omega arith)

get_nodes_sound_example :
    All (Serves one.nodes) (get_nodes ring (codes "k") 2 one)
    × DistinctIds (get_nodes ring (codes "k") 2 one)
get_nodes_sound_example = Selection.get_nodes_sound ring (codes "k") 2 one ring-IsLawful one-IsValid
