-- ===== src/Router/Selection.antt =====
-- `GetNode` and `GetNodes` of internal/relay/router.go: what they can return.
use p2papp.Prelude.{
  ℕ, zero, suc, ◌<◌, ◌≡◌, ◌≢◌, refl, sym, ap, subst, ◌∙◌, Bool, true, false, some, none, List, [],
  ◌∷◌, ◌++◌, inl, inr, ◌⊎◌, arith, Str, str_dec, In, All, replicate, Option-cases, Bool-cases,
  if◌then◌else◌, rounds64, mul64,
}
use p2papp.Assoc
use p2papp.Assoc.{Assoc, Unique}
use p2papp.Router.{
  Hashring, NodeInfo, Router, node_list, virtual_nodes, weight_of, known, get_node, seen,
  append_known, dedup, dedup_found, get_nodes,
}
use p2papp.Router.Invariant.{IsValid}

-- What the ring package promises: a key is given to a member of the ring, and to one whenever the
-- ring has members; a list of members for a key has members only.
pub record IsLawful (h : Hashring) : Type 0 where
  pub get_node-In : (l : List Str) (k i : Str) → h.get_node (h.new l) k ≡ some i → In i l
  pub get_node_nonempty : (i : Str) (l : List Str) (k : Str) → h.get_node (h.new (i ∷ l)) k ≢ none
  pub get_nodes-All :
      (l : List Str) (k : Str) (n : ℕ) (is : List Str)
      → h.get_nodes (h.new l) k n ≡ some is
      → All (λ i. In i l) is

In-append : (i : Str) (xs ys : List Str) → In i (xs ++ ys) → In i xs ⊎ In i ys
In-append i [] ys h = inr h
In-append i (x ∷ xs) ys (inl e) = inl (inl e)
In-append i (x ∷ xs) ys (inr h) = elim (In-append i xs ys h) [ inl a ↦ inl (inr a) | inr b ↦ inr b ]

In-replicate : (i j : Str) (n : ℕ) → In i (replicate n j) → i ≡ j
In-replicate i j zero h = absurd h
In-replicate i j (suc n) (inl e) = e
In-replicate i j (suc n) (inr h) = In-replicate i j n h

In-virtual_nodes :
    (i : Str) (replicas : ℕ) (n : NodeInfo)
    → In i (virtual_nodes replicas n)
    → (i ≡ n.id) × (n.healthy ≡ true)
unfolding virtual_nodes
In-virtual_nodes i replicas n h = go n.healthy refl
  where
    go : (b : Bool) → n.healthy ≡ b → (i ≡ n.id) × (n.healthy ≡ true)
    go true e = (
      In-replicate i n.id _ (
          subst
            (λ b. In i (if b then replicate (rounds64 (mul64 (weight_of n) replicas)) n.id else []))
            e h),
      e,
    )
    go false e = absurd (
        subst
          (λ b. In i (if b then replicate (rounds64 (mul64 (weight_of n) replicas)) n.id else [])) e
          h)

-- An id of the list is that of a healthy node of the map.
In-node_list :
    (i : Str) (replicas : ℕ) (m : Assoc NodeInfo)
    → Unique m
    → ((k : Str) (n : NodeInfo) → Assoc.get k m ≡ some n → n.id ≡ k)
    → In i (node_list replicas m)
    → (n : NodeInfo) × (Assoc.get i m ≡ some n) × (n.healthy ≡ true)
unfolding node_list Assoc.get
In-node_list i replicas [] u keyed h = absurd h
In-node_list i replicas ((k, n) ∷ m) u keyed h =
    let same : n.id ≡ k = keyed k n (ground arith) in
    elim (In-append i (virtual_nodes replicas n) (node_list replicas m) h) [
      | inl here ↦ let (e, well) = In-virtual_nodes i replicas n here in (n, ground arith, well)
      | inr there ↦
          let (n', found, well) =
            In-node_list i replicas m u.1 (λ j n'' p. keyed j n'' (ground arith)) there in
          (n', ground arith, well)
    ]

-- `GetNode` returns a registered, healthy node, if any.
pub get_node_sound :
    (h : Hashring) (key : Str) (r : Router h.Ring) (n : NodeInfo)
    → IsLawful h
    → IsValid h r
    → get_node h key r ≡ some n
    → (Assoc.get n.id r.nodes ≡ some n) × (n.healthy ≡ true)
unfolding get_node known
get_node_sound h key r n l v e = elim (Option-cases (h.get_node r.ring key)) [
  | inl none_found ↦ absurd (ground arith)
  | inr (i, found) ↦
      let at : h.get_node (h.new (node_list r.replicas r.nodes)) key ≡ some i =
        ap (λ x. h.get_node x key) (sym v.ring) ∙ found in
      let (m, has, well) =
        In-node_list i r.replicas r.nodes v.unique v.keyed (l.get_node-In _ key i at) in
      let same : m.id ≡ i = v.keyed i m has in (ground arith, ground arith)
]

append-eq-nil : (xs ys : List Str) → xs ++ ys ≡ [] → (xs ≡ []) × (ys ≡ [])
append-eq-nil [] ys e = (refl, e)
append-eq-nil (x ∷ xs) ys e = cc

-- A node with a virtual node leaves the list not empty.
node_list-ne-nil :
    (k : Str) (n : NodeInfo) (replicas : ℕ) (m : Assoc NodeInfo)
    → Assoc.get k m ≡ some n
    → virtual_nodes replicas n ≢ []
    → node_list replicas m ≢ []
unfolding node_list Assoc.get
node_list-ne-nil k n replicas [] e h = cc
node_list-ne-nil k n replicas ((j, x) ∷ m) e h = λ empty.
    let (first, rest) = append-eq-nil (virtual_nodes replicas x) (node_list replicas m) empty in
    elim (str_dec j k) [
      | yes same ↦ h (ap (virtual_nodes replicas) (ground arith) ∙ first)
      | no other ↦ node_list-ne-nil k n replicas m (ground arith) h rest
    ]

virtual_nodes-ne-nil :
    (replicas : ℕ) (n : NodeInfo)
    → n.healthy ≡ true
    → 0 < rounds64 (mul64 (weight_of n) replicas)
    → virtual_nodes replicas n ≢ []
unfolding virtual_nodes
virtual_nodes-ne-nil replicas n well some_rounds = λ e.
    replicate-ne-nil (rounds64 (mul64 (weight_of n) replicas)) n.id some_rounds
      (sym (first well) ∙ e)
  where
    first :
        n.healthy ≡ true
        → virtual_nodes replicas n ≡ replicate (rounds64 (mul64 (weight_of n) replicas)) n.id
    first w = ap (λ b. if b then replicate (rounds64 (mul64 (weight_of n) replicas)) n.id else []) w

    replicate-ne-nil : (c : ℕ) (i : Str) → 0 < c → replicate c i ≢ []
    replicate-ne-nil zero i h = absurd (omega arith)
    replicate-ne-nil (suc c) i h = λ e. cc

-- While some registered node is healthy and has a virtual node, `GetNode` returns a node for
-- every key.
pub get_node_total :
    (h : Hashring) (key k : Str) (r : Router h.Ring) (n : NodeInfo)
    → IsLawful h
    → IsValid h r
    → Assoc.get k r.nodes ≡ some n
    → n.healthy ≡ true
    → 0 < rounds64 (mul64 (weight_of n) r.replicas)
    → (m : NodeInfo) × (get_node h key r ≡ some m)
unfolding get_node known
get_node_total h key k r n l v has well positive = go (node_list r.replicas r.nodes) refl
  where
    go :
        (is : List Str)
        → node_list r.replicas r.nodes ≡ is
        → (m : NodeInfo) × (get_node h key r ≡ some m)
    go [] e = absurd (
        node_list-ne-nil k n r.replicas r.nodes has
          (virtual_nodes-ne-nil r.replicas n well positive) e)
    go (i ∷ is) e = elim (Option-cases (h.get_node r.ring key)) [
      | inl missing ↦ absurd (
          l.get_node_nonempty i is key (
            ap (λ x. h.get_node (h.new x) key) (sym e)
            ∙ ap (λ x. h.get_node x key) (sym v.ring)
            ∙ missing))
      | inr (j, found) ↦
          let at : h.get_node (h.new (node_list r.replicas r.nodes)) key ≡ some j =
            ap (λ x. h.get_node x key) (sym v.ring) ∙ found in
          let (m, at_j, ok) =
            In-node_list j r.replicas r.nodes v.unique v.keyed (l.get_node-In _ key j at) in
          (m, ap (λ o. known o r.nodes) found ∙ at_j)
    ]

-- Nodes whose ids differ pairwise.
abbrev pub DistinctIds : List NodeInfo → Type 0
DistinctIds [] = Unit
DistinctIds (n ∷ ns) = All (λ (m : NodeInfo). m.id ≢ n.id) ns × DistinctIds ns

abbrev pub Serves : Assoc NodeInfo → NodeInfo → Type 0
Serves m n = (Assoc.get n.id m ≡ some n) × (n.healthy ≡ true)

Unseen : List Str → List NodeInfo → Type 0
Unseen done = All (λ (n : NodeInfo). seen n.id done ≡ false)

Unseen-tail :
    (i : Str) (done : List Str) (ns : List NodeInfo)
    → Unseen (i ∷ done) ns
    → Unseen done ns × All (λ (n : NodeInfo). n.id ≢ i) ns
unfolding Unseen seen
Unseen-tail i done [] u = (tt, tt)
Unseen-tail i done (n ∷ ns) (x, u) =
    let (a, b) = Unseen-tail i done ns u in ((ground arith, a), (λ e. ground arith, b))

dedup_lem :
    (m : Assoc NodeInfo) (done is : List Str)
    → ((i : Str) → In i is → (n : NodeInfo) × (Assoc.get i m ≡ some n) × (n.healthy ≡ true))
    → ((k : Str) (n : NodeInfo) → Assoc.get k m ≡ some n → n.id ≡ k)
    → All (Serves m) (dedup m done is)
      × DistinctIds (dedup m done is)
      × Unseen done (dedup m done is)
unfolding dedup append_known Unseen
dedup_lem m done [] has keyed = (tt, tt, tt)
dedup_lem m done (i ∷ is) has keyed = elim (Bool-cases (seen i done)) [
  | inl old ↦ rw (old, dedup) (dedup_lem m done is (λ j h. has j (inr h)) keyed)
  | inr new ↦
      let (n, at, well) = has i (inl refl) in
      let (serves, distinct, unseen) = dedup_lem m (i ∷ done) is (λ j h. has j (inr h)) keyed in
      let same : n.id ≡ i = keyed i n at in
      let (unseen', others) = Unseen-tail i done (dedup m (i ∷ done) is) unseen in
      rw (new, dedup, at, append_known)
        (((ground arith, well), serves), (rw same others, distinct), (ground arith, unseen'))
]

of_All : (P : Str → Type 0) (is : List Str) (i : Str) → All P is → In i is → P i
of_All P [] i a h = absurd h
of_All P (j ∷ is) i a (inl e) = subst P (sym e) a.0
of_All P (j ∷ is) i a (inr h) = of_All P is i a.1 h

-- `GetNodes` returns nodes that are registered and healthy, and none of them twice.
pub get_nodes_sound :
    (h : Hashring) (key : Str) (n : ℕ) (r : Router h.Ring)
    → IsLawful h
    → IsValid h r
    → All (Serves r.nodes) (get_nodes h key n r) × DistinctIds (get_nodes h key n r)
unfolding get_nodes dedup_found
get_nodes_sound h key n r l v = elim (Option-cases (h.get_nodes r.ring key n)) [
  | inl missing ↦ rw missing (tt, tt)
  | inr (is, found) ↦
      let at : h.get_nodes (h.new (node_list r.replicas r.nodes)) key n ≡ some is =
        ap (λ x. h.get_nodes x key n) (sym v.ring) ∙ found in
      let members = l.get_nodes-All _ key n is at in
      let (serves, distinct, _) =
        dedup_lem r.nodes [] is
          (λ i m.
            In-node_list i r.replicas r.nodes v.unique v.keyed
              (of_All (λ j. In j (node_list r.replicas r.nodes)) is i members m))
          v.keyed in
      rw found (serves, distinct)
]
