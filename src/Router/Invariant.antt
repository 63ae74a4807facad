-- ===== src/Router/Invariant.antt =====
-- The router of internal/relay/router.go: after every operation the ring is that of the nodes.
use p2papp.Prelude.{ℕ, ◌≡◌, refl, Bool, some, inl, inr, arith, Str, Option-cases}
use p2papp.Assoc
use p2papp.Assoc.{Assoc, Unique, get-put, get-remove, put-Unique, remove-Unique}
use p2papp.Router.{
  Hashring, NodeInfo, Router, node_list, new_router, rebuild_ring, add_node, remove_node,
  update_node, set_found, set_healthy,
}

pub record IsValid (h : Hashring) (r : Router h.Ring) : Type 0 where
  pub ring : r.ring ≡ h.new (node_list r.replicas r.nodes)
  pub keyed : (k : Str) (n : NodeInfo) → Assoc.get k r.nodes ≡ some n → n.id ≡ k
  pub unique : Unique r.nodes

pub data Call : Type 0 where
  adds : NodeInfo → Call
  removes : Str → Call
  updates : NodeInfo → Call
  sets : Str → Bool → Call

module _ (h : Hashring) where
  -- The router after a call.
  unfoldable pub after : Call → Router h.Ring → Router h.Ring
  after (adds n) r = add_node h n r
  after (removes i) r = remove_node h i r
  after (updates n) r = update_node h n r
  after (sets i b) r = set_healthy h i b r

  put-IsValid :
      (i : Str) (n : NodeInfo) (r : Router h.Ring)
      → n.id ≡ i
      → IsValid h r
      → IsValid h (rebuild_ring h (record r { nodes = Assoc.put i n r.nodes }))
  unfolding rebuild_ring
  put-IsValid i n r e v = record {
    ring = refl;
    keyed = λ k m p. ground (arith, get-put k i n r.nodes, v.keyed k m);
    unique = put-Unique i n r.nodes v.unique;
  }

  pub new_router-IsValid : (replicas : ℕ) → IsValid h (new_router h replicas)
  unfolding new_router node_list Assoc.get
  new_router-IsValid replicas = record { ring = refl; keyed = λ k n e. cc; unique = tt }

  -- Every operation leaves the ring built from exactly the nodes that are registered and healthy
  -- now, each node under its own id and at most once.
  pub after-IsValid : (call : Call) (r : Router h.Ring) → IsValid h r → IsValid h (after call r)
  unfolding after add_node remove_node update_node set_healthy set_found rebuild_ring
  after-IsValid (adds n) r v = put-IsValid n.id n r refl v
  after-IsValid (updates n) r v = put-IsValid n.id n r refl v
  after-IsValid (removes i) r v = record {
    ring = refl;
    keyed = λ k m p. ground (arith, get-remove k i r.nodes, v.keyed k m);
    unique = remove-Unique i r.nodes v.unique;
  }
  after-IsValid (sets i b) r v = elim (Option-cases (Assoc.get i r.nodes)) [
    | inl e ↦ rw (e, set_healthy, set_found) v
    | inr (n, e) ↦
        rw (e, set_healthy, set_found)
          (put-IsValid i (record n { healthy = b }) r (v.keyed i n e) v)
  ]
