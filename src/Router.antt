-- ===== src/Router.antt =====
-- internal/relay/router.go: the router over a consistent hash ring. The ring is the package
-- serialx/hashring, a parameter, `Hashring`.
pub mod Invariant
pub mod Selection
pub mod Listing
mod Tests
use p2papp.Prelude.{
  ℕ, suc, Bool, true, false, Option, none, some, List, [], ◌∷◌, ◌++◌, map, Str, str_dec, str_lt,
  codes, holds, ◌||◌, length, replicate, lt64, mul64, rounds64, if◌then◌else◌,
}
use p2papp.Assoc
use p2papp.Assoc.{Assoc}

-- `hashring.New`, `GetNode` and `GetNodes`; `none` is a result that is not ok.
pub record Hashring : Type 1 where
  pub Ring : Type 0
  pub new : List Str → Ring
  pub get_node : Ring → Str → Option Str
  pub get_nodes : Ring → Str → ℕ → Option (List Str)

-- `NodeInfo`
pub record NodeInfo : Type 0 where
  pub id : Str
  pub address : Str
  pub weight : ℕ
  pub healthy : Bool
  pub load : ℕ
  pub capacity : ℕ

-- `ConsistentHashRouter`
pub record Router (Ring : Type 0) : Type 0 where
  pub ring : Ring
  pub nodes : Assoc NodeInfo
  pub replicas : ℕ

-- The weight of a node in `rebuildRing`: 1 where it is not positive.
unfoldable pub weight_of : NodeInfo → ℕ
weight_of n = if lt64 0 n.weight then n.weight else 1

-- The virtual nodes of a node, and the loop of `rebuildRing` over a range of the map.
unfoldable pub virtual_nodes : ℕ → NodeInfo → List Str
virtual_nodes replicas n =
    if n.healthy then replicate (rounds64 (mul64 (weight_of n) replicas)) n.id else []

unfoldable pub node_list : ℕ → Assoc NodeInfo → List Str
node_list replicas [] = []
node_list replicas ((k, n) ∷ m) = virtual_nodes replicas n ++ node_list replicas m

-- `GetNodes`, its loop: the nodes of the ids, each once.
unfoldable pub seen : Str → List Str → Bool
seen i [] = false
seen i (j ∷ js) = holds (str_dec i j) || seen i js

unfoldable pub append_known : Option NodeInfo → List NodeInfo → List NodeInfo
append_known none ns = ns
append_known (some n) ns = n ∷ ns

unfoldable pub dedup : Assoc NodeInfo → List Str → List Str → List NodeInfo
dedup m done [] = []
dedup m done (i ∷ is) =
    let again = dedup m done is in
    let rest = dedup m (i ∷ done) is in
    if seen i done then again else append_known (Assoc.get i m) rest

-- The values of the map, and those that are healthy.
unfoldable pub values : Assoc NodeInfo → List NodeInfo
values [] = []
values ((k, n) ∷ m) = n ∷ values m

unfoldable pub healthy_values : Assoc NodeInfo → List NodeInfo
healthy_values [] = []
healthy_values ((k, n) ∷ m) = if n.healthy then n ∷ healthy_values m else healthy_values m

-- `sort.Slice` by id. The ids of the map's nodes differ, so that the order is determined.
unfoldable pub insert_node : NodeInfo → List NodeInfo → List NodeInfo
insert_node n [] = n ∷ []
insert_node n (m ∷ ms) = if str_lt m.id n.id then m ∷ insert_node n ms else n ∷ m ∷ ms

unfoldable pub sort_nodes : List NodeInfo → List NodeInfo
sort_nodes [] = []
sort_nodes (n ∷ ns) = insert_node n (sort_nodes ns)

-- `GetShardKey`
unfoldable pub get_shard_key : Str → Str → Str
get_shard_key data_type id = data_type ++ (codes ":" ++ id)

-- `GetNode`, from the id that the ring gives.
unfoldable pub known : Option Str → Assoc NodeInfo → Option NodeInfo
known none m = none
known (some i) m = Assoc.get i m

-- `GetNodes`, from the ids that the ring gives.
unfoldable pub dedup_found : Assoc NodeInfo → Option (List Str) → List NodeInfo
dedup_found m none = []
dedup_found m (some is) = dedup m [] is

module _ (h : Hashring) where
  open h use {Ring}

  -- `NewConsistentHashRouter`
  unfoldable pub new_router : ℕ → Router Ring
  new_router replicas = record { ring = h.new []; nodes = []; replicas = replicas }

  -- `rebuildRing`
  unfoldable pub rebuild_ring : Router Ring → Router Ring
  rebuild_ring r = record r { ring = h.new (node_list r.replicas r.nodes) }

  -- `AddNode`
  unfoldable pub add_node : NodeInfo → Router Ring → Router Ring
  add_node n r = rebuild_ring (record r { nodes = Assoc.put n.id n r.nodes })

  -- `RemoveNode`
  unfoldable pub remove_node : Str → Router Ring → Router Ring
  remove_node i r = rebuild_ring (record r { nodes = Assoc.remove i r.nodes })

  -- `UpdateNode`
  unfoldable pub update_node : NodeInfo → Router Ring → Router Ring
  update_node n r = rebuild_ring (record r { nodes = Assoc.put n.id n r.nodes })

  -- `SetHealthy`
  unfoldable pub set_found : Str → Bool → Option NodeInfo → Router Ring → Router Ring
  set_found i healthy none r = r
  set_found i healthy (some n) r =
      rebuild_ring (record r { nodes = Assoc.put i (record n { healthy = healthy }) r.nodes })

  unfoldable pub set_healthy : Str → Bool → Router Ring → Router Ring
  set_healthy i healthy r = set_found i healthy (Assoc.get i r.nodes) r

  -- `GetNode`
  unfoldable pub get_node : Str → Router Ring → Option NodeInfo
  get_node key r = known (h.get_node r.ring key) r.nodes

  -- `GetNodes`
  unfoldable pub get_nodes : Str → ℕ → Router Ring → List NodeInfo
  get_nodes key n r = dedup_found r.nodes (h.get_nodes r.ring key n)

  -- `GetAllNodes`
  unfoldable pub get_all_nodes : Router Ring → List NodeInfo
  get_all_nodes r = sort_nodes (values r.nodes)

  -- `GetHealthyNodes`
  unfoldable pub get_healthy_nodes : Router Ring → List NodeInfo
  get_healthy_nodes r = healthy_values r.nodes

  -- `NodeCount`
  unfoldable pub node_count : Router Ring → ℕ
  node_count r = length r.nodes
