-- ===== src/Consensus.antt =====
-- internal/consensus/raft.go: the state machine that Raft replicates, and the requests that a node
-- makes of the cluster. The package hashicorp/raft is not modelled: what it answers is an argument.
-- JSON is a parameter, `Codec`, over the type of the values behind `interface{}`.
pub mod Replay
pub mod Snapshots
pub mod Cluster
mod Tests
use mathlib.Core.Logic.{ite}
use p2papp.Prelude.{
  Bool, true, false, Option, none, some, List, [], ◌∷◌, ◌++◌, Str, str_dec, codes, holds, ℕ,
  if◌then◌else◌,
}
use p2papp.Assoc
use p2papp.Assoc.{Assoc}

module _ (V : Type 0) where
  -- `Command`; the value that `Delete` leaves is the nil value.
  pub record Command : Type 0 where
    pub op : Str
    pub key : Str
    pub value : V

  -- A Go map: none is the nil map, which can be read and not written.
  abbrev pub Data : Type 0
  Data = Option (Assoc V)

  -- encoding/json on commands and on the data. A decoded map may be nil.
  pub record Codec : Type 0 where
    pub marshal_command : Command → Option (List ℕ)
    pub unmarshal_command : List ℕ → Option Command
    pub marshal_map : Data → Option (List ℕ)
    pub decode_map : List ℕ → Option Data

-- `OpSet`, `OpDelete`
abbrev pub op_set : Str
op_set = codes "set"

abbrev pub op_delete : Str
op_delete = codes "delete"

-- How `FSM.Apply` ends: with nil, with an error value, or in a panic on the nil map.
pub data Reply : Type 0 where
  applied unmarshal_error panics : Reply

module _ {V : Type 0} where
  -- `NewFSM`
  unfoldable pub new_fsm : Data V
  new_fsm = some []

  -- `f.data[key] = value`
  unfoldable pub set_key : Str → V → Data V → Data V × Reply
  set_key k v none = (none, panics)
  set_key k v (some m) = (some (Assoc.put k v m), applied)

  -- `delete(f.data, key)`, which does nothing on the nil map.
  unfoldable pub delete_key : Str → Data V → Data V × Reply
  delete_key k none = (none, applied)
  delete_key k (some m) = (some (Assoc.remove k m), applied)

  -- The switch of `FSM.Apply`.
  unfoldable pub apply_command : Command V → Data V → Data V × Reply
  apply_command c d =
      if holds (str_dec c.op op_set)
      then set_key c.key c.value d
      else if holds (str_dec c.op op_delete)
      then delete_key c.key d
      else (d, applied)

  -- `FSM.Apply`, from the command of the entry's bytes.
  unfoldable pub apply_parsed : Option (Command V) → Data V → Data V × Reply
  apply_parsed none d = (d, unmarshal_error)
  apply_parsed (some c) d = apply_command c d

  unfoldable pub apply_entry : Codec V → List ℕ → Data V → Data V × Reply
  apply_entry codec entry d = apply_parsed (codec.unmarshal_command entry) d

  -- The entries of a log in turn.
  unfoldable pub replay : Codec V → List (List ℕ) → Data V → Data V
  replay codec [] d = d
  replay codec (e ∷ es) d = replay codec es (apply_entry codec e d).0

  -- `FSM.Get`
  unfoldable pub get_key : Str → Data V → Option V
  get_key k none = none
  get_key k (some m) = Assoc.get k m

  -- `Snapshot`: a copy, which is never the nil map.
  unfoldable pub copy_loop : Assoc V → Assoc V → Assoc V
  copy_loop [] acc = acc
  copy_loop ((k, v) ∷ m) acc = copy_loop m (Assoc.put k v acc)

  unfoldable pub copy_data : Data V → Data V
  copy_data none = some []
  copy_data (some m) = some (copy_loop m [])

  -- `GetAll`, the same loop.
  unfoldable pub get_all : Data V → Data V
  get_all d = copy_data d

  -- `Persist`: the bytes for the sink, or none where it is cancelled; `written` is whether the
  -- sink takes them.
  unfoldable pub persist : Codec V → Bool → Data V → Option (List ℕ)
  persist codec written d = if written then codec.marshal_map d else none

  -- `Restore`: the new data, or none with the data as it was where decoding fails.
  unfoldable pub restored : Option (Data V) → Data V → Data V × Bool
  restored none d = (d, false)
  restored (some new) d = (new, true)

  unfoldable pub restore : Codec V → List ℕ → Data V → Data V × Bool
  restore codec b d = restored (codec.decode_map b) d

-- A member of the cluster's configuration.
pub record Server : Type 0 where
  pub id : Str
  pub address : Str

-- What a node asks of Raft.
pub data Request : Type 0 where
  remove_server : Str → Request
  add_voter : Str → Str → Request
  apply_log : List ℕ → Request

-- How an operation of a node ends.
pub data Outcome : Type 0 where
  succeeded not_leader no_configuration not_removed not_added not_marshalled not_applied : Outcome

-- The answers of Raft's futures: whether the removal of an id, and the addition, succeed.
pub record Answers : Type 0 where
  pub removed : Str → Bool
  pub added : Bool
  pub log_applied : Bool

-- The end of `Join`: `AddVoter`.
unfoldable pub join_add : Answers → Str → Str → List Request × Outcome
join_add a id address = (add_voter id address ∷ [], if a.added then succeeded else not_added)

abbrev pub after_request : Request → List Request × Outcome → List Request × Outcome
after_request r (rs, o) = (r ∷ rs, o)

-- `Join`, its loop over the servers of the configuration.
unfoldable pub join_loop : Answers → Str → Str → List Server → List Request × Outcome
join_loop a id address [] = join_add a id address
join_loop a id address (s ∷ ss) =
    let rest = join_loop a id address ss in
    if holds (str_dec s.id id)
    then (if holds (str_dec s.address address)
        then ([], succeeded)
        else if a.removed s.id
        then after_request (remove_server s.id) rest
        else (remove_server s.id ∷ [], not_removed))
    else rest

-- `Join`; the configuration is none where Raft returns an error for it.
unfoldable pub join_configured : Answers → Str → Str → Option (List Server) → List Request × Outcome
join_configured a id address none = ([], no_configuration)
join_configured a id address (some ss) = join_loop a id address ss

unfoldable pub join : Bool → Option (List Server) → Answers → Str → Str → List Request × Outcome
join leader configuration a id address =
    if leader then join_configured a id address configuration else ([], not_leader)

-- `Leave`
unfoldable pub leave : Bool → Answers → Str → List Request × Outcome
leave leader a id =
    if leader
    then (remove_server id ∷ [], if a.removed id then succeeded else not_removed)
    else ([], not_leader)

-- `RaftNode.Apply`, from the bytes of the command.
unfoldable pub apply_bytes : Answers → Option (List ℕ) → List Request × Outcome
apply_bytes a none = ([], not_marshalled)
apply_bytes a (some b) = (apply_log b ∷ [], if a.log_applied then succeeded else not_applied)

module _ {V : Type 0} (codec : Codec V) where
  unfoldable pub apply_node : Bool → Answers → Command V → List Request × Outcome
  apply_node leader a c =
      if leader then apply_bytes a (codec.marshal_command c) else ([], not_leader)

  -- `Set`, `Delete`; `null` is the nil value.
  unfoldable pub set_node : Bool → Answers → Str → V → List Request × Outcome
  set_node leader a k v = apply_node leader a (record { op = op_set; key = k; value = v })

  unfoldable pub delete_node : Bool → Answers → V → Str → List Request × Outcome
  delete_node leader a null k =
      apply_node leader a (record { op = op_delete; key = k; value = null })

-- `WaitForLeader`: what its loop waits for, with the leader that a tick finds, and whether it ends
-- without an error; none is a loop that still waits.
pub data Wait : Type 0 where
  tick : Str → Wait
  timeout : Wait

unfoldable pub wait_for_leader : List Wait → Option Bool
wait_for_leader [] = none
wait_for_leader (timeout ∷ ws) = some false
wait_for_leader (tick leader ∷ ws) =
    let rest = wait_for_leader ws in if holds (str_dec leader []) then rest else some true
