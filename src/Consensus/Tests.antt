-- ===== src/Consensus/Tests.antt =====
-- Runs of the state machine of internal/consensus/raft.go, and its theorems at concrete logs.
use p2papp.Prelude.{
  ◌≡◌, ◌≢◌, refl, true, false, none, some, Option, List, [], ◌∷◌, ◌++◌, arith, ℕ, Str, str_dec,
  codes, holds, if◌then◌else◌,
}
use p2papp.Assoc
use p2papp.Consensus.{
  Codec, op_set, new_fsm, set_key, delete_key, apply_command, apply_parsed, apply_entry, replay,
  get_key, copy_loop, copy_data, persist, restored, restore, Server, not_leader, Answers, join,
  join_add, join_loop, join_configured, no_configuration, remove_server, add_voter, succeeded,
}
use p2papp.Consensus.Replay
use p2papp.Consensus.Replay.{register}
use p2papp.Consensus.Snapshots
use p2papp.Consensus.Snapshots.{IsLawful, map_value}
use p2papp.Consensus.Cluster
use p2papp.Consensus.Cluster.{find_server, expected, all_granted, members, placed}
use p2papp.Wire.{encode_command, decode_command, encode_map, decode_map, decode_map-encode_map}

program : Unit {0}
unfolding new_fsm set_key delete_key apply_command apply_parsed apply_entry replay get_key copy_loop
    copy_data persist restored restore join join_add join_loop join_configured str_dec Assoc.get
    Assoc.put Assoc.remove
program = tt

-- Entries that are commands already.
abbrev codec : Codec ℕ
codec = record {
  marshal_command = λ c. some (encode_command c);
  unmarshal_command = decode_command;
  marshal_map = λ d. some (encode_map d);
  decode_map = decode_map;
}

map_value_id : (o : Option ℕ) → o ≡ map_value (λ v. v) o
map_value_id none = refl
map_value_id (some v) = refl

codec-IsLawful : IsLawful ℕ codec
codec-IsLawful = record {
  reread = λ v. v;
  unmarshal_fixed = λ e c h. refl;
  decode-marshal =
      λ m b e. (m, ground (arith, decode_map-encode_map m), λ k. map_value_id (Assoc.get k m));
}

abbrev set_a : List ℕ
set_a = encode_command (record { op = op_set; key = codes "a"; value = 7 })

abbrev log : List (List ℕ)
log = set_a ∷ [] ∷ []

get_key-replay_example :
    (get_key (codes "a") (replay codec log new_fsm) ≡ register codec (codes "a") log none)
    × (replay codec log new_fsm ≢ none)
get_key-replay_example = Replay.get_key-replay codec log (codes "a")

get_key-restore_example :
    get_key
      (codes "a")
      (replay codec log (restore codec (encode_map (copy_data (replay codec log new_fsm))) none).0)
    ≡ get_key (codes "a") (replay codec (log ++ log) new_fsm)
unfolding persist
get_key-restore_example =
    Snapshots.get_key-restore codec codec-IsLawful log log
      (encode_map (copy_data (replay codec log new_fsm))) none (codes "a") refl

abbrev answers : Answers
answers = record { removed = λ id. true; added = true; log_applied = true }

abbrev servers : List Server
servers = record { id = codes "n"; address = codes "h1" } ∷ []

join_moves :
    join true (some servers) answers (codes "n") (codes "h2")
    ≡ (remove_server (codes "n") ∷ add_voter (codes "n") (codes "h2") ∷ [], succeeded)
unfolding program
join_moves = refl

join_lem_example :
    (join false none answers (codes "n") (codes "h2") ≡ ([], not_leader))
    × (join true none answers (codes "n") (codes "h2") ≡ ([], no_configuration))
    × (join true (some servers) answers (codes "n") (codes "h2")
        ≡ expected answers (codes "n") (codes "h2") (find_server (codes "n") servers))
    × ((j : Str)
        → all_granted answers
            (join true (some servers) answers (codes "n") (codes "h2")).0
            (members servers)
            j
          ≡ (if holds (str_dec (codes "n") j)
              then placed
                  (join true (some servers) answers (codes "n") (codes "h2")).1
                  (codes "h2")
                  (members servers (codes "n"))
              else members servers j))
unfolding find_server
join_lem_example = Cluster.join_lem answers (codes "n") (codes "h2") servers none (refl, tt)
