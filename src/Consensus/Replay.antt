-- ===== src/Consensus/Replay.antt =====
-- The replicated map of internal/consensus/raft.go: what a log leaves, and snapshots of it.
use mathlib.Core.Logic.{ite}
use p2papp.Prelude.{
  ◌≡◌, ◌≢◌, refl, sym, ap, ◌∙◌, Option, none, some, List, [], ◌∷◌, ◌++◌, arith, ℕ, Str, str_dec,
  holds, if◌then◌else◌,
}
use p2papp.Assoc
use p2papp.Assoc.{Assoc, Unique, get-put, get-remove, put-Unique, remove-Unique}
use p2papp.Consensus.{
  Command, Data, Codec, op_set, op_delete, panics, new_fsm, set_key, delete_key, apply_command,
  apply_parsed, apply_entry, replay, get_key,
}

module _ {V : Type 0} where
  -- What one command does to the value at a key.
  unfoldable pub register_step : Str → Option (Command V) → Option V → Option V
  register_step k none old = old
  register_step k (some c) old =
      if holds (str_dec c.op op_set)
      then ite (str_dec c.key k) (some c.value) old
      else if holds (str_dec c.op op_delete)
      then ite (str_dec c.key k) none old
      else old

  -- The value at a key after the entries of a log, the key taken for itself.
  unfoldable pub register : Codec V → Str → List (List ℕ) → Option V → Option V
  register codec k [] old = old
  register codec k (e ∷ es) old =
      register codec k es (register_step k (codec.unmarshal_command e) old)

  -- The map after a command that does not meet the nil map.
  apply_parsed_lem :
      (o : Option (Command V)) (m : Assoc V)
      → (m' : Assoc V) × ((apply_parsed o (some m)).0 ≡ some m')
        × ((apply_parsed o (some m)).1 ≢ panics)
        × ((k : Str) → Assoc.get k m' ≡ register_step k o (Assoc.get k m))
        × (Unique m → Unique m')
  unfolding apply_parsed apply_command set_key delete_key register_step
  apply_parsed_lem none m = (m, refl, (λ e. cc), (λ k. refl), λ u. u)
  apply_parsed_lem (some c) m = elim (str_dec c.op op_set) [
    | yes set ↦ (
      Assoc.put c.key c.value m,
      ground arith,
      (λ e. ground arith),
      (λ k. ground (arith, get-put k c.key c.value m)),
      put-Unique c.key c.value m,
    )
    | no not_set ↦ elim (str_dec c.op op_delete) [
      | yes del ↦ (
        Assoc.remove c.key m,
        ground arith,
        (λ e. ground arith),
        (λ k. ground (arith, get-remove k c.key m)),
        remove-Unique c.key m,
      )
      | no not_del ↦ (m, ground arith, (λ e. ground arith), (λ k. ground arith), λ u. u)
    ]
  ]

  module _ (codec : Codec V) where
    pub replay_lem :
        (log : List (List ℕ)) (m : Assoc V)
        → (m' : Assoc V) × (replay codec log (some m) ≡ some m')
          × ((k : Str) → Assoc.get k m' ≡ register codec k log (Assoc.get k m))
          × (Unique m → Unique m')
    unfolding replay apply_entry register
    replay_lem [] m = (m, refl, (λ k. refl), λ u. u)
    replay_lem (e ∷ es) m =
        let (m1, e1, _, at1, u1) = apply_parsed_lem (codec.unmarshal_command e) m in
        let (m2, e2, at2, u2) = replay_lem es m1 in
        (
          m2,
          ap (replay codec es) e1 ∙ e2,
          (λ k. at2 k ∙ ap (register codec k es) (at1 k)),
          λ u. u2 (u1 u),
        )

    -- After any log, malformed entries and unknown operations included, each key holds what its
    -- own commands left, the last of them deciding; and the map is never nil.
    pub get_key-replay :
        (log : List (List ℕ)) (k : Str)
        → (get_key k (replay codec log new_fsm) ≡ register codec k log none)
          × (replay codec log new_fsm ≢ none)
    unfolding get_key new_fsm Assoc.get
    get_key-replay log k =
        let (m, e, at, _) = replay_lem log [] in (ap (get_key k) e ∙ at k, λ n. cc)

    -- No entry that is applied after any log makes `Apply` panic.
    pub apply_entry-replay :
        (log : List (List ℕ)) (entry : List ℕ)
        → (apply_entry codec entry (replay codec log new_fsm)).1 ≢ panics
    unfolding apply_entry new_fsm
    apply_entry-replay log entry = λ n.
        let (m, e, _, _) = replay_lem log [] in
        (apply_parsed_lem (codec.unmarshal_command entry) m).2
          (ap (λ d. (apply_entry codec entry d).1) (sym e) ∙ n)

    pub replay-append :
        (log more : List (List ℕ)) (d : Data V)
        → replay codec (log ++ more) d ≡ replay codec more (replay codec log d)
    unfolding replay
    replay-append [] more d = refl
    replay-append (e ∷ es) more d = replay-append es more (apply_entry codec e d).0
