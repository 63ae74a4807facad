-- ===== src/Consensus/Snapshots.antt =====
-- Snapshots of the state machine of internal/consensus/raft.go: taken, persisted and restored.
use p2papp.Prelude.{
  ◌≡◌, refl, sym, ap, subst, ◌∙◌, true, Option, none, some, List, [], ◌∷◌, ◌++◌, inl, inr, arith, ℕ,
  Str, Option-cases,
}
use p2papp.Assoc
use p2papp.Assoc.{Assoc, Unique, get-put}
use p2papp.Consensus.{
  Command, Data, Codec, new_fsm, replay, get_key, copy_loop, copy_data, persist, restored, restore,
}
use p2papp.Consensus.Replay.{register, register_step, replay_lem, replay-append}

abbrev pub map_value : {V : Type 0} → (V → V) → Option V → Option V
map_value f none = none
map_value f (some v) = some (f v)

-- JSON on the values behind `interface{}`: what has been read once is read again as it is, and a
-- map is read back with its values so read.
pub record IsLawful (V : Type 0) (codec : Codec V) : Type 0 where
  pub reread : V → V
  pub unmarshal_fixed :
      (e : List ℕ) (c : Command V) → codec.unmarshal_command e ≡ some c → reread c.value ≡ c.value
  pub decode-marshal :
      (m : Assoc V) (b : List ℕ)
      → codec.marshal_map (some m) ≡ some b
      → (m' : Assoc V) × (codec.decode_map b ≡ some (some m'))
        × ((k : Str) → Assoc.get k m' ≡ map_value reread (Assoc.get k m))

module _ {V : Type 0} where
  get-copy_loop :
      (k : Str) (m acc : Assoc V)
      → Unique m
      → Assoc.get k (copy_loop m acc)
        ≡ elim (Assoc.get k m) [ none ↦ Assoc.get k acc | some v ↦ some v ]
  unfolding copy_loop Assoc.get
  get-copy_loop k [] acc u = refl
  get-copy_loop k ((j, v) ∷ m) acc u =
      ground (arith, get-copy_loop k m (Assoc.put j v acc) u.1, get-put k j v acc)

  copied :
      (k : Str) (m : Assoc V)
      → elim (Assoc.get k m) [ none ↦ Assoc.get k [] | some v ↦ some v ] ≡ Assoc.get k m
  unfolding Assoc.get
  copied k m = ground arith

  module _ (codec : Codec V) (lawful : IsLawful V codec) where
    -- A value that reading leaves as it is.
    Fixed : Option V → Type 0
    Fixed o = (v : V) → o ≡ some v → lawful.reread v ≡ v

    register_step-Fixed :
        (k : Str) (e : List ℕ) (old : Option V)
        → Fixed old
        → Fixed (register_step k (codec.unmarshal_command e) old)
    unfolding Fixed register_step
    register_step-Fixed k e old f = elim (Option-cases (codec.unmarshal_command e)) [
      | inl bad ↦ rw (bad, register_step) f
      | inr (c, good) ↦
          let fixed = lawful.unmarshal_fixed e c good in
          rw (good, register_step) (λ v p. ground (arith, f v))
    ]

    register-Fixed :
        (k : Str) (log : List (List ℕ)) (old : Option V)
        → Fixed old
        → Fixed (register codec k log old)
    unfolding register
    register-Fixed k [] old f = f
    register-Fixed k (e ∷ es) old f = register-Fixed k es _ (register_step-Fixed k e old f)

    map_value-Fixed : (o : Option V) → Fixed o → map_value lawful.reread o ≡ o
    unfolding Fixed
    map_value-Fixed none f = refl
    map_value-Fixed (some v) f = ap some (f v refl)

    -- A node that restores a snapshot, whatever it held, and applies the entries that follow reads
    -- at every key what a node reads that has applied the whole log.
    pub get_key-restore :
        (log more : List (List ℕ)) (b : List ℕ) (old : Data V) (k : Str)
        → persist codec true (copy_data (replay codec log new_fsm)) ≡ some b
        → get_key k (replay codec more (restore codec b old).0)
          ≡ get_key k (replay codec (log ++ more) new_fsm)
    unfolding persist copy_data new_fsm restore restored get_key Fixed Assoc.get
    get_key-restore log more b old k e =
        let (m, is_m, at_m, unique) = replay_lem codec log [] in
        let bytes : codec.marshal_map (some (copy_loop m [])) ≡ some b =
          ap (λ d. codec.marshal_map (copy_data d)) (sym is_m) ∙ e in
        let (m', decoded, at_m') = lawful.decode-marshal (copy_loop m []) b bytes in
        let (n, is_n, at_n, _) = replay_lem codec more m' in
        let (n', is_n', at_n', _) = replay_lem codec more m in
        let old_fixed : Fixed none = λ v p. cc in
        let same : Assoc.get k m' ≡ Assoc.get k m =
          at_m' k
          ∙ ap (map_value lawful.reread) (get-copy_loop k m [] (unique tt) ∙ copied k m)
          ∙ map_value-Fixed (Assoc.get k m)
              (subst Fixed (sym (at_m k)) (register-Fixed k log none old_fixed)) in
        ap (λ o. get_key k (replay codec more (restored o old).0)) decoded
        ∙ ap (get_key k) is_n
        ∙ at_n k
        ∙ ap (register codec k more) same
        ∙ sym (at_n' k)
        ∙ sym (ap (get_key k) is_n')
        ∙ ap (λ d. get_key k (replay codec more d)) (sym is_m)
        ∙ ap (get_key k) (sym (replay-append codec log more (some [])))
