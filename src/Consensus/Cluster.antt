-- ===== src/Consensus/Cluster.antt =====
-- `Join` of internal/consensus/raft.go: the requests that it makes, from the member with the id.
use p2papp.Prelude.{
  ◌≡◌, refl, ap, true, false, ◌&&◌, Option, none, some, List, [], ◌∷◌, arith, Str, str_dec, holds,
  Bool-cases, inl, inr, if◌then◌else◌,
}
use p2papp.Consensus.{
  Server, Request, remove_server, add_voter, apply_log, Outcome, succeeded, not_removed, not_leader,
  no_configuration, not_added, not_marshalled, not_applied, Answers, join_add, after_request,
  join_loop, join_configured, join,
}

unfoldable pub find_server : Str → List Server → Option Server
find_server id [] = none
find_server id (s ∷ ss) = if holds (str_dec s.id id) then some s else find_server id ss

-- No id stands twice in a configuration.
abbrev pub UniqueIds : List Server → Type 0
UniqueIds [] = Unit
UniqueIds (s ∷ ss) = (find_server s.id ss ≡ none) × UniqueIds ss

-- What `Join` should do, from the member that has the id.
unfoldable pub expected : Answers → Str → Str → Option Server → List Request × Outcome
expected a id address none = join_add a id address
expected a id address (some s) =
    if holds (str_dec s.address address)
    then ([], succeeded)
    else if a.removed id
    then after_request (remove_server id) (join_add a id address)
    else (remove_server id ∷ [], not_removed)

join_loop_absent :
    (a : Answers) (id address : Str) (ss : List Server)
    → find_server id ss ≡ none
    → join_loop a id address ss ≡ join_add a id address
unfolding join_loop find_server
join_loop_absent a id address [] h = refl
join_loop_absent a id address (s ∷ ss) h = ground (arith, join_loop_absent a id address ss)

join_loop_lem :
    (a : Answers) (id address : Str) (ss : List Server)
    → UniqueIds ss
    → join_loop a id address ss ≡ expected a id address (find_server id ss)
unfolding join_loop find_server expected
join_loop_lem a id address [] u = refl
join_loop_lem a id address (s ∷ ss) u =
    ground (arith, join_loop_lem a id address ss u.1, join_loop_absent a id address ss)

-- The addresses of the members by their ids, and what the requests make of them: a request that Raft
-- refuses changes nothing, a removal takes the member away, an addition puts it at the address.
abbrev pub Members : Type 0
Members = Str → Option Str

abbrev pub address_of : Option Server → Option Str
address_of none = none
address_of (some s) = some s.address

abbrev pub members : List Server → Members
members ss j = address_of (find_server j ss)

abbrev pub granted : Answers → Request → Members → Members
granted a (remove_server i) m j = if a.removed i && holds (str_dec i j) then none else m j
granted a (add_voter i address) m j = if a.added && holds (str_dec i j) then some address else m j
granted a (apply_log b) m j = m j

abbrev pub all_granted : Answers → List Request → Members → Members
all_granted a [] m = m
all_granted a (r ∷ rs) m = all_granted a rs (granted a r m)

-- Where the node is at the end, from where it was.
abbrev pub placed : Outcome → Str → Option Str → Option Str
placed succeeded address old = some address
placed not_added address old = none
placed not_leader address old = old
placed no_configuration address old = old
placed not_removed address old = old
placed not_marshalled address old = old
placed not_applied address old = old

all_granted-add :
    (a : Answers) (id address j : Str) (m : Members)
    → m id ≡ none
    → all_granted a (join_add a id address).0 m j
      ≡ (if holds (str_dec id j) then placed (join_add a id address).1 address none else m j)
unfolding join_add
all_granted-add a id address j m e = elim (str_dec id j) [
  | yes same ↦ ground (arith, ap m same, e)
  | no other ↦ ground arith
]

all_granted-moved :
    (a : Answers) (id address j old : Str) (m : Members)
    → a.removed id ≡ true
    → all_granted a (join_add a id address).0 (granted a (remove_server id) m) j
      ≡ (if holds (str_dec id j) then placed (join_add a id address).1 address (some old) else m j)
unfolding join_add
all_granted-moved a id address j old m gone = elim (str_dec id j) [
  | yes same ↦ ground (arith, gone)
  | no other ↦ ground (arith, gone)
]

all_granted-expected :
    (a : Answers) (id address j : Str) (m : Members) (o : Option Server)
    → m id ≡ address_of o
    → all_granted a (expected a id address o).0 m j ≡ (
        if holds (str_dec id j)
        then placed (expected a id address o).1 address (address_of o)
        else m j)
unfolding expected
all_granted-expected a id address j m none e = all_granted-add a id address j m e
all_granted-expected a id address j m (some s) e =
    elim (Bool-cases (holds (str_dec s.address address))) [
      | inl there ↦ rw there (elim (str_dec id j) [
        | yes same ↦ ground (arith, ap m same, e, there)
        | no other ↦ ground arith
      ])
      | inr elsewhere ↦ elim (Bool-cases (a.removed id)) [
        | inl gone ↦ rw (elsewhere, gone) (all_granted-moved a id address j s.address m gone)
        | inr stays ↦
            rw (elsewhere, stays)
              (elim (str_dec id j) [
                | yes same ↦ ground (arith, ap m same, e)
                | no other ↦ ground arith
              ])
      ]
    ]

-- `Join` of a node is refused on another node than the leader, and where Raft does not tell its
-- configuration. On the leader, with the members of the configuration, `Join` of a node that is a
-- member at that address asks for nothing; of a node that is a member at another address it removes
-- that member first and stops if that fails; and then it adds the node, once. When Raft has granted
-- or refused the requests, the node is a member at the address where `Join` returned no error, no
-- member where the addition was refused, and what it was before otherwise; all other members
-- are as before.
pub join_lem :
    (a : Answers) (id address : Str) (ss : List Server) (configuration : Option (List Server))
    → UniqueIds ss
    → (join false configuration a id address ≡ ([], not_leader))
      × (join true none a id address ≡ ([], no_configuration))
      × (join true (some ss) a id address ≡ expected a id address (find_server id ss))
      × ((j : Str)
          → all_granted a (join true (some ss) a id address).0 (members ss) j ≡ (
              if holds (str_dec id j)
              then placed (join true (some ss) a id address).1 address (members ss id)
              else members ss j))
unfolding join join_configured
join_lem a id address ss configuration u =
    let run = join_loop_lem a id address ss u in
    (
      refl,
      refl,
      run,
      λ j. rw run (all_granted-expected a id address j (members ss) (find_server id ss) refl),
    )
