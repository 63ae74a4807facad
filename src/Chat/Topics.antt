-- ===== src/Chat/Topics.antt =====
-- internal/chat/pubsub.go: the topics that a manager has joined. What libp2p's pubsub answers is an
-- argument; a topic is its name.
use p2papp.Prelude.{
  ◌≡◌, refl, ap, Bool, true, false, Option, none, some, [], Str, str_dec, arith, ◌||◌, ◌&&◌, not,
  Option-cases, inl, inr, ◌∙◌, if◌then◌else◌,
}
use mathlib.Core.Logic.{ite}
use p2papp.Assoc
use p2papp.Assoc.{Assoc, get-put, get-remove}

-- The answers of pubsub for a topic: whether it is joined, closed, published on, and subscribed to.
pub record Pubsub : Type 0 where
  pub joins : Str → Bool
  pub closes : Str → Bool
  pub publishes : Str → Bool
  pub subscribes : Str → Bool

-- `PubSubManager`: its map of topics.
abbrev pub PubSubManager : Type 0
PubSubManager = Assoc Bool

-- `NewPubSubManager`, and `Close`, which leaves the map empty whatever the topics answer.
unfoldable pub new_pubsub_manager : PubSubManager
new_pubsub_manager = []

unfoldable pub close_topics : PubSubManager → PubSubManager
close_topics m = []

abbrev pub is_joined : Str → PubSubManager → Bool
is_joined j m = elim (Assoc.get j m) [ none ↦ false | some t ↦ true ]

module _ (ps : Pubsub) (name : Str) where
  -- `JoinTopic`, with the topic that the map has; the flag is false on an error.
  abbrev pub join_topic_at : Option Bool → PubSubManager → PubSubManager × Bool
  join_topic_at (some t) m = (m, true)
  join_topic_at none m = if ps.joins name then (Assoc.put name true m, true) else (m, false)

  unfoldable pub join_topic : PubSubManager → PubSubManager × Bool
  join_topic m = join_topic_at (Assoc.get name m) m

  -- `LeaveTopic`
  abbrev pub leave_topic_at : Option Bool → PubSubManager → PubSubManager × Bool
  leave_topic_at none m = (m, true)
  leave_topic_at (some t) m = if ps.closes name then (Assoc.remove name m, true) else (m, false)

  unfoldable pub leave_topic : PubSubManager → PubSubManager × Bool
  leave_topic m = leave_topic_at (Assoc.get name m) m

  -- `Publish` and `Subscribe`: both join a topic that is not there.
  abbrev pub with_topic : Bool → PubSubManager × Bool → PubSubManager × Bool
  with_topic answer (m, joined) = (m, if joined then answer else false)

  abbrev pub joined_first : Bool → Option Bool → PubSubManager → PubSubManager × Bool
  joined_first answer (some t) m = (m, answer)
  joined_first answer none m = with_topic answer (join_topic m)

  unfoldable pub publish : PubSubManager → PubSubManager × Bool
  publish m = joined_first (ps.publishes name) (Assoc.get name m) m

  unfoldable pub subscribe : PubSubManager → PubSubManager × Bool
  subscribe m = joined_first (ps.subscribes name) (Assoc.get name m) m

-- A call that changes the topics.
pub data Call : Type 0 where
  joins leaves publishes subscribes : Str → Call
  closes : Call

unfoldable pub after : Pubsub → Call → PubSubManager → PubSubManager
after ps (joins name) m = (join_topic ps name m).0
after ps (leaves name) m = (leave_topic ps name m).0
after ps (publishes name) m = (publish ps name m).0
after ps (subscribes name) m = (subscribe ps name m).0
after ps closes m = close_topics m

-- Whether a topic is joined after a call, from whether it was.
abbrev pub joined_after : Pubsub → Str → Call → Bool → Bool
joined_after ps j (joins name) b = ite (str_dec name j) (b || ps.joins j) b
joined_after ps j (leaves name) b = ite (str_dec name j) (b && not (ps.closes j)) b
joined_after ps j (publishes name) b = ite (str_dec name j) (b || ps.joins j) b
joined_after ps j (subscribes name) b = ite (str_dec name j) (b || ps.joins j) b
joined_after ps j closes b = false

module _ (ps : Pubsub) (j name : Str) where
  is_joined-join_topic :
      (m : PubSubManager)
      → is_joined j (join_topic ps name m).0
        ≡ ite (str_dec name j) (is_joined j m || ps.joins j) (is_joined j m)
  unfolding join_topic
  is_joined-join_topic m = elim (Option-cases (Assoc.get name m)) [
    | inl e ↦ ground (arith, get-put j name true m)
    | inr (t, e) ↦ ground arith
  ]

  is_joined-leave_topic :
      (m : PubSubManager)
      → is_joined j (leave_topic ps name m).0
        ≡ ite (str_dec name j) (is_joined j m && not (ps.closes j)) (is_joined j m)
  unfolding leave_topic
  is_joined-leave_topic m = elim (Option-cases (Assoc.get name m)) [
    | inl e ↦ ground arith
    | inr (t, e) ↦ ground (arith, get-remove j name m)
  ]

  -- Publishing and subscribing join like `JoinTopic`.
  joined_first_lem :
      (answer : Bool) (m : PubSubManager)
      → (joined_first ps name answer (Assoc.get name m) m).0 ≡ (join_topic ps name m).0
  unfolding join_topic
  joined_first_lem answer m = elim (Option-cases (Assoc.get name m)) [
    | inl e ↦ ground arith
    | inr (t, e) ↦ ground arith
  ]

-- A call leaves exactly these topics joined: those before it, with the topic that it joins, also to
-- publish or to subscribe, where pubsub lets it, and without the topic that it leaves, where pubsub closes
-- it; after `Close` there are none.
pub is_joined-after :
    (ps : Pubsub) (j : Str) (call : Call) (m : PubSubManager)
    → is_joined j (after ps call m) ≡ joined_after ps j call (is_joined j m)
unfolding after publish subscribe close_topics Assoc.get
is_joined-after ps j (joins name) m = is_joined-join_topic ps j name m
is_joined-after ps j (leaves name) m = is_joined-leave_topic ps j name m
is_joined-after ps j (publishes name) m =
    ap (is_joined j) (joined_first_lem ps j name (ps.publishes name) m)
    ∙ is_joined-join_topic ps j name m
is_joined-after ps j (subscribes name) m =
    ap (is_joined j) (joined_first_lem ps j name (ps.subscribes name) m)
    ∙ is_joined-join_topic ps j name m
is_joined-after ps j closes m = refl
