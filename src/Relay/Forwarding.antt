-- ===== src/Relay/Forwarding.antt =====
-- Store and forward in internal/relay/node.go: what becomes of a message that the node relays.
use mathlib.Core.Logic.{ite}
use mathlib.Core.List.{append-nil}
use p2papp.Prelude.{
  ℕ, ◌≡◌, ◌<◌, ◌≤◌, ◌+◌, ◌⊎◌, ltb, refl, ap, ◌∙◌, Bool, true, false, ◌&&◌, Option, none, some, List,
  [], ◌∷◌, ◌++◌, map, Str, str_dec, arith, Time, pos, hour, sub_time, ltb_ℤ, length, inl, inr,
  Bool-cases, if◌then◌else◌,
}
use p2papp.Assoc
use p2papp.Assoc.{Assoc, Unique, get-remove}
use p2papp.Queue.{Codec, Outcome, Queue, Message, enqueue, peek, stamp, remove_first}
use p2papp.Queue.Contents.{peek-enqueue, peek-remove_message}
use p2papp.Limiter.{Float}
use p2papp.Router.{Hashring}
use p2papp.Delivery.{
  RelayMessage, relay_message, announce_delivery, deliver_pending, rounds, visit, on_success,
  on_failure, settle, ignore, Network,
}
use p2papp.Relay.{
  RelayNode, recent, handle_forward, enqueue_forward, queued_message, handle_announce,
  announce_queue,
}
use p2papp.Relay.Ticks.{drop_stale, cleanup_tick}

-- The messages that wait for a peer.
abbrev pub waiting_in : Str → Option Queue → List Message
waiting_in p none = []
waiting_in p (some q) = peek p q

-- When a receiver counts as reached: it was last seen less than five minutes ago, and the network
-- takes the message.
abbrev pub WasReached : Option Time → Time → Bool → Type 0
WasReached seen now arrives =
    (t : Time) × (seen ≡ some t) × (now < t + 300000000000) × (arrives ≡ true)

abbrev pub NotReached : Option Time → Time → Bool → Type 0
NotReached seen now arrives =
    (seen ≡ none) ⊎ (((t : Time) × (seen ≡ some t) × (t + 300000000000 ≤ now)) ⊎ (arrives ≡ false))

recent-some : (t now : Time) → recent (some t) now ≡ ltb now (t + 300000000000)
unfolding recent sub_time
recent-some t now = ground arith

reached_or_not :
    (seen : Option Time) (now : Time) (arrives : Bool)
    → (WasReached seen now arrives × ((recent seen now && arrives) ≡ true))
      ⊎ (NotReached seen now arrives × ((recent seen now && arrives) ≡ false))
reached_or_not none now arrives = inr (inl refl, unfold recent in refl)
reached_or_not (some t) now false = inr (inr (inr refl), ground arith)
reached_or_not (some t) now true = elim (Bool-cases (ltb now (t + 300000000000))) [
  | inl soon ↦ inl ((t, refl, ground arith, refl), ground (arith, recent-some t now))
  | inr late ↦ inr (inr (inl (t, refl, ground arith)), ground (arith, recent-some t now))
]

-- A queued message, as the queue stamps it.
abbrev pub stamped_for : Str → Time → Message → Option Queue → List Message
stamped_for fresh_id now m none = []
stamped_for fresh_id now m (some q) = stamp fresh_id now q.ttl m ∷ []

-- A single queued message, whose delivery succeeds.
deliver_pending-single :
    (codec : Codec) (io : Str → Outcome) (p : Str) (network : Network) (q : Queue) (x : Message)
    → peek p q ≡ x ∷ []
    → network 0 (relay_message x) ≡ true
    → ((announce_delivery codec io p network q).sent ≡ x ∷ [])
      × (peek p (announce_delivery codec io p network q).queue ≡ [])
unfolding announce_delivery deliver_pending rounds visit on_success on_failure settle remove_first
deliver_pending-single codec io p network q x e up =
    let run =
      ap
        (λ ms.
          rounds codec io p network ignore (length ms) 0
            (record { queue = q; cells = ms; sent = [] }))
        e
      ∙ ap
          (λ b.
            if b
            then on_success codec io p x (record { queue = q; cells = x ∷ []; sent = [] })
            else record { queue = q; cells = x ∷ []; sent = [] })
          up in
    (
      ap (λ s. s.sent) run,
      ap (λ s. peek p s.queue) run
          ∙ ((peek-remove_message codec io p x.id q).1 p
              ∙ ground (arith, ap (remove_first x.id) e)),
    )

module _ (fl : Float) (h : Hashring) (codec : Codec) (raw_text : List ℕ → List ℕ)
    (io : Str → Outcome) where
  -- `handleForward`, with or without a queue, either sends exactly the message and changes nothing, or
  -- sends nothing and puts the message behind those that wait for its receiver, if the node has
  -- a queue, changing nothing else. It sends only where the receiver was last seen less than five
  -- minutes (3 * 10^11 nanoseconds) ago and the delivery succeeds, and it queues only where the
  -- receiver is not known, was last seen five minutes ago or longer, or the delivery fails.
  pub handle_forward_lem :
      (arrives : RelayMessage → Bool) (fresh_id : Str) (clock : ℕ → Time) (m : RelayMessage)
      (r : RelayNode fl.F h.Ring)
      → let after = handle_forward fl h codec raw_text io arrives fresh_id clock m r in
        (WasReached (Assoc.get m.to r.online_peers) (clock 0) (arrives m)
          × (after.0 ≡ r)
          × (after.1 ≡ m ∷ []))
        ⊎ (NotReached (Assoc.get m.to r.online_peers) (clock 0) (arrives m)
            × (after.0 ≡ record r { queue = after.0.queue })
            × (after.1 ≡ [])
            × ((p : Str)
                → waiting_in p after.0.queue
                  ≡ waiting_in p r.queue
                    ++ ite
                        (str_dec m.to p)
                        (stamped_for fresh_id
                          (clock 1)
                          (queued_message fl h codec raw_text io m)
                          r.queue)
                        []))
  unfolding handle_forward enqueue_forward queued_message
  handle_forward_lem arrives fresh_id clock m r =
      elim (reached_or_not (Assoc.get m.to r.online_peers) (clock 0) (arrives m)) [
        | inl (yes_reached, e) ↦ rw e (inl (yes_reached, refl, refl))
        | inr (not_reached, e) ↦ rw e (inr (not_reached, refl, refl, queued r.queue))
      ]
    where
      queued :
          (o : Option Queue) (p : Str)
          → waiting_in p (enqueue_forward fl h codec raw_text io fresh_id (clock 1) m o)
            ≡ waiting_in p o
              ++ ite
                  (str_dec m.to p)
                  (stamped_for fresh_id (clock 1) (queued_message fl h codec raw_text io m) o)
                  []
      queued none p = ground arith
      queued (some q) p = ground (
        arith,
        peek-enqueue codec io fresh_id (clock 1) (queued_message fl h codec raw_text io m) q p,
        append-nil (peek p q),
      )

  -- A message to a peer that cannot be reached, for which nothing else waits, is delivered when the
  -- peer announces itself and the network takes the message: exactly this message is sent, under its
  -- id or a fresh one, and nothing waits for the peer any more.
  pub handle_announce-handle_forward :
      (network : Network) (arrives : RelayMessage → Bool) (fresh_id : Str) (clock : ℕ → Time)
      (now : Time) (m : RelayMessage) (r : RelayNode fl.F h.Ring) (q : Queue)
      → r.queue ≡ some q
      → peek m.to q ≡ []
      → (recent (Assoc.get m.to r.online_peers) (clock 0) && arrives m) ≡ false
      → ((x : RelayMessage) → network 0 x ≡ true)
      → let after =
          handle_announce fl h codec raw_text io network now m.to
            (handle_forward fl h codec raw_text io arrives fresh_id clock m r).0 in
        let x = stamp fresh_id (clock 1) q.ttl (queued_message fl h codec raw_text io m) in
        (after.1 ≡ relay_message x ∷ []) × (waiting_in m.to after.0.queue ≡ [])
  unfolding handle_announce announce_queue handle_forward enqueue_forward queued_message
  handle_announce-handle_forward network arrives fresh_id clock now m r q e empty late up =
      let x = stamp fresh_id (clock 1) q.ttl (queued_message fl h codec raw_text io m) in
      let q' =
        (enqueue codec io fresh_id (clock 1) (queued_message fl h codec raw_text io m) q).0 in
      let one : peek m.to q' ≡ x ∷ [] = ground (
        arith,
        empty,
        peek-enqueue codec io fresh_id (clock 1) (queued_message fl h codec raw_text io m) q m.to,
      ) in
      let (all_sent, none_left) = deliver_pending-single codec io m.to network q' x one (up _) in
      rw (late, e) (ap (map relay_message) all_sent, none_left)

-- The cleanup of the online peers: a peer stays while it has been seen in the last hour.
abbrev pub still_online : Time → Option Time → Option Time
still_online now none = none
still_online now (some last_seen) =
    if ltb_ℤ (pos hour) (sub_time now last_seen) then none else some last_seen

abbrev unless_stale : Time → Option Time → Option Time → Option Time
unless_stale now none o = o
unless_stale now (some last_seen) o = if ltb_ℤ (pos hour) (sub_time now last_seen) then none else o

get-drop_stale :
    (p : Str) (now : Time) (m online : Assoc Time)
    → Unique m
    → Assoc.get p (drop_stale now m online) ≡ unless_stale now (Assoc.get p m) (Assoc.get p online)
unfolding drop_stale Assoc.get
get-drop_stale p now [] online u = refl
get-drop_stale p now ((j, t) ∷ rest) online u =
    elim (Bool-cases (ltb_ℤ (pos hour) (sub_time now t))) [
      | inl old ↦ rw old (
          ground (
            arith,
            get-drop_stale p now rest (Assoc.remove j online) u.1,
            get-remove p j online,
            u.0,
          ))
      | inr new ↦ rw new (ground (arith, get-drop_stale p now rest online u.1, u.0, new))
    ]

-- A tick of the cleanup keeps exactly the online peers that were seen in the last hour, with the
-- time at which they were seen, where the map has one entry to a key.
pub get-cleanup_tick :
    (fl : Float) (h : Hashring) (codec : Codec) (raw_text : List ℕ → List ℕ) (io : Str → Outcome)
    (p : Str) (clock : ℕ → Time) (r : RelayNode fl.F h.Ring)
    → Unique r.online_peers
    → Assoc.get p (cleanup_tick fl h codec raw_text io clock r).online_peers
      ≡ still_online (clock 3) (Assoc.get p r.online_peers)
unfolding cleanup_tick
get-cleanup_tick fl h codec raw_text io p clock r u =
    get-drop_stale p (clock 3) r.online_peers r.online_peers u
    ∙ same_peer (Assoc.get p r.online_peers)
  where
    same_peer : (o : Option Time) → unless_stale (clock 3) o o ≡ still_online (clock 3) o
    same_peer none = refl
    same_peer (some t) = refl
