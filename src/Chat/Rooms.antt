-- ===== src/Chat/Rooms.antt =====
-- The rooms of a service of internal/chat/service.go after a sequence of JoinRoom and LeaveRoom.
use p2papp.Prelude.{
  ◌≡◌, refl, sym, ap, ◌∙◌, Bool, true, false, ◌&&◌, ◌||◌, Option, none, some, List, [], ◌∷◌, ◌++◌,
  Str, str_dec, codes, holds, inl, inr, arith, Bool-cases, Option-cases, if◌then◌else◌,
}
use p2papp.Assoc
use p2papp.Assoc.{get-put, get-remove}
use p2papp.Chat.{
  Service, Room, Answers, published, succeeded, not_in_room, publish_failed, new_room, own_message,
  join_new, join_at, join_room, leave_at, leave_room, send_at, send_message,
}

-- A call for a room, with the answers of pubsub to it and the id of its message.
pub data Call : Type 0 where
  joins : Answers → Str → Str → Call
  leaves : Str → Str → Call

abbrev present : Option Room → Bool
present none = false
present (some room) = true

-- Whether pubsub lets the service join and subscribe to a room's topic.
abbrev pub accepts : Answers → Str → Bool
accepts a i = a.joins (codes "/p2papp/chat/" ++ i) && a.subscribes (codes "/p2papp/chat/" ++ i)

-- Whether the service has the room.
abbrev pub in_room : Str → Service → Bool
in_room i s = present (Assoc.get i s.rooms)

run_call : Call → Service → Service
run_call (joins a fresh_id i) s = (join_room a fresh_id i s).0
run_call (leaves fresh_id i) s = (leave_room fresh_id i s).0

pub run_calls : List Call → Service → Service
run_calls [] s = s
run_calls (c ∷ cs) s = run_calls cs (run_call c s)

-- Whether one is in the room after the calls: a JoinRoom that pubsub answers well leads in, a
-- LeaveRoom out, and all others change nothing.
abbrev pub after_call : Str → Call → Bool → Bool
after_call i (joins a fresh_id j) b = if holds (str_dec j i) then b || accepts a i else b
after_call i (leaves fresh_id j) b = if holds (str_dec j i) then false else b

abbrev pub after_calls : Str → List Call → Bool → Bool
after_calls i [] b = b
after_calls i (c ∷ cs) b = after_calls i cs (after_call i c b)

join_new-rooms :
    (a : Answers) (fresh_id i j : Str) (s : Service)
    → in_room i (join_new fresh_id j (new_room a j) s).0
      ≡ (if holds (str_dec j i) then in_room i s || accepts a j else in_room i s)
unfolding join_new new_room
join_new-rooms a fresh_id i j s = elim (Bool-cases (a.joins (codes "/p2papp/chat/" ++ j))) [
  | inr no_topic ↦ rw no_topic (ground arith)
  | inl topic ↦ elim (Bool-cases (a.subscribes (codes "/p2papp/chat/" ++ j))) [
    | inr no_subscription ↦ rw (topic, no_subscription) (ground arith)
    | inl subscription ↦
        rw (topic, subscription)
          (ground (
            arith,
            get-put i j (record { topic = codes "/p2papp/chat/" ++ j; members = [] }) s.rooms,
          ))
  ]
]

join_at-rooms :
    (a : Answers) (fresh_id i j : Str) (o : Option Room) (s : Service)
    → Assoc.get j s.rooms ≡ o
    → in_room i (join_at a fresh_id j o s).0
      ≡ (if holds (str_dec j i) then in_room i s || accepts a i else in_room i s)
unfolding join_at
join_at-rooms a fresh_id i j none s e = ground (arith, join_new-rooms a fresh_id i j s)
join_at-rooms a fresh_id i j (some room) s e = ground (arith, e)

leave_at-rooms :
    (fresh_id i j : Str) (o : Option Room) (s : Service)
    → Assoc.get j s.rooms ≡ o
    → in_room i (leave_at fresh_id j o s).0 ≡ (if holds (str_dec j i) then false else in_room i s)
unfolding leave_at
leave_at-rooms fresh_id i j none s e = ground (arith, e)
leave_at-rooms fresh_id i j (some room) s e = ground (arith, get-remove i j s.rooms)

run_call_lem :
    (i : Str) (c : Call) (s : Service) → in_room i (run_call c s) ≡ after_call i c (in_room i s)
unfolding run_call join_room leave_room
run_call_lem i (joins a fresh_id j) s = join_at-rooms a fresh_id i j (Assoc.get j s.rooms) s refl
run_call_lem i (leaves fresh_id j) s = leave_at-rooms fresh_id i j (Assoc.get j s.rooms) s refl

run_calls_lem :
    (i : Str) (cs : List Call) (s : Service)
    → in_room i (run_calls cs s) ≡ after_calls i cs (in_room i s)
unfolding run_calls
run_calls_lem i [] s = refl
run_calls_lem i (c ∷ cs) s =
    run_calls_lem i cs (run_call c s) ∙ ap (after_calls i cs) (run_call_lem i c s)

-- After any sequence of JoinRoom and LeaveRoom, whatever pubsub answers to each of them, SendMessage
-- hands a message for a room to pubsub exactly where the last successful call for that room was a
-- JoinRoom, or the service had the room before and has not left it. It then returns the error of the
-- publishing, if any; otherwise it publishes nothing and returns its own error.
pub send_message-run_calls :
    (a : Answers) (fresh_id i content : Str) (cs : List Call) (s : Service)
    → send_message a fresh_id i content (run_calls cs s) ≡ (
        if after_calls i cs (in_room i s)
        then (let m = own_message fresh_id content i (codes "text") (run_calls cs s) in
            (published m ∷ [], if a.publishes m then succeeded else publish_failed))
        else ([], not_in_room))
unfolding send_message send_at
send_message-run_calls a fresh_id i content cs s =
    let e = run_calls_lem i cs s in
    elim (Option-cases (Assoc.get i (run_calls cs s).rooms)) [
      | inl absent ↦ rw (sym e, absent) refl
      | inr (room, there) ↦ rw (sym e, there) refl
    ]
