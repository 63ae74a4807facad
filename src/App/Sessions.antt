-- ===== src/App/Sessions.antt =====
-- `chatJoin` of cmd/p2papp/main.go: what a session in a room hands to pubsub, and how its sending ends.
use p2papp.Prelude.{
  ℕ, ◌+◌, ◌≡◌, ◌≢◌, ◌⊎◌, refl, ap, true, Option, some, List, [], ◌∷◌, ◌++◌, Str, str_dec, codes,
  take, holds, inl, inr, arith, if◌then◌else◌,
}
use p2papp.Assoc
use p2papp.Assoc.{get-put_self}
use p2papp.File.{Disk}
use p2papp.Chat
use p2papp.Chat.{
  Service, Room, Action, published, succeeded, publish_failed, new_room, own_message, join_new,
  join_at, join_room, send_at, send_message,
}
use p2papp.Chat.Rooms.{accepts}
use p2papp.Wallet.{Crypto}
use p2papp.App.Text.{trim_space}
use p2papp.App.Text.Trimming.{Trimmed, trim_space-Trimmed}
use p2papp.App.Commands.{
  Input, line, input_ended, signalled, chat_loop, chat_session, open_host, chat_join,
}

-- A message handed to pubsub, and how the call ends that hands it over.
abbrev pub sent : Chat.Answers → Chat.Message → List Action × Chat.Outcome
sent a m = (published m ∷ [], if a.publishes m then succeeded else publish_failed)

abbrev pub text_message : Str → Str → Str → Str → Chat.Message
text_message fresh_id self room_id text = record {
  id = fresh_id;
  from = self;
  content = text;
  room_id = room_id;
  kind = codes "text";
}

-- What the sending of a session comes to: a line is freed of the white space at its ends; if nothing is
-- left it is passed over, otherwise it is sent, and the session goes on however that ends.
abbrev pub Session :
    (ℕ → Chat.Answers)
    → (ℕ → Str)
    → Str
    → Str
    → ℕ
    → List Input
    → List (List Action × Chat.Outcome)
    → Type 0
Session a ids self room_id k [] results = results ≡ []
Session a ids self room_id k (input_ended ∷ inputs) results = results ≡ []
Session a ids self room_id k (signalled ∷ inputs) results = results ≡ []
Session a ids self room_id k (line t ∷ inputs) results =
    (text : Str) × Trimmed t text
    × (((text ≡ []) × Session a ids self room_id (k + 1) inputs results)
        ⊎ ((text ≢ [])
            × (rest : List (List Action × Chat.Outcome)) × (results
                ≡ sent (a k) (text_message (ids k) self room_id text) ∷ rest)
            × Session a ids self room_id (k + 1) inputs rest))

-- One line, by whether it is blank.
line-Session :
    (a : ℕ → Chat.Answers) (ids : ℕ → Str) (self room_id t text : Str) (k : ℕ) (inputs : List Input)
    (rest : List (List Action × Chat.Outcome)) (blank : Dec (text ≡ []))
    → Trimmed t text
    → Session a ids self room_id (k + 1) inputs rest
    → Session a ids self room_id k
        (line t ∷ inputs)
        (if holds blank then rest else sent (a k) (text_message (ids k) self room_id text) ∷ rest)
line-Session a ids self room_id t text k inputs rest (yes b) trimmed later =
    (text, trimmed, inl (b, later))
line-Session a ids self room_id t text k inputs rest (no b) trimmed later =
    (text, trimmed, inr (b, rest, refl, later))

chat_loop-Session :
    (a : ℕ → Chat.Answers) (ids : ℕ → Str) (room_id : Str) (s : Service) (room : Room) (k : ℕ)
    (inputs : List Input)
    → Assoc.get room_id s.rooms ≡ some room
    → Session a ids s.self room_id k inputs (chat_loop a ids room_id s k inputs)
unfolding chat_loop send_message send_at own_message
chat_loop-Session a ids room_id s room k [] there = refl
chat_loop-Session a ids room_id s room k (input_ended ∷ inputs) there = refl
chat_loop-Session a ids room_id s room k (signalled ∷ inputs) there = refl
chat_loop-Session a ids room_id s room k (line t ∷ inputs) there = rw there (
    line-Session a ids s.self room_id t (trim_space t) k inputs
      (chat_loop a ids room_id s (k + 1) inputs) (str_dec (trim_space t) []) (trim_space-Trimmed t)
      (chat_loop-Session a ids room_id s room (k + 1) inputs there))

-- A service in no room.
abbrev fresh : Str → Str → Service
fresh id name = record { self = id; name = name; rooms = [] }

abbrev alone_in : Str → Str → Str → Service
alone_in id name room_id = record {
  self = id;
  name = name;
  rooms = (room_id, record { topic = codes "/p2papp/chat/" ++ room_id; members = [] }) ∷ [];
}

join_room-accepts :
    (a : Chat.Answers) (fresh_id room_id id name : Str)
    → accepts a room_id ≡ true
    → join_room a fresh_id room_id (fresh id name) ≡ (
      alone_in id name room_id,
      published (
            own_message fresh_id
              (take 8 name ++ codes " joined the room")
              room_id
              (codes "join")
              (fresh id name))
          ∷ [],
      Chat.succeeded,
    )
unfolding join_room join_at join_new new_room Assoc.get Assoc.put
join_room-accepts a fresh_id room_id id name ok =
    let topic : a.joins (codes "/p2papp/chat/" ++ room_id) ≡ true = ground arith in
    let subscription : a.subscribes (codes "/p2papp/chat/" ++ room_id) ≡ true = ground arith in
    rw (topic, subscription) refl

-- Where the host of a wallet starts and pubsub lets it join the room, a session hands the message of the
-- joining to pubsub, and then, up to the end of the input or a signal, each line that has more than
-- white space: in order, as a text message of the host to that room, without the white space at
-- its ends. Each of them ends as pubsub answers to it, and an error there
-- does not end the session.
pub chat_join_lem :
    (c : Crypto) (starts : c.PrivKey → Option Str) (text_of : Str → Str) (a : ℕ → Chat.Answers)
    (ids : ℕ → Str) (room_id : Str) (inputs : List Input) (data_dir : Str) (d : Disk) (id : Str)
    → open_host c starts data_dir d ≡ inr id
    → accepts (a 0) room_id ≡ true
    → (joining : Chat.Message) × (results : List (List Action × Chat.Outcome)) × (chat_join c starts
          text_of a ids room_id inputs data_dir d
        ≡ inr (published joining ∷ [], results))
      × (joining.kind ≡ codes "join")
      × (joining.from ≡ id)
      × (joining.room_id ≡ room_id)
      × Session a ids id room_id 1 inputs results
unfolding chat_join chat_session own_message Assoc.put
chat_join_lem c starts text_of a ids room_id inputs data_dir d id opened ok =
    let s = alone_in id (text_of id) room_id in
    let room : Room = record { topic = codes "/p2papp/chat/" ++ room_id; members = [] } in
    let about = take 8 (text_of id) ++ codes " joined the room" in
    (
      own_message (ids 0) about room_id (codes "join") (fresh id (text_of id)),
      chat_loop a ids room_id s 1 inputs,
      rw opened (
          ap (chat_session a ids room_id inputs)
            (join_room-accepts (a 0) (ids 0) room_id id (text_of id) ok)),
      refl,
      refl,
      refl,
      chat_loop-Session a ids room_id s room 1 inputs (get-put_self room_id room []),
    )
