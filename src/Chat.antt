-- ===== src/Chat.antt =====
-- internal/chat: the rooms that a service has joined (service.go) and their members (room.go). What
-- libp2p's pubsub answers to a call is an argument of the call; what is handed to pubsub is part of the
-- result. The time of a message is left out.
pub mod Rooms
pub mod Members
pub mod Reader
pub mod Direct
pub mod Topics
mod Tests
use p2papp.Prelude.{
  ℕ, Bool, true, false, Option, none, some, List, [], ◌∷◌, ◌++◌, Str, codes, take, length, ltb,
  if◌then◌else◌,
}
use p2papp.Assoc
use p2papp.Assoc.{Assoc}

-- `Message`, with the fields that the service sets; kind is its field Type.
pub record Message : Type 0 where
  pub id : Str
  pub from : Str
  pub content : Str
  pub room_id : Str
  pub kind : Str

-- `Room`: its topic's name and its members.
pub record Room : Type 0 where
  pub topic : Str
  pub members : Assoc Bool

-- `chatService`; `name` is the text form of the host's id.
pub record Service : Type 0 where
  pub self : Str
  pub name : Str
  pub rooms : Assoc Room

-- How an operation ends.
pub data Outcome : Type 0 where
  succeeded already_joined not_in_room topic_failed subscription_failed publish_failed : Outcome

-- The answers of pubsub to a call: whether a topic can be joined and subscribed to, and published on.
pub record Answers : Type 0 where
  pub joins : Str → Bool
  pub subscribes : Str → Bool
  pub publishes : Message → Bool

-- What a service hands to pubsub: a message, and the closing of a topic, whose error it ignores. What
-- the closing did shows in the answers to later calls.
pub data Action : Type 0 where
  published : Message → Action
  topic_closed : Str → Action

-- `NewRoom`
unfoldable pub new_room : Answers → Str → Option Room × List Action × Outcome
new_room a room_id =
    let topic = codes "/p2papp/chat/" ++ room_id in
    if a.joins topic
    then (if a.subscribes topic
        then (some (record { topic = topic; members = [] }), [], succeeded)
        else (none, topic_closed topic ∷ [], subscription_failed))
    else (none, [], topic_failed)

-- A message of the service's own.
unfoldable pub own_message : Str → Str → Str → Str → Service → Message
own_message id content room_id kind s = record {
  id = id;
  from = s.self;
  content = content;
  room_id = room_id;
  kind = kind;
}

-- `JoinRoom`, once the room is there or not.
unfoldable pub join_new :
    Str → Str → Option Room × List Action × Outcome → Service → Service × List Action × Outcome
join_new fresh_id room_id (none, acts, o) s = (s, acts, o)
join_new fresh_id room_id (some room, acts, o) s = (
  record s { rooms = Assoc.put room_id room s.rooms },
  acts
      ++ published (
          own_message fresh_id (take 8 s.name ++ codes " joined the room") room_id (codes "join") s)
        ∷ [],
  succeeded,
)

unfoldable pub join_at :
    Answers → Str → Str → Option Room → Service → Service × List Action × Outcome
join_at a fresh_id room_id (some room) s = (s, [], already_joined)
join_at a fresh_id room_id none s = join_new fresh_id room_id (new_room a room_id) s

-- `JoinRoom`
unfoldable pub join_room : Answers → Str → Str → Service → Service × List Action × Outcome
join_room a fresh_id room_id s = join_at a fresh_id room_id (Assoc.get room_id s.rooms) s

-- `LeaveRoom`, with the `Close` of the room.
unfoldable pub leave_at : Str → Str → Option Room → Service → Service × List Action × Outcome
leave_at fresh_id room_id none s = (s, [], not_in_room)
leave_at fresh_id room_id (some room) s = (
  record s { rooms = Assoc.remove room_id s.rooms },
  published
        (own_message fresh_id (take 8 s.name ++ codes " left the room") room_id (codes "leave") s)
      ∷ topic_closed room.topic
      ∷ [],
  succeeded,
)

unfoldable pub leave_room : Str → Str → Service → Service × List Action × Outcome
leave_room fresh_id room_id s = leave_at fresh_id room_id (Assoc.get room_id s.rooms) s

-- `SendMessage`: what it hands to pubsub, and how it ends.
unfoldable pub send_at : Answers → Str → Str → Str → Option Room → Service → List Action × Outcome
send_at a fresh_id room_id content none s = ([], not_in_room)
send_at a fresh_id room_id content (some room) s =
    let m = own_message fresh_id content room_id (codes "text") s in
    (published m ∷ [], if a.publishes m then succeeded else publish_failed)

unfoldable pub send_message : Answers → Str → Str → Str → Service → List Action × Outcome
send_message a fresh_id room_id content s =
    send_at a fresh_id room_id content (Assoc.get room_id s.rooms) s

-- `ListRooms`
unfoldable pub ids_of : Assoc Room → List Str
ids_of [] = []
ids_of ((i, room) ∷ m) = i ∷ ids_of m

unfoldable pub list_rooms : Service → List Str
list_rooms s = ids_of s.rooms

-- `peerLoop`: the events of a topic.
pub data PeerEvent : Type 0 where
  peer_join peer_leave : Str → PeerEvent

unfoldable pub on_event : PeerEvent → Assoc Bool → Assoc Bool
on_event (peer_join p) m = Assoc.put p true m
on_event (peer_leave p) m = Assoc.remove p m

unfoldable pub peer_loop : List PeerEvent → Room → Room
peer_loop [] r = r
peer_loop (e ∷ es) r = peer_loop es (record r { members = on_event e r.members })

-- `Members`
unfoldable pub keys_of : Assoc Bool → List Str
keys_of [] = []
keys_of ((p, b) ∷ m) = p ∷ keys_of m

unfoldable pub members_of : Room → List Str
members_of r = keys_of r.members
