-- ===== src/Delivery.antt =====
-- internal/relay/node.go: the two loops that deliver a peer's queued messages, `handleAnnounce` and
-- the body of `deliveryLoop`. Both range over the slice that `Peek` returns, and that slice shares
-- its array with the queue's: what `RemoveMessage` and `MarkAttempt` write shows in the cells that
-- the range has still to read. `cells` is the array as the range sees it.
pub mod Kept
pub mod Skipped
mod Tests
use p2papp.Prelude.{
  ℕ, zero, suc, ◌+◌, Bool, true, false, Option, none, some, List, [], ◌∷◌, ◌++◌, Str, codes, length,
  drop, get_elem?, Time, if◌then◌else◌,
}
use p2papp.Queue.{
  Content, bytes, json, Message, Codec, Outcome, Queue, peek, mark_attempt, remove_message,
}

-- `RelayMessage`; `content` is its field Data.
pub record RelayMessage : Type 0 where
  pub id : Str
  pub kind : Str
  pub from : Str
  pub to : Str
  pub key : Str
  pub content : List ℕ
  pub timestamp : Time

-- `deliverQueuedMessage`: the bytes of the content as they are, or its JSON text.
unfoldable pub content_bytes : Content → List ℕ
content_bytes (bytes b) = b
content_bytes (json t) = t

unfoldable pub relay_message : Message → RelayMessage
relay_message m = record {
  id = m.id;
  kind = codes "forward";
  from = m.from;
  to = m.to;
  key = [];
  content = content_bytes m.content;
  timestamp = 0;
}

-- The state of a loop: the queue, the array under the range, and the messages delivered so far.
pub record Round : Type 0 where
  pub queue : Queue
  pub cells : List Message
  pub sent : List Message

-- A slice written over the front of its array.
unfoldable pub overlay : List Message → List Message → List Message
overlay new cells = new ++ drop (length new) cells

-- The network: whether `deliverToPeer` succeeds, by the round of the loop and the message.
abbrev pub Network : Type 0
Network = ℕ → RelayMessage → Bool

-- What a loop does on a failed delivery: nothing in `handleAnnounce`, a mark in `deliveryLoop` with
-- a reading of the clock.
pub data OnFailure : Type 0 where
  ignore : OnFailure
  mark : (ℕ → Time) → OnFailure

module _ (codec : Codec) (io : Str → Outcome) (p : Str) where
  unfoldable pub settle : Queue → Round → Round
  settle q s = record s { queue = q; cells = overlay (peek p q) s.cells }

  unfoldable pub on_failure : OnFailure → ℕ → Message → Round → Round
  on_failure ignore k m s = s
  on_failure (mark clock) k m s = settle (mark_attempt codec io p m.id (clock k) s.queue) s

  unfoldable pub on_success : Message → Round → Round
  on_success m s =
      settle (remove_message codec io p m.id s.queue).0 (record s { sent = s.sent ++ m ∷ [] })

  module _ (network : Network) (failure : OnFailure) where
    -- One round, on the cell that the range has reached.
    unfoldable pub visit : ℕ → Option Message → Round → Round
    visit k none s = s
    visit k (some m) s =
        if network k (relay_message m) then on_success m s else on_failure failure k m s

    -- The rounds left, and the index of the next cell.
    unfoldable pub rounds : ℕ → ℕ → Round → Round
    rounds zero k s = s
    rounds (suc left) k s = rounds left (suc k) (visit k (get_elem? s.cells k) s)

    -- The whole range over the messages of the peer.
    unfoldable pub deliver_pending : Queue → Round
    deliver_pending q =
        rounds (length (peek p q)) 0 (record { queue = q; cells = peek p q; sent = [] })

  -- The delivery of `handleAnnounce`.
  unfoldable pub announce_delivery : Network → Queue → Round
  announce_delivery network q = deliver_pending network ignore q

  -- The delivery to one peer of a tick of `deliveryLoop`.
  unfoldable pub tick_delivery : Network → (ℕ → Time) → Queue → Round
  tick_delivery network clock q = deliver_pending network (mark clock) q
