-- ===== src/Chat/Reader.antt =====
-- A room's `readLoop` of internal/chat/room.go, the channel of internal/chat/service.go that it sends
-- to, whoever receives from that channel, and `Close` of the service, as steps that interleave.
-- Other rooms that send to the same channel are left out.
pub mod Order
use p2papp.Prelude.{
  ℕ, ◌<◌, ◌≡◌, Bool, true, false, Option, none, some, List, [], ◌∷◌, ◌++◌, Str, str_dec, holds,
  length, if◌then◌else◌,
}
use p2papp.Chat.{Message}

-- A message of the subscription.
pub record Packet : Type 0 where
  pub received_from : Str
  pub payload : List ℕ

-- Where the loop is: in `Next`, in the `select` with a message, or at its end.
pub data Mode : Type 0 where
  reading : Mode
  sending : Message → Mode
  returned panicked : Mode

-- The loop with its channel; `cancelled` is whether its context is.
pub record Reader : Type 0 where
  pub mode : Mode
  pub buffer : List Message
  pub cancelled : Bool
  pub closed : Bool

-- `make(chan Message, 100)`
abbrev pub channel_size : ℕ
channel_size = 100

abbrev pub decoded_mode : Option Message → Mode
decoded_mode none = reading
decoded_mode (some m) = sending m

-- The message that the loop has taken from the subscription and not sent.
abbrev pub held : Mode → List Message
held reading = []
held (sending m) = m ∷ []
held returned = []
held panicked = []

module _ (self : Str) (decode : List ℕ → Option Message) where
  -- What the loop does with the answer of `Next`; none is an error.
  unfoldable pub on_next : Bool → Option Packet → Mode
  on_next cancelled none = if cancelled then returned else reading
  on_next cancelled (some p) =
      if holds (str_dec p.received_from self) then reading else decoded_mode (decode p.payload)

  -- A step, with the messages that the loop takes up and those that leave the channel: an answer of
  -- `Next`; the three ways out of the `select`, of which the send on a closed channel panics; a
  -- receiver; and the two parts of `Close`, which cancels before it closes.
  pub data Step : Reader → List Message → List Message → Reader → Type 0 where
    nexts :
        (r : Reader) (answer : Option Packet)
        → r.mode ≡ reading
        → Step r
            (held (on_next r.cancelled answer))
            []
            (record r { mode = on_next r.cancelled answer })
    sends :
        (r : Reader) (m : Message)
        → r.mode ≡ sending m
        → r.closed ≡ false
        → length r.buffer < channel_size
        → Step r [] [] (record r { mode = reading; buffer = r.buffer ++ m ∷ [] })
    panics :
        (r : Reader) (m : Message)
        → r.mode ≡ sending m
        → r.closed ≡ true
        → Step r [] [] (record r { mode = panicked })
    stops :
        (r : Reader) (m : Message)
        → r.mode ≡ sending m
        → r.cancelled ≡ true
        → Step r [] [] (record r { mode = returned })
    receives :
        (r : Reader) (m : Message) (ms : List Message)
        → r.buffer ≡ m ∷ ms
        → Step r [] (m ∷ []) (record r { buffer = ms })
    cancels : (r : Reader) → Step r [] [] (record r { cancelled = true })
    closes :
        (r : Reader)
        → r.cancelled ≡ true
        → r.closed ≡ false
        → Step r [] [] (record r { closed = true })

  -- Steps one after another, with all messages that were taken up and that left the channel.
  pub data Run (r : Reader) : List Message → List Message → Reader → Type 0 where
    here : Run r [] [] r
    next :
        {taken given t g : List Message} {s u : Reader}
        → Run r taken given s
        → Step s t g u
        → Run r (taken ++ t) (given ++ g) u

-- `NewChatService` and `NewRoom`: nothing is there yet.
abbrev pub started : Reader
started = record { mode = reading; buffer = []; cancelled = false; closed = false }
