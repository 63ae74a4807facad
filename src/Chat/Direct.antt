-- ===== src/Chat/Direct.antt =====
-- internal/chat/dm.go: direct messages, from the bytes of `Send` to the channel of the receiver, which
-- drops what does not fit. JSON is a parameter.
use p2papp.Prelude.{
  ℕ, ◌≡◌, ◌≢◌, refl, Bool, true, false, Option, none, some, List, [], ◌∷◌, ◌++◌, Str, ◌⊎◌, inl, inr,
  ◌>>=◌, or_error, All, length, ltb, arith, Time, if◌then◌else◌,
}
use p2papp.Transfer.{newline, read_line}
use p2papp.Transfer.Serving.{read_line_lem}

-- `DirectMessage`
pub record DirectMessage : Type 0 where
  pub from : Str
  pub content : Str
  pub timestamp : Time

-- `DirectMessageHandler`: its channel, and whether that is closed.
pub record DirectMessageHandler : Type 0 where
  pub self : Str
  pub waiting : List DirectMessage
  pub closed : Bool

-- encoding/json on direct messages.
pub record Codec : Type 0 where
  pub marshal : DirectMessage → Option (List ℕ)
  pub unmarshal : List ℕ → Option DirectMessage

-- How a stream is handled, and how a sending fails.
pub data Handled : Type 0 where
  stream_broken not_decoded taken dropped sent_on_closed : Handled

pub data DirectError : Type 0 where
  not_opened not_encoded not_sent : DirectError

-- `NewDirectMessage`, with the size of its channel.
unfoldable pub new_direct_message : Str → DirectMessageHandler
new_direct_message self = record { self = self; waiting = []; closed = false }

abbrev pub direct_channel_size : ℕ
direct_channel_size = 50

-- `Close`
unfoldable pub close_direct : DirectMessageHandler → DirectMessageHandler
close_direct h = record h { closed = true }

-- The `select` of `handleStream`.
unfoldable pub offer : DirectMessage → DirectMessageHandler → DirectMessageHandler × Handled
offer m h =
    if h.closed
    then (h, sent_on_closed)
    else if ltb (length h.waiting) direct_channel_size
    then (record h { waiting = h.waiting ++ m ∷ [] }, taken)
    else (h, dropped)

module _ (codec : Codec) where
  -- `handleStream`; the bytes are none where the stream breaks.
  unfoldable pub offer_decoded :
      Str → Option DirectMessage → DirectMessageHandler → DirectMessageHandler × Handled
  offer_decoded remote none h = (h, not_decoded)
  offer_decoded remote (some m) h = offer (record m { from = remote }) h

  unfoldable pub handle_stream :
      Str → Option (List ℕ) → DirectMessageHandler → DirectMessageHandler × Handled
  handle_stream remote none h = (h, stream_broken)
  handle_stream remote (some b) h = offer_decoded remote (codec.unmarshal (read_line b).0) h

  -- `Send`: the bytes that it puts on the stream.
  unfoldable pub send_direct :
      Bool → Bool → Str → Time → DirectMessageHandler → DirectError ⊎ List ℕ
  send_direct opens writes content now h =
      if opens
      then or_error not_encoded
          (codec.marshal (record { from = h.self; content = content; timestamp = now }))
        >>= (λ b. if writes then inr (b ++ newline ∷ []) else inl not_sent)
      else inl not_opened

  -- JSON reads back what it wrote, also with a newline behind it, and writes no newline itself.
  pub record IsLawful : Type 0 where
    pub unmarshal-marshal :
        (m : DirectMessage) (b : List ℕ)
        → codec.marshal m ≡ some b
        → codec.unmarshal (b ++ newline ∷ []) ≡ some m
    pub one_line :
        (m : DirectMessage) (b : List ℕ) → codec.marshal m ≡ some b → All (λ c. c ≢ newline) b

  send-inr :
      (opens writes : Bool) (o : Option (List ℕ)) (b : List ℕ)
      → (if opens
          then or_error not_encoded o
            >>= (λ t. if writes then inr (t ++ newline ∷ []) else inl not_sent)
          else inl not_opened)
        ≡ inr b
      → (t : List ℕ) × (o ≡ some t) × (t ++ newline ∷ [] ≡ b)
  send-inr false writes o b h = absurd (ground arith)
  send-inr true writes none b h = absurd (ground arith)
  send-inr true false (some t) b h = absurd (ground arith)
  send-inr true true (some t) b h = (t, refl, ground arith)

  -- Where the encoding is read back: what one handler sends without an error, another one that is open
  -- puts behind the messages that wait for its user, with the content and the time unchanged and the
  -- stream's peer as the sender; with 50 messages waiting it drops it.
  pub handle_stream-send_direct :
      IsLawful
      → (opens writes : Bool) (content remote : Str) (now : Time) (b : List ℕ)
        (h receiver : DirectMessageHandler)
      → send_direct opens writes content now h ≡ inr b
      → receiver.closed ≡ false
      → handle_stream remote (some b) receiver ≡ (
          if ltb (length receiver.waiting) 50
          then (
            record receiver {
              waiting =
                  receiver.waiting
                  ++ record { from = remote; content = content; timestamp = now } ∷ [];
            },
            taken,
          )
          else (receiver, dropped))
  unfolding handle_stream send_direct offer_decoded offer
  handle_stream-send_direct laws opens writes content remote now b h receiver sent open_yet =
      let (t, e, same) = send-inr opens writes _ b sent in
      rw⁻¹ same
        (rw (read_line_lem t (laws.one_line _ t e), laws.unmarshal-marshal _ t e, open_yet) refl)
