-- ===== src/Chat/Tests.antt =====
-- The theorems on rooms and members of internal/chat, at concrete services and rooms.
use p2papp.Prelude.{
  ℕ, ◌≤◌, ◌≡◌, ◌≢◌, refl, ap, sym, subst, ◌∙◌, ◌++◌, All, true, false, Option, some, List, [], ◌∷◌,
  codes, str_dec, arith, if◌then◌else◌,
}
use p2papp.Chat.{Service, Answers, published, succeeded, not_in_room, own_message, send_message}
use p2papp.Chat.{Message}
use p2papp.Chat.Direct
use p2papp.Chat.Direct.{
  DirectMessage, taken, new_direct_message, handle_stream, send_direct, handle_stream-send_direct,
}
use p2papp.Transfer.{newline}
use p2papp.Wire.{put_str, get_str, get_num, get_str-put_str}
use p2papp.Wire.Samples.{shift, unshift, shift-line, unshift-shift}
use p2papp.Chat.Reader.{
  Packet, held, reading, panicked, Reader, on_next, Run, here, next, nexts, sends, receives,
  started,
}
use p2papp.Chat.Reader.Order.{Run-in_order, Run-panicked}
use p2papp.Chat.Rooms.{Call, joins, leaves, run_calls, after_calls, in_room, send_message-run_calls}

abbrev service : Service
service = record { self = codes "p"; name = codes "12D3KooWabcdef"; rooms = [] }

abbrev answers : Answers
answers = record { joins = λ t. true; subscribes = λ t. true; publishes = λ m. true }

-- Pubsub lets the service join a first time, and not again after it has left.
abbrev refusing : Answers
refusing = record { joins = λ t. false; subscribes = λ t. true; publishes = λ m. true }

abbrev calls : List Call
calls =
    joins answers (codes "1") (codes "a")
    ∷ leaves (codes "2") (codes "a")
    ∷ joins refusing (codes "3") (codes "a")
    ∷ []

send_message-run_calls_example :
    send_message answers (codes "4") (codes "a") (codes "hi") (run_calls calls service) ≡ (
      if after_calls (codes "a") calls (in_room (codes "a") service)
      then (
        published (
              own_message
                (codes "4")
                (codes "hi")
                (codes "a")
                (codes "text")
                (run_calls calls service))
            ∷ [],
        succeeded,
      )
      else ([], not_in_room))
send_message-run_calls_example =
    send_message-run_calls answers (codes "4") (codes "a") (codes "hi") calls service

-- A decoder, a message of another peer, and the loop with it in hand and in the channel.
abbrev decode : List ℕ → Option Message
decode b = some (own_message [] b (codes "a") (codes "text") service)

abbrev packet : Packet
packet = record { received_from = codes "q"; payload = codes "hi" }

abbrev hi : Message
hi = own_message [] (codes "hi") (codes "a") (codes "text") service

delivered :
    Run
      (codes "p")
      decode
      started
      (hi ∷ [])
      (hi ∷ [])
      (record { mode = reading; buffer = []; cancelled = false; closed = false })
unfolding on_next str_dec
delivered =
    next (next (next here (nexts started (some packet) refl)) (sends _ hi refl refl (omega arith)))
      (receives _ hi [] refl)

Run-in_order_example :
    (0 ≤ 100) × (hi ∷ [] ≡ (hi ∷ []) ++ ([] ++ held reading)) × (reading ≢ panicked)
Run-in_order_example = Run-in_order (codes "p") decode (hi ∷ []) (hi ∷ []) _ delivered refl

Run-panicked_example :
    (u : Reader) × Run (codes "p") decode started (hi ∷ []) [] u × (u.mode ≡ panicked)
Run-panicked_example =
    Run-panicked (codes "p") decode started packet hi refl refl (λ e. ground arith) refl

-- Direct messages by their fields, above the newline.
put_direct : DirectMessage → List ℕ
put_direct m = put_str m.from (put_str m.content (m.timestamp ∷ []))

get_direct : List ℕ → DirectMessage
get_direct l =
    let (from, l1) = get_str l in
    let (content, l2) = get_str l1 in
    record { from = from; content = content; timestamp = (get_num l2).0 }

get_direct-put_direct : (m : DirectMessage) → get_direct (put_direct m) ≡ m
unfolding get_direct put_direct get_num
get_direct-put_direct m = ground (
  arith,
  get_str-put_str m.from (put_str m.content (m.timestamp ∷ [])),
  get_str-put_str m.content (m.timestamp ∷ []),
)

abbrev direct : Direct.Codec
direct = record {
  marshal = λ m. some (shift (put_direct m));
  unmarshal = λ l. some (get_direct (unshift l));
}

some_injective : (a b : List ℕ) → some a ≡ some b → a ≡ b
some_injective a b e = ground arith

direct-IsLawful : Direct.IsLawful direct
direct-IsLawful = record {
  unmarshal-marshal = λ m b e.
      ap (λ l. some (get_direct (unshift (l ++ newline ∷ [])))) (sym (some_injective _ b e))
      ∙ ap some (ap get_direct (unshift-shift (put_direct m)) ∙ get_direct-put_direct m);
  one_line = λ m b e.
      subst (λ l. All (λ c. c ≢ newline) l) (some_injective _ b e) (shift-line (put_direct m));
}

handle_stream-send_direct_example :
    handle_stream direct
      (codes "q")
      (some (
        shift (put_direct (record { from = codes "q"; content = codes "hi"; timestamp = 5 }))
        ++ newline ∷ []))
      (new_direct_message (codes "p"))
    ≡ (
      record {
        self = codes "p";
        waiting = record { from = codes "q"; content = codes "hi"; timestamp = 5 } ∷ [];
        closed = false;
      },
      taken,
    )
unfolding new_direct_message send_direct
handle_stream-send_direct_example =
    handle_stream-send_direct direct direct-IsLawful true true (codes "hi") (codes "q") 5 _
      (new_direct_message (codes "q")) (new_direct_message (codes "p")) refl refl
