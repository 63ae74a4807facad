-- ===== src/Delivery/Kept.antt =====
-- What the delivery loops of internal/relay/node.go never do: lose a message's id.
use p2papp.Prelude.{
  ℕ, zero, suc, ◌≡◌, ◌≢◌, refl, true, ◌||◌, Option, none, some, List, [], ◌∷◌, ◌++◌, inl, inr,
  arith, Str, str_dec, holds, get_elem?, Time, Bool-cases, length,
}
use p2papp.Queue.{Message, Codec, Outcome, Queue, peek, has_message, mark_first, remove_first}
use p2papp.Queue.Contents.{peek-mark_attempt, peek-remove_message}
use p2papp.Delivery.{
  Round, Network, OnFailure, ignore, mark, settle, on_failure, on_success, visit, rounds,
  deliver_pending, relay_message,
}

has_message-mark_first :
    (j i : Str) (now : Time) (ms : List Message)
    → has_message j (mark_first i now ms) ≡ has_message j ms
unfolding has_message mark_first
has_message-mark_first j i now [] = refl
has_message-mark_first j i now (m ∷ ms) = ground (arith, has_message-mark_first j i now ms)

has_message-remove_first_ne :
    (j i : Str) (ms : List Message) → i ≢ j → has_message j (remove_first i ms) ≡ has_message j ms
unfolding has_message remove_first
has_message-remove_first_ne j i [] n = refl
has_message-remove_first_ne j i (m ∷ ms) n = ground (arith, has_message-remove_first_ne j i ms n)

has_message-append :
    (j : Str) (xs : List Message) (m : Message)
    → has_message j (xs ++ m ∷ []) ≡ (has_message j xs || holds (str_dec m.id j))
unfolding has_message
has_message-append j [] m = ground arith
has_message-append j (x ∷ xs) m = ground (arith, has_message-append j xs m)

module _ (codec : Codec) (io : Str → Outcome) (p : Str) (network : Network)
    (failure : OnFailure) where
  -- An id is accounted for by the pending messages or by the delivered ones.
  Accounted : Str → Round → Type 0
  Accounted j s = (has_message j (peek p s.queue) || has_message j s.sent) ≡ true

  on_success-Accounted :
      (j : Str) (m : Message) (s : Round) → Accounted j s → Accounted j (on_success codec io p m s)
  unfolding Accounted on_success settle
  on_success-Accounted j m s a = ground (
    arith,
    (peek-remove_message codec io p m.id s.queue).1 p,
    has_message-remove_first_ne j m.id (peek p s.queue),
    has_message-append j s.sent m,
  )

  on_failure-Accounted :
      (j : Str) (f : OnFailure) (k : ℕ) (m : Message) (s : Round)
      → Accounted j s
      → Accounted j (on_failure codec io p f k m s)
  unfolding Accounted on_failure settle
  on_failure-Accounted j ignore k m s a = a
  on_failure-Accounted j (mark clock) k m s a = ground (
    arith,
    peek-mark_attempt codec io p m.id (clock k) s.queue p,
    has_message-mark_first j m.id (clock k) (peek p s.queue),
  )

  visit-Accounted :
      (j : Str) (k : ℕ) (o : Option Message) (s : Round)
      → Accounted j s
      → Accounted j (visit codec io p network failure k o s)
  unfolding visit
  visit-Accounted j k none s a = a
  visit-Accounted j k (some m) s a = elim (Bool-cases (network k (relay_message m))) [
    | inl sent ↦ rw (sent, visit) (on_success-Accounted j m s a)
    | inr lost ↦ rw (lost, visit) (on_failure-Accounted j failure k m s a)
  ]

  rounds-Accounted :
      (j : Str) (left k : ℕ) (s : Round)
      → Accounted j s
      → Accounted j (rounds codec io p network failure left k s)
  unfolding rounds
  rounds-Accounted j zero k s a = a
  rounds-Accounted j (suc left) k s a =
      rounds-Accounted j left (suc k) _ (visit-Accounted j k (get_elem? s.cells k) s a)

  -- Whatever deliveries fail, each id that was pending for the peer is still pending after the
  -- loop, or a message with that id has been delivered.
  pub deliver_pending-kept :
      (j : Str) (q : Queue)
      → has_message j (peek p q) ≡ true
      → (has_message j (peek p (deliver_pending codec io p network failure q).queue)
          || has_message j (deliver_pending codec io p network failure q).sent)
        ≡ true
  unfolding deliver_pending Accounted has_message
  deliver_pending-kept j q h = rounds-Accounted j (length (peek p q)) 0 _ (ground arith)
