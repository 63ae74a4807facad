-- ===== src/Queue/Contents.antt =====
-- What each operation of internal/relay/queue.go leaves pending, peer by peer. The files play no
-- part: whatever a write does, the messages in memory are these.
use mathlib.Core.Logic.{ite}
use p2papp.Prelude.{
  ◌≡◌, refl, false, List, [], ◌∷◌, ◌++◌, inl, inr, arith, Str, str_dec, Time, Option-cases,
  Bool-cases,
}
use p2papp.Assoc
use p2papp.Assoc.{Assoc, get-put, get-remove}
use p2papp.Queue.{
  Message, Codec, Outcome, Queue, peek, mark_first, remove_first, has_message, stamp, save_bytes,
  drop_file, save_messages, save_peer, enqueue, dequeue, mark_pending, mark_attempt, remove_message,
  keep_valid,
}

peek-of_pending : (p : Str) (q r : Queue) → q.pending ≡ r.pending → peek p q ≡ peek p r
unfolding peek
peek-of_pending p q r e = rw e

pub remove_first_absent :
    (i : Str) (ms : List Message) → has_message i ms ≡ false → remove_first i ms ≡ ms
unfolding remove_first has_message
remove_first_absent i [] h = refl
remove_first_absent i (m ∷ ms) h = ground (arith, remove_first_absent i ms)

module _ (codec : Codec) (io : Str → Outcome) where
  pub drop_file-pending :
      (name : Str) (q : Queue)
      → ((drop_file codec io name q).0.pending ≡ q.pending)
        × ((drop_file codec io name q).0.max_retry ≡ q.max_retry)
        × ((drop_file codec io name q).0.ttl ≡ q.ttl)
  unfolding drop_file
  drop_file-pending name q = (refl, refl, refl)

  save_messages-pending :
      (ms : List Message) (name : Str) (q : Queue)
      → ((save_messages codec io ms name q).0.pending ≡ q.pending)
        × ((save_messages codec io ms name q).0.max_retry ≡ q.max_retry)
        × ((save_messages codec io ms name q).0.ttl ≡ q.ttl)
  unfolding save_messages save_bytes drop_file
  save_messages-pending [] name q = (refl, refl, refl)
  save_messages-pending (m ∷ ms) name q = elim (Option-cases (codec.encode (m ∷ ms))) [
    | inl e ↦ rw e (refl, refl, refl)
    | inr (b, e) ↦ rw e (refl, refl, refl)
  ]

  pub save_peer-pending :
      (p : Str) (q : Queue)
      → ((save_peer codec io p q).0.pending ≡ q.pending)
        × ((save_peer codec io p q).0.max_retry ≡ q.max_retry)
        × ((save_peer codec io p q).0.ttl ≡ q.ttl)
  unfolding save_peer
  save_peer-pending p q = save_messages-pending (peek p q) _ q

  -- `Enqueue` puts the stamped message behind those of its receiver, and leaves every other peer's
  -- messages alone, also where the write fails and it returns an error.
  pub peek-enqueue :
      (fresh_id : Str) (now : Time) (m : Message) (q : Queue) (p : Str)
      → peek p (enqueue codec io fresh_id now m q).0
        ≡ ite (str_dec m.to p) (peek p q ++ stamp fresh_id now q.ttl m ∷ []) (peek p q)
  unfolding enqueue peek
  peek-enqueue fresh_id now m q p =
      rw (save_peer-pending m.to _).0
        (ground (arith, get-put p m.to (peek m.to q ++ stamp fresh_id now q.ttl m ∷ []) q.pending))

  -- `Dequeue` returns all messages of the peer in order, leaves none of them pending, and leaves
  -- every other peer's messages alone.
  pub peek-dequeue :
      (p : Str) (q : Queue)
      → ((dequeue codec io p q).1 ≡ peek p q)
        × ((j : Str) → peek j (dequeue codec io p q).0 ≡ ite (str_dec p j) [] (peek j q))
  unfolding dequeue peek
  peek-dequeue p q =
      (refl, λ j. rw (drop_file-pending _ _).0 (ground (arith, get-remove j p q.pending)))

  -- `MarkAttempt` marks the first message with the id, in place.
  pub peek-mark_attempt :
      (p i : Str) (now : Time) (q : Queue) (j : Str)
      → peek j (mark_attempt codec io p i now q)
        ≡ ite (str_dec p j) (mark_first i now (peek j q)) (peek j q)
  unfolding mark_attempt mark_pending peek mark_first
  peek-mark_attempt p i now q j =
      rw (save_peer-pending p _).0 (elim (Option-cases (Assoc.get p q.pending)) [
        | inl e ↦ rw (e, mark_pending) (ground arith)
        | inr (ms, e) ↦
            rw (e, mark_pending) (ground (arith, get-put j p (mark_first i now ms) q.pending))
      ])

  -- `RemoveMessage` reports whether the peer has a message with the id, takes out the first such
  -- message, and leaves all others alone, in their order.
  pub peek-remove_message :
      (p i : Str) (q : Queue)
      → ((remove_message codec io p i q).1 ≡ has_message i (peek p q))
        × ((j : Str)
            → peek j (remove_message codec io p i q).0
              ≡ ite (str_dec p j) (remove_first i (peek j q)) (peek j q))
  unfolding remove_message peek
  peek-remove_message p i q = elim (Bool-cases (has_message i (peek p q))) [
    | inl found ↦ rw found (
      refl,
      λ j.
          rw (save_peer-pending p _).0
            (ground (arith, get-put j p (remove_first i (peek p q)) q.pending)),
    )
    | inr absent ↦ rw absent (refl, λ j. ground (arith, remove_first_absent i (peek p q) absent))
  ]

  pub keep_valid-pending :
      (p : Str) (ms : List Message) (q : Queue)
      → ((j : Str) → peek j (keep_valid codec io p ms q) ≡ ite (str_dec p j) ms (peek j q))
        × ((keep_valid codec io p ms q).max_retry ≡ q.max_retry)
        × ((keep_valid codec io p ms q).ttl ≡ q.ttl)
  unfolding keep_valid peek
  keep_valid-pending p [] q = (
    λ j. rw (drop_file-pending _ _).0 (ground (arith, get-remove j p q.pending)),
    (drop_file-pending _ _).1,
    (drop_file-pending _ _).2,
  )
  keep_valid-pending p (m ∷ ms) q = (
    λ j. rw (save_peer-pending p _).0 (ground (arith, get-put j p (m ∷ ms) q.pending)),
    (save_peer-pending p _).1,
    (save_peer-pending p _).2,
  )
