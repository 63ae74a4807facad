-- ===== src/Queue/Boxes.antt =====
-- The queue of internal/relay/queue.go as a mailbox for each peer: the map, the slices and the files
-- are forgotten.
use mathlib.Core.Logic.{ite}
use std.Path.{fun_ext}
use p2papp.Prelude.{
  ℕ, ◌≡◌, refl, ap, ◌∙◌, Bool, true, false, Option, none, some, List, [], ◌∷◌, ◌++◌, Str, str_dec,
  Time, if◌then◌else◌,
}
use p2papp.Assoc
use p2papp.Assoc.{Assoc, Unique, put-Unique, remove-Unique}
use p2papp.Queue.{
  Message, Codec, Outcome, Queue, peek, mark_first, remove_first, has_message, stamp, valid_only,
  save_peer, file_name, enqueue, dequeue, mark_pending, mark_attempt, remove_message, keep_valid,
  cleanup_loop, cleanup,
}
use p2papp.Queue.Contents.{
  save_peer-pending, drop_file-pending, peek-enqueue, peek-dequeue, peek-mark_attempt,
  peek-remove_message, keep_valid-pending,
}
use p2papp.Queue.Totals.{total-keep_valid, cleanup_lem}
use p2papp.Queue.Files.{Call, enqueues, dequeues, marks, removes, cleans, after}

-- What a call returns to its caller, the count of `Cleanup` aside.
pub data Answer : Type 0 where
  nothing : Answer
  handed : List Message → Answer
  was_there : Bool → Answer

-- The specification: each peer's messages, and what a call does to them.
abbrev pub Boxes : Type 0
Boxes = Str → List Message

abbrev pub boxes_of : Queue → Boxes
boxes_of q p = peek p q

module _ (ttl max_retry : ℕ) where
  abbrev pub box_after : Call → Boxes → Boxes
  box_after (enqueues fresh_id now m) b p =
      ite (str_dec m.to p) (b p ++ stamp fresh_id now ttl m ∷ []) (b p)
  box_after (dequeues j) b p = ite (str_dec j p) [] (b p)
  box_after (marks j i now) b p = ite (str_dec j p) (mark_first i now (b p)) (b p)
  box_after (removes j i) b p = ite (str_dec j p) (remove_first i (b p)) (b p)
  box_after (cleans now) b p = valid_only now max_retry (b p)

  abbrev pub box_answer : Call → Boxes → Answer
  box_answer (enqueues fresh_id now m) b = nothing
  box_answer (dequeues j) b = handed (b j)
  box_answer (marks j i now) b = nothing
  box_answer (removes j i) b = was_there (has_message i (b j))
  box_answer (cleans now) b = nothing

  abbrev pub box_run : List Call → Boxes → Boxes × List Answer
  box_run [] b = (b, [])
  box_run (call ∷ calls) b =
      let (b', answers) = box_run calls (box_after call b) in (b', box_answer call b ∷ answers)

module _ (codec : Codec) (io : Str → Outcome) where
  -- The answers of the queue's operations, and a run of calls.
  abbrev pub answer : Call → Queue → Answer
  answer (enqueues fresh_id now m) q = nothing
  answer (dequeues j) q = handed (dequeue codec io j q).1
  answer (marks j i now) q = nothing
  answer (removes j i) q = was_there (remove_message codec io j i q).1
  answer (cleans now) q = nothing

  abbrev pub run : List Call → Queue → Queue × List Answer
  run [] q = (q, [])
  run (call ∷ calls) q =
      let (q', answers) = run calls (after codec io call q) in (q', answer call q ∷ answers)

  -- The map keeps one entry for each peer, and the queue its settings.
  record IsSteady (q r : Queue) : Type 0 where
    unique : Unique r.pending
    same_ttl : r.ttl ≡ q.ttl
    same_max_retry : r.max_retry ≡ q.max_retry

  saved-IsSteady :
      (p : Str) (q : Queue) (pending : Assoc (List Message))
      → Unique pending
      → IsSteady q (save_peer codec io p (record q { pending = pending })).0
  saved-IsSteady p q pending u =
      let l = save_peer-pending codec io p (record q { pending = pending }) in
      record { unique = rw l.0 u; same_ttl = l.2; same_max_retry = l.1 }

  cleanup_loop-IsSteady :
      (now : Time) (rest : Assoc (List Message)) (q : Queue)
      → Unique q.pending
      → IsSteady q (cleanup_loop codec io now rest q).0
  unfolding cleanup_loop
  cleanup_loop-IsSteady now [] q u = record { unique = u; same_ttl = refl; same_max_retry = refl }
  cleanup_loop-IsSteady now ((p, ms) ∷ rest) q u =
      let valid = valid_only now q.max_retry ms in
      let kept = keep_valid-pending codec io p valid q in
      let ih =
        cleanup_loop-IsSteady now rest (keep_valid codec io p valid q)
          (total-keep_valid codec io p valid q u).0 in
      record {
        unique = ih.unique;
        same_ttl = ih.same_ttl ∙ kept.2;
        same_max_retry = ih.same_max_retry ∙ kept.1;
      }

  marked-IsSteady :
      (j i : Str) (now : Time) (o : Option (List Message)) (q : Queue)
      → Unique q.pending
      → IsSteady q (save_peer codec io j (mark_pending j i now o q)).0
  unfolding mark_pending
  marked-IsSteady j i now none q u = saved-IsSteady j q q.pending u
  marked-IsSteady j i now (some ms) q u =
      saved-IsSteady j q _ (put-Unique j (mark_first i now ms) q.pending u)

  after-IsSteady : (call : Call) (q : Queue) → Unique q.pending → IsSteady q (after codec io call q)
  unfolding after enqueue dequeue mark_attempt mark_pending remove_message cleanup
  after-IsSteady (enqueues fresh_id now m) q u = saved-IsSteady m.to q _ (put-Unique m.to _ _ u)
  after-IsSteady (dequeues j) q u =
      let l =
        drop_file-pending codec io (file_name codec j)
          (record q { pending = Assoc.remove j q.pending }) in
      record { unique = rw l.0 (remove-Unique j q.pending u); same_ttl = l.2; same_max_retry = l.1 }
  after-IsSteady (marks j i now) q u = marked-IsSteady j i now (Assoc.get j q.pending) q u
  after-IsSteady (removes j i) q u =
      chosen (has_message i (peek j q))
        (record q { pending = Assoc.put j (remove_first i (peek j q)) q.pending })
        (saved-IsSteady j q _ (put-Unique j _ q.pending u))
    where
      chosen :
          (b : Bool) (r : Queue)
          → IsSteady q (save_peer codec io j r).0
          → IsSteady q
              (if◌then◌else◌ {A = Queue × Bool} b ((save_peer codec io j r).0, true) (q, false)).0
      chosen true r s = s
      chosen false r s = record { unique = u; same_ttl = refl; same_max_retry = refl }
  after-IsSteady (cleans now) q u = cleanup_loop-IsSteady now q.pending q u

  peek-after :
      (call : Call) (q : Queue) (j : Str)
      → Unique q.pending
      → peek j (after codec io call q) ≡ box_after q.ttl q.max_retry call (λ p. peek p q) j
  unfolding after
  peek-after (enqueues fresh_id now m) q j u = peek-enqueue codec io fresh_id now m q j
  peek-after (dequeues p) q j u = (peek-dequeue codec io p q).1 j
  peek-after (marks p i now) q j u = peek-mark_attempt codec io p i now q j
  peek-after (removes p i) q j u = (peek-remove_message codec io p i q).1 j
  peek-after (cleans now) q j u = (cleanup_lem codec io now q u).0 j

  answer_lem :
      (call : Call) (q : Queue) → answer call q ≡ box_answer q.ttl q.max_retry call (λ p. peek p q)
  answer_lem (enqueues fresh_id now m) q = refl
  answer_lem (dequeues p) q = ap handed (peek-dequeue codec io p q).0
  answer_lem (marks p i now) q = refl
  answer_lem (removes p i) q = ap was_there (peek-remove_message codec io p i q).0
  answer_lem (cleans now) q = refl

  -- The queue refines the mailboxes: where its map has one entry for each peer, any sequence of calls,
  -- whatever the writes to the files do, leaves the messages of each peer, and answers the calls, as
  -- the specification says; the count that `Cleanup` returns is left out.
  pub run-box_run :
      (calls : List Call) (q : Queue)
      → Unique q.pending
      → (boxes_of (run calls q).0, (run calls q).1) ≡ box_run q.ttl q.max_retry calls (boxes_of q)
  unfolding peek
  run-box_run [] q u = refl
  run-box_run (call ∷ calls) q u =
      let steady = after-IsSteady call q u in
      ap (λ r. (r.0, answer call q ∷ r.1)) (run-box_run calls (after codec io call q) steady.unique)
      ∙ rw
          (
            steady.same_ttl,
            steady.same_max_retry,
            fun_ext (λ j. peek-after call q j u),
            answer_lem call q,
          )
          refl
