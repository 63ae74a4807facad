-- ===== src/Queue/Totals.antt =====
-- `Cleanup` of internal/relay/queue.go: what it keeps and what it counts.
use p2papp.Prelude.{ℕ, ◌+◌, ◌≤◌, ◌≡◌, refl, ap, none, some, List, [], ◌∷◌, arith, Str, Time, length}
use p2papp.Assoc
use p2papp.Assoc.{
  Assoc, Unique, get-put, get-remove, get-put_self, get-put_ne, put-Unique, remove-Unique,
}
use p2papp.Queue.{
  Message, Codec, Outcome, Queue, or_nil, peek, valid_only, total_of, total_pending, keep_valid,
  cleanup_loop, cleanup,
}
use p2papp.Queue.Contents.{keep_valid-pending, drop_file-pending, save_peer-pending}

-- Each message is counted once, so the total is that of the peer plus that of the others.
total_of-get :
    (p : Str) (m : Assoc (List Message))
    → Unique m
    → total_of m ≡ length (or_nil (Assoc.get p m)) + total_of (Assoc.remove p m)
unfolding total_of Assoc.get Assoc.remove
total_of-get p [] u = omega arith
total_of-get p ((j, ms) ∷ m) u = ground (arith, total_of-get p m u.1)

total_of-put :
    (p : Str) (ms : List Message) (m : Assoc (List Message))
    → total_of (Assoc.put p ms m) + length (or_nil (Assoc.get p m)) ≡ total_of m + length ms
unfolding total_of Assoc.get Assoc.put
total_of-put p ms [] = omega arith
total_of-put p ms ((j, xs) ∷ m) = ground (arith, total_of-put p ms m)

length-valid_only-le :
    (now : Time) (r : ℕ) (ms : List Message) → length (valid_only now r ms) ≤ length ms
unfolding valid_only
length-valid_only-le now r [] = omega arith
length-valid_only-le now r (m ∷ ms) = ground (arith, length-valid_only-le now r ms)

module _ (codec : Codec) (io : Str → Outcome) where
  pub total-keep_valid :
      (p : Str) (ms : List Message) (q : Queue)
      → Unique q.pending
      → Unique (keep_valid codec io p ms q).pending
        × (total_pending (keep_valid codec io p ms q) + length (peek p q)
            ≡ total_pending q + length ms)
  unfolding keep_valid total_pending peek
  total-keep_valid p [] q u =
      rw (drop_file-pending codec io _ _).0
        (remove-Unique p q.pending u, omega (arith, total_of-get p q.pending u))
  total-keep_valid p (m ∷ ms) q u =
      rw (save_peer-pending codec io p _).0
        (put-Unique p (m ∷ ms) q.pending u, total_of-put p (m ∷ ms) q.pending)

  -- The loop over a part of the map that still stands as it stood when the range began.
  cleanup_loop_lem :
      (now : Time) (rest : Assoc (List Message)) (q : Queue)
      → Unique rest
      → Unique q.pending
      → ((j : Str) (ms : List Message) → Assoc.get j rest ≡ some ms → peek j q ≡ ms)
      → ((j : Str)
          → peek j (cleanup_loop codec io now rest q).0
            ≡ elim (Assoc.get j rest) [ none ↦ peek j q | some ms ↦ valid_only now q.max_retry ms ])
        × ((cleanup_loop codec io now rest q).1 + total_pending (cleanup_loop codec io now rest q).0
            ≡ total_pending q)
  unfolding cleanup_loop Assoc.get
  cleanup_loop_lem now [] q ur uq at = (λ j. refl, omega arith)
  cleanup_loop_lem now ((p, ms) ∷ rest) q ur uq at =
      let valid = valid_only now q.max_retry ms in
      let q' = keep_valid codec io p valid q in
      let kept = keep_valid-pending codec io p valid q in
      let total = total-keep_valid p valid q uq in
      let ih =
        cleanup_loop_lem now rest q' ur.1 total.0 (λ j xs e. ground (arith, kept.0 j, at j xs)) in
      (
        λ j. ground (arith, ih.0 j, kept.0 j, kept.1),
        omega (
          arith,
          ih.1,
          total.1,
          ap length (at p ms (ground arith)),
          length-valid_only-le now q.max_retry ms,
        ),
      )

  -- `Cleanup` keeps, for each peer and in their order, exactly the messages that have not expired
  -- and have attempts left, and returns the number of messages that are gone.
  pub cleanup_lem :
      (now : Time) (q : Queue)
      → Unique q.pending
      → ((j : Str) → peek j (cleanup codec io now q).0 ≡ valid_only now q.max_retry (peek j q))
        × ((cleanup codec io now q).1 + total_pending (cleanup codec io now q).0 ≡ total_pending q)
  unfolding cleanup peek valid_only
  cleanup_lem now q u =
      let l = cleanup_loop_lem now q.pending q u u (λ j ms e. ground arith) in
      (λ j. ground (arith, l.0 j), l.1)
