-- ===== src/Queue/Files.antt =====
-- The files of internal/relay/queue.go: where every file operation succeeds, the directory holds
-- for each peer the messages that are pending in memory, and no file for a peer with none.
use mathlib.Core.Logic.{ite}
use mathlib.Core.List.{append_cancel_right}
use p2papp.Prelude.{
  ℕ, ◌≡◌, refl, sym, Option, none, some, List, [], ◌∷◌, map, inl, inr, arith, Str, str_dec, Time,
  Option-cases, Bool-cases,
}
use p2papp.Assoc
use p2papp.Assoc.{Assoc, get-put, get-remove}
use p2papp.Queue.{
  Message, Content, Codec, Outcome, done, Queue, json_ext, peek, write_file, remove_file,
  valid_only, file_name, save_bytes, drop_file, save_messages, save_peer, enqueue, dequeue,
  mark_pending, mark_attempt, remove_message, has_message, keep_valid, cleanup_loop, cleanup,
  mark_first,
}
use p2papp.Queue.Contents.{save_peer-pending, drop_file-pending}

-- What the queue relies on: every slice of messages can be written as JSON and read back, up to
-- the form of each content that `interface{}` takes on reading; and no two peers have one text form.
pub record IsLawful (codec : Codec) : Type 0 where
  pub reread : Content → Content
  pub encode_total : (ms : List Message) → (b : List ℕ) × (codec.encode ms ≡ some b)
  pub decode-encode :
      (ms : List Message) (b : List ℕ)
      → codec.encode ms ≡ some b
      → codec.decode b ≡ some (map (λ (m : Message). record m { content = reread m.content }) ms)
  pub peer_string_injective : (p j : Str) → codec.peer_string p ≡ codec.peer_string j → p ≡ j

-- What the file of a peer should hold.
unfoldable pub file_of : Codec → List Message → Option (List ℕ)
file_of codec [] = none
file_of codec (m ∷ ms) = codec.encode (m ∷ ms)

pub record Mirrors (codec : Codec) (q : Queue) : Type 0 where
  pub files : (p : Str) → Assoc.get (file_name codec p) q.disk ≡ file_of codec (peek p q)
  pub named :
      (name : Str) (b : List ℕ)
      → Assoc.get name q.disk ≡ some b
      → (p : Str) × (name ≡ file_name codec p)

same_peek :
    (p j : Str) (q r : Queue)
    → r.pending ≡ q.pending
    → peek j r ≡ ite (str_dec p j) (peek p q) (peek j q)
unfolding peek
same_peek p j q r e = ground arith

-- A call of an operation that changes the queue.
pub data Call : Type 0 where
  enqueues : Str → Time → Message → Call
  dequeues : Str → Call
  marks : Str → Str → Time → Call
  removes : Str → Str → Call
  cleans : Time → Call

-- The queue after a call.
unfoldable pub after : Codec → (Str → Outcome) → Call → Queue → Queue
after codec io (enqueues fresh_id now m) q = (enqueue codec io fresh_id now m q).0
after codec io (dequeues p) q = (dequeue codec io p q).0
after codec io (marks p i now) q = mark_attempt codec io p i now q
after codec io (removes p i) q = (remove_message codec io p i q).0
after codec io (cleans now) q = (cleanup codec io now q).0

module _ (codec : Codec) (lawful : IsLawful codec) where
  pub file_name_injective : (p j : Str) → file_name codec p ≡ file_name codec j → p ≡ j
  unfolding file_name
  file_name_injective p j e =
      let same = append_cancel_right (codec.peer_string p) (codec.peer_string j) json_ext e in
      lawful.peer_string_injective p j same

module _ (codec : Codec) (lawful : IsLawful codec) (io : Str → Outcome) where
  module _ (succeeds : (name : Str) → io name ≡ done) where
    -- `savePeer` puts one file right and touches no other.
    save_messages-disk :
        (ms : List Message) (name other : Str) (q : Queue)
        → Assoc.get other (save_messages codec io ms name q).0.disk
          ≡ ite (str_dec name other) (file_of codec ms) (Assoc.get other q.disk)
    unfolding save_messages save_bytes drop_file write_file remove_file file_of
    save_messages-disk [] name other q =
        rw (succeeds name, remove_file) (get-remove other name q.disk)
    save_messages-disk (m ∷ ms) name other q =
        let (b, e) = lawful.encode_total (m ∷ ms) in
        rw (e, save_bytes, succeeds name, write_file) (get-put other name b q.disk)

    drop_file-disk :
        (name other : Str) (q : Queue)
        → Assoc.get other (drop_file codec io name q).0.disk
          ≡ ite (str_dec name other) none (Assoc.get other q.disk)
    unfolding drop_file remove_file
    drop_file-disk name other q = rw (succeeds name, remove_file) (get-remove other name q.disk)

  -- Pending messages and file of one peer change together.
  Mirrors-update :
      (p : Str) (ms : List Message) (q r : Queue)
      → ((j : Str) → peek j r ≡ ite (str_dec p j) ms (peek j q))
      → ((name : Str)
          → Assoc.get name r.disk
            ≡ ite (str_dec (file_name codec p) name) (file_of codec ms) (Assoc.get name q.disk))
      → Mirrors codec q
      → Mirrors codec r
  Mirrors-update p ms q r contents disk h = record {
    files = λ j. ground (
      arith,
      contents j,
      disk (file_name codec j),
      h.files j,
      file_name_injective codec lawful p j,
    );
    named = λ name b e. elim (str_dec (file_name codec p) name) [
      | yes same ↦ (p, sym same)
      | no other ↦ h.named name b (ground (arith, disk name))
    ];
  }

  module _ (succeeds : (name : Str) → io name ≡ done) where
    save_peer-disk :
        (p : Str) (q : Queue) (name : Str)
        → Assoc.get name (save_peer codec io p q).0.disk
          ≡ ite
              (str_dec (file_name codec p) name)
              (file_of codec (peek p q))
              (Assoc.get name q.disk)
    unfolding save_peer
    save_peer-disk p q name = save_messages-disk succeeds (peek p q) (file_name codec p) name q

    peek_self :
        (p : Str) (ms : List Message) (q : Queue)
        → peek p (record q { pending = Assoc.put p ms q.pending }) ≡ ms
    unfolding peek
    peek_self p ms q = ground (arith, get-put p p ms q.pending)

    put_then_save :
        (p : Str) (ms : List Message) (q : Queue)
        → Mirrors codec q
        → Mirrors codec (save_peer codec io p (record q { pending = Assoc.put p ms q.pending })).0
    unfolding peek
    put_then_save p ms q h =
        let r = record q { pending = Assoc.put p ms q.pending } in
        Mirrors-update p ms q (save_peer codec io p r).0
          (λ j. rw (save_peer-pending codec io p r).0 (ground (arith, get-put j p ms q.pending)))
          (λ name. rw (save_peer-disk p r name, peek_self p ms q) refl) h

    remove_then_drop :
        (p : Str) (q : Queue)
        → Mirrors codec q
        → Mirrors codec
            (drop_file codec io
              (file_name codec p)
              (record q { pending = Assoc.remove p q.pending })).0
    unfolding peek file_of
    remove_then_drop p q h =
        let r = record q { pending = Assoc.remove p q.pending } in
        Mirrors-update p [] q (drop_file codec io (file_name codec p) r).0
          (λ j. rw (drop_file-pending codec io _ r).0 (ground (arith, get-remove j p q.pending)))
          (λ name. drop_file-disk succeeds (file_name codec p) name r) h

    enqueue-Mirrors :
        (fresh_id : Str) (now : Time) (m : Message) (q : Queue)
        → Mirrors codec q
        → Mirrors codec (enqueue codec io fresh_id now m q).0
    unfolding enqueue
    enqueue-Mirrors fresh_id now m q h = put_then_save m.to _ q h

    dequeue-Mirrors :
        (p : Str) (q : Queue) → Mirrors codec q → Mirrors codec (dequeue codec io p q).0
    unfolding dequeue
    dequeue-Mirrors p q h = remove_then_drop p q h

    remove_message-Mirrors :
        (p i : Str) (q : Queue) → Mirrors codec q → Mirrors codec (remove_message codec io p i q).0
    unfolding remove_message
    remove_message-Mirrors p i q h = elim (Bool-cases (has_message i (peek p q))) [
      | inl found ↦ rw found (put_then_save p _ q h)
      | inr absent ↦ rw absent h
    ]

    mark_attempt-Mirrors :
        (p i : Str) (now : Time) (q : Queue)
        → Mirrors codec q
        → Mirrors codec (mark_attempt codec io p i now q)
    unfolding mark_attempt mark_pending
    mark_attempt-Mirrors p i now q h = elim (Option-cases (Assoc.get p q.pending)) [
      | inr (ms, e) ↦ rw (e, mark_attempt, mark_pending) (put_then_save p (mark_first i now ms) q h)
      | inl e ↦
          rw (e, mark_attempt, mark_pending)
            (Mirrors-update p (peek p q) q (save_peer codec io p q).0
              (λ j. same_peek p j q (save_peer codec io p q).0 (save_peer-pending codec io p q).0)
              (save_peer-disk p q) h)
    ]

    keep_valid-Mirrors :
        (p : Str) (ms : List Message) (q : Queue)
        → Mirrors codec q
        → Mirrors codec (keep_valid codec io p ms q)
    unfolding keep_valid
    keep_valid-Mirrors p [] q h = remove_then_drop p q h
    keep_valid-Mirrors p (m ∷ ms) q h = put_then_save p (m ∷ ms) q h

    cleanup_loop-Mirrors :
        (now : Time) (rest : Assoc (List Message)) (q : Queue)
        → Mirrors codec q
        → Mirrors codec (cleanup_loop codec io now rest q).0
    unfolding cleanup_loop
    cleanup_loop-Mirrors now [] q h = h
    cleanup_loop-Mirrors now ((p, ms) ∷ rest) q h =
        cleanup_loop-Mirrors now rest _ (keep_valid-Mirrors p (valid_only now q.max_retry ms) q h)

    -- While file operations succeed, every operation of the queue leaves the directory in step with
    -- the memory: a file for each peer with messages, which holds them, and no other file.
    pub after-Mirrors :
        (call : Call) (q : Queue) → Mirrors codec q → Mirrors codec (after codec io call q)
    unfolding after cleanup
    after-Mirrors (enqueues fresh_id now m) q h = enqueue-Mirrors fresh_id now m q h
    after-Mirrors (dequeues p) q h = dequeue-Mirrors p q h
    after-Mirrors (marks p i now) q h = mark_attempt-Mirrors p i now q h
    after-Mirrors (removes p i) q h = remove_message-Mirrors p i q h
    after-Mirrors (cleans now) q h = cleanup_loop-Mirrors now q.pending q h
