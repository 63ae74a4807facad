-- ===== src/Queue/Tests.antt =====
-- Runs of the queue of internal/relay/queue.go, and its theorems at concrete queues.
use mathlib.Core.List.{map}
use p2papp.Prelude.{
  Option, none, true, inl, inr, if◌then◌else◌, ◌≡◌, refl, some, List, [], ◌∷◌, arith, Str, str_dec,
  codes, add64, lt64, ◌+◌,
}
use p2papp.Assoc
use p2papp.Assoc.{Unique}
use p2papp.Queue.{
  Message, json, Codec, Outcome, done, Queue, leave, write_file, remove_file, has_file, ext_from,
  ext, peek, mark_first, remove_first, has_message, keeps, valid_only, stamp, file_name, save_bytes,
  drop_file, save_messages, save_peer, enqueue, dequeue, mark_pending, mark_attempt, remove_message,
  keep_valid, cleanup_loop, cleanup, load_messages, load_file, load_loop, load_listing, new_queue,
  Entry, directory, file, total_pending, total_of,
}
use p2papp.Queue.Totals
use p2papp.Queue.Files
use p2papp.Queue.Files.{IsLawful, Mirrors, file_of, Call, after}
use p2papp.Queue.Restart
use p2papp.Queue.Restart.{IsKnown, is_read}
use p2papp.Queue.Boxes
use p2papp.Queue.Boxes.{run, box_run, boxes_of}
use p2papp.Wire.{encode_messages, decode_messages, decode_messages-encode_messages}

program : Unit {0}
unfolding leave write_file remove_file has_file ext_from ext peek mark_first remove_first
    has_message keeps valid_only stamp file_name save_bytes drop_file save_messages save_peer
    enqueue dequeue mark_pending mark_attempt remove_message keep_valid cleanup_loop cleanup
    load_messages load_file load_loop load_listing new_queue total_pending total_of str_dec add64
    lt64 Assoc.get Assoc.put Assoc.remove
program = tt

-- Ids as their own text forms; the empty text is refused.
abbrev decode_id : Str → Option Str
decode_id [] = none
decode_id (c ∷ cs) = some (c ∷ cs)

abbrev codec : Codec
codec = record {
  encode = λ ms. some (encode_messages ms);
  decode = decode_messages;
  peer_string = λ p. p;
  peer_decode = decode_id;
}

map_id : (ms : List Message) → ms ≡ map (λ (m : Message). record m { content = m.content }) ms
map_id [] = refl
map_id (m ∷ ms) = ground (arith, map_id ms)

codec-IsLawful : IsLawful codec
codec-IsLawful = record {
  reread = λ c. c;
  encode_total = λ ms. (encode_messages ms, refl);
  decode-encode = λ ms b e. ground (arith, decode_messages-encode_messages ms, map_id ms);
  peer_string_injective = λ p j e. e;
}

abbrev io : Str → Outcome
io name = done

abbrev message : Str → Message
message id = record {
  id = id;
  from = codes "p";
  to = codes "q";
  kind = codes "dm";
  content = json [];
  created_at = 0;
  expires_at = 0;
  attempts = 0;
  last_attempt = 0;
}

abbrev empty : Queue
empty = record { disk = []; pending = []; ttl = 10; max_retry = 10 }

abbrev stamped : Str → Message
stamped id = record (message id) { created_at = 100; expires_at = 110 }

abbrev two : Queue
two = record empty {
  disk = (codes "q.json", encode_messages (stamped (codes "1") ∷ stamped (codes "2") ∷ [])) ∷ [];
  pending = (codes "q", stamped (codes "1") ∷ stamped (codes "2") ∷ []) ∷ [];
}

two_run :
    (enqueue codec io [] 100
      (message (codes "2"))
      (enqueue codec io [] 100 (message (codes "1")) empty).0).0
    ≡ two
unfolding program
two_run = refl

remove_run :
    peek (codes "q") (remove_message codec io (codes "q") (codes "1") two).0
    ≡ stamped (codes "2") ∷ []
unfolding program
remove_run = refl

expired_run : peek (codes "q") (cleanup codec io 110 two).0 ≡ []
unfolding program
expired_run = refl

empty-Mirrors : Mirrors codec empty
unfolding peek file_of Assoc.get
empty-Mirrors = record { files = λ p. refl; named = λ name b e. cc }

two-Mirrors : Mirrors codec two
unfolding program after
two-Mirrors =
    Files.after-Mirrors codec codec-IsLawful io (λ name. refl)
      (Call.enqueues [] 100 (message (codes "2")))
      (enqueue codec io [] 100 (message (codes "1")) empty).0
      (Files.after-Mirrors codec codec-IsLawful io (λ name. refl)
        (Call.enqueues [] 100 (message (codes "1"))) empty empty-Mirrors)

two_pending-Unique : Unique two.pending
unfolding Assoc.get
two_pending-Unique = (refl, tt)

two_disk-Unique : Unique two.disk
unfolding Assoc.get
two_disk-Unique = (refl, tt)

cleanup_lem_example :
    ((j : Str) → peek j (cleanup codec io 110 two).0 ≡ valid_only 110 10 (peek j two))
    × ((cleanup codec io 110 two).1 + total_pending (cleanup codec io 110 two).0
        ≡ total_pending two)
cleanup_lem_example = Totals.cleanup_lem codec io 110 two two_pending-Unique

after-Mirrors_example : Mirrors codec (after codec io (Call.dequeues (codes "q")) two)
after-Mirrors_example =
    Files.after-Mirrors codec codec-IsLawful io (λ name. refl) (Call.dequeues (codes "q")) two
      two-Mirrors

-- The directory of the queue, with a directory in it.
abbrev listing : List Entry
listing =
    directory (codes "old.json")
    ∷ file (codes "q.json")
        (some (encode_messages (stamped (codes "1") ∷ stamped (codes "2") ∷ [])))
    ∷ []

ids-IsKnown : (p : Str) → IsKnown codec p
ids-IsKnown [] = inr refl
ids-IsKnown (c ∷ cs) = inl refl

peek-new_queue_example :
    (r : Queue) × (new_queue codec true (some listing) two.disk ≡ some r)
    × ((p : Str)
        → peek p r ≡ (
            if is_read (decode_id p)
            then map (λ (m : Message). record m { content = m.content }) (peek p two)
            else []))
unfolding codec-IsLawful
peek-new_queue_example =
    Restart.peek-new_queue codec codec-IsLawful two listing two-Mirrors two_disk-Unique
      (refl, refl, tt) (λ p some_wait. ids-IsKnown p)

abbrev some_calls : List Call
some_calls =
    Call.enqueues [] 105 (message (codes "3"))
    ∷ Call.marks (codes "q") (codes "2") 107
    ∷ Call.removes (codes "q") (codes "1")
    ∷ Call.cleans 110
    ∷ Call.dequeues (codes "q")
    ∷ []

run-box_run_example :
    (boxes_of (run codec io some_calls two).0, (run codec io some_calls two).1)
    ≡ box_run 10 10 some_calls (boxes_of two)
run-box_run_example = Boxes.run-box_run codec io some_calls two two_pending-Unique
