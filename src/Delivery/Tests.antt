-- ===== src/Delivery/Tests.antt =====
-- Runs of the delivery loops of internal/relay/node.go, and their theorems at a concrete queue.
use p2papp.Prelude.{
  ◌≡◌, ◌≢◌, refl, true, ◌||◌, none, some, List, [], ◌∷◌, arith, Str, str_dec, codes, add64, map,
}
use p2papp.Assoc
use p2papp.Queue.{
  Message, json, Codec, Outcome, done, Queue, leave, write_file, remove_file, has_file, peek,
  mark_first, remove_first, has_message, file_name, save_bytes, drop_file, save_messages, save_peer,
  mark_pending, mark_attempt, remove_message,
}
use p2papp.Delivery.{
  Network, ignore, relay_message, content_bytes, overlay, settle, on_failure, on_success, visit,
  rounds, deliver_pending, announce_delivery, tick_delivery,
}
use p2papp.Delivery.Kept
use p2papp.Delivery.Skipped
use p2papp.Delivery.Skipped.{Others}

program : Unit {0}
unfolding leave write_file remove_file has_file peek mark_first remove_first has_message file_name
    save_bytes drop_file save_messages save_peer mark_pending mark_attempt remove_message
    relay_message content_bytes overlay settle on_failure on_success visit rounds deliver_pending
    announce_delivery tick_delivery str_dec add64 Assoc.get Assoc.put Assoc.remove
program = tt

abbrev codec : Codec
codec = record {
  encode = λ ms. some [];
  decode = λ b. none;
  peer_string = λ p. p;
  peer_decode = λ s. some s;
}

abbrev io : Str → Outcome
io name = done

abbrev message : Str → Message
message id = record {
  id = id;
  from = codes "p";
  to = codes "q";
  kind = codes "forward";
  content = json [];
  created_at = 0;
  expires_at = 0;
  attempts = 0;
  last_attempt = 0;
}

abbrev three : Queue
three = record {
  disk = [];
  pending = (codes "q", message (codes "1") ∷ message (codes "2") ∷ message (codes "3") ∷ []) ∷ [];
  ttl = 10;
  max_retry = 10;
}

abbrev up : Network
up k m = true

-- Every delivery succeeds, and still the second message is not delivered and the third is
-- delivered twice.
announce_run :
    (map (λ (m : Message). m.id) (announce_delivery codec io (codes "q") up three).sent
      ≡ codes "1" ∷ codes "3" ∷ codes "3" ∷ [])
    × (peek (codes "q") (announce_delivery codec io (codes "q") up three).queue
        ≡ message (codes "2") ∷ [])
unfolding program
announce_run = (refl, refl)

deliver_pending-kept_example :
    (has_message
        (codes "2")
        (peek (codes "q") (deliver_pending codec io (codes "q") up ignore three).queue)
      || has_message (codes "2") (deliver_pending codec io (codes "q") up ignore three).sent)
    ≡ true
unfolding program
deliver_pending-kept_example =
    Kept.deliver_pending-kept codec io (codes "q") up ignore (codes "2") three refl

ids_differ : (codes "1" ≢ codes "2") × (codes "3" ≢ codes "2")
ids_differ = ((λ e. ground arith), λ e. ground arith)

deliver_pending-skips_example :
    ((behind : List Message) × (peek
          (codes "q")
          (deliver_pending codec io (codes "q") up ignore three).queue
        ≡ message (codes "2") ∷ behind))
    × Others (codes "2") (deliver_pending codec io (codes "q") up ignore three).sent
unfolding peek Assoc.get str_dec
deliver_pending-skips_example =
    Skipped.deliver_pending-skips codec io (codes "q") (message (codes "2")) up ignore
      (message (codes "1")) (message (codes "3")) [] three refl refl ids_differ.0 (ids_differ.1, tt)
