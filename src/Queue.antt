-- ===== src/Queue.antt =====
-- internal/relay/queue.go: the store-and-forward queue, in memory and on disk. The directory maps a
-- file's name to its bytes. JSON and the text form of a peer's id are a parameter, `Codec`; the
-- outcome of each write or removal of a file is an argument, `io`. A slice is its value here:
-- Delivery.antt has the array behind it.
pub mod Contents
pub mod Totals
pub mod Files
pub mod Restart
pub mod Boxes
mod Tests
use mathlib.Core.Logic.{ite}
use p2papp.Prelude.{
  ℕ, zero, suc, ◌+◌, ◌-◌, ◌≡◌, Bool, true, false, ◌&&◌, ◌||◌, not, Option, none, some, List, [],
  ◌∷◌, ◌++◌, map, Str, str_dec, codes, holds, ltb, ◌==◌, length, take, drop, add64, lt64, Time,
  hour, if◌then◌else◌,
}
use p2papp.Assoc
use p2papp.Assoc.{Assoc}
pub use p2papp.File.{Outcome, done, failed, Disk}
unfoldable pub use p2papp.File.{leave, write_file, has_file, remove_file, ext_from, ext}

-- A value behind `interface{}`: a `[]byte`, or anything else by its JSON text.
pub data Content : Type 0 where
  bytes : List ℕ → Content
  json : List ℕ → Content

-- `QueuedMessage`
pub record Message : Type 0 where
  pub id : Str
  pub from : Str
  pub to : Str
  pub kind : Str
  pub content : Content
  pub created_at : Time
  pub expires_at : Time
  pub attempts : ℕ
  pub last_attempt : Time

-- encoding/json on slices of messages, and `peer.ID.String` with `peer.Decode`.
pub record Codec : Type 0 where
  pub encode : List Message → Option (List ℕ)
  pub decode : List ℕ → Option (List Message)
  pub peer_string : Str → Str
  pub peer_decode : Str → Option Str

-- An entry of the queue's directory; a file's content is none where it cannot be read.
pub data Entry : Type 0 where
  directory : Str → Entry
  file : Str → Option (List ℕ) → Entry

-- `MessageQueue`
pub record Queue : Type 0 where
  pub disk : Disk
  pub pending : Assoc (List Message)
  pub ttl : ℕ
  pub max_retry : ℕ

-- `DefaultTTL`
abbrev pub default_ttl : ℕ
default_ttl = 604800000000000

abbrev pub json_ext : Str
json_ext = codes ".json"

abbrev pub or_nil : Option (List Message) → List Message
or_nil none = []
or_nil (some ms) = ms

-- `q.pending[peerID]`, and `Peek`.
unfoldable pub peek : Str → Queue → List Message
peek p q = or_nil (Assoc.get p q.pending)

-- `HasPending`, `PendingCount`
unfoldable pub has_pending : Str → Queue → Bool
has_pending p q = ltb 0 (length (peek p q))

unfoldable pub pending_count : Str → Queue → ℕ
pending_count p q = length (peek p q)

-- `TotalPending`
unfoldable pub total_of : Assoc (List Message) → ℕ
total_of [] = 0
total_of ((p, ms) ∷ m) = length ms + total_of m

unfoldable pub total_pending : Queue → ℕ
total_pending q = total_of q.pending

-- `PeersWithPending`
unfoldable pub peers_of : Assoc (List Message) → List Str
peers_of [] = []
peers_of ((p, ms) ∷ m) = if ltb 0 (length ms) then p ∷ peers_of m else peers_of m

unfoldable pub peers_with_pending : Queue → List Str
peers_with_pending q = peers_of q.pending

-- `MarkAttempt`, its loop: the first message with the id.
unfoldable pub mark_first : Str → Time → List Message → List Message
mark_first i now [] = []
mark_first i now (m ∷ ms) =
    ite (str_dec m.id i) (record m { attempts = add64 m.attempts 1; last_attempt = now } ∷ ms)
      (m ∷ mark_first i now ms)

-- `RemoveMessage`, its loop: the slice without the first message with the id.
unfoldable pub remove_first : Str → List Message → List Message
remove_first i [] = []
remove_first i (m ∷ ms) = ite (str_dec m.id i) ms (m ∷ remove_first i ms)

unfoldable pub has_message : Str → List Message → Bool
has_message i [] = false
has_message i (m ∷ ms) = holds (str_dec m.id i) || has_message i ms

-- The test of `Cleanup`: `now.Before(msg.ExpiresAt) && msg.Attempts < q.maxRetry`
unfoldable pub keeps : Time → ℕ → Message → Bool
keeps now max_retry m = ltb now m.expires_at && lt64 m.attempts max_retry

unfoldable pub valid_only : Time → ℕ → List Message → List Message
valid_only now max_retry [] = []
valid_only now max_retry (m ∷ ms) =
    if keeps now max_retry m then m ∷ valid_only now max_retry ms else valid_only now max_retry ms

-- `msg` as `Enqueue` stamps it; `fresh_id` is the clock's reading in decimal.
unfoldable pub stamp : Str → Time → ℕ → Message → Message
stamp fresh_id now ttl m = record m {
  id = ite (str_dec m.id []) fresh_id m.id;
  created_at = now;
  expires_at = now + ttl;
  attempts = 0;
}

-- The marking in `MarkAttempt`; with no entry for the peer there is no message to mark.
unfoldable pub mark_pending : Str → Str → Time → Option (List Message) → Queue → Queue
mark_pending p i now none q = q
mark_pending p i now (some ms) q = record q {
  pending = Assoc.put p (mark_first i now ms) q.pending;
}

-- The end of a round of `load`, from the peer of the file's name and the messages of its bytes.
unfoldable pub load_messages : Option Str → Option (List Message) → Queue → Queue
load_messages none ms q = q
load_messages (some p) none q = q
load_messages (some p) (some ms) q = record q { pending = Assoc.put p ms q.pending }

module _ (codec : Codec) where
  -- The name of a peer's file, inside the queue's directory.
  unfoldable pub file_name : Str → Str
  file_name p = codec.peer_string p ++ json_ext

  module _ (io : Str → Outcome) where
    -- `savePeer`
    unfoldable pub save_bytes : Option (List ℕ) → Str → Queue → Queue × Bool
    save_bytes none name q = (q, false)
    save_bytes (some b) name q =
        let (d, ok) = write_file (io name) name b q.disk in (record q { disk = d }, ok)

    unfoldable pub drop_file : Str → Queue → Queue × Bool
    drop_file name q =
        let (d, ok) = remove_file (io name) name q.disk in (record q { disk = d }, ok)

    unfoldable pub save_messages : List Message → Str → Queue → Queue × Bool
    save_messages [] name q = drop_file name q
    save_messages (m ∷ ms) name q = save_bytes (codec.encode (m ∷ ms)) name q

    unfoldable pub save_peer : Str → Queue → Queue × Bool
    save_peer p q = save_messages (peek p q) (file_name p) q

    -- `Enqueue`; the flag is false where it returns an error.
    unfoldable pub enqueue : Str → Time → Message → Queue → Queue × Bool
    enqueue fresh_id now m q = save_peer m.to (record q {
      pending = Assoc.put m.to (peek m.to q ++ stamp fresh_id now q.ttl m ∷ []) q.pending;
    })

    -- `Dequeue`
    unfoldable pub dequeue : Str → Queue → Queue × List Message
    dequeue p q =
        ((drop_file (file_name p) (record q { pending = Assoc.remove p q.pending })).0, peek p q)

    -- `MarkAttempt`
    unfoldable pub mark_attempt : Str → Str → Time → Queue → Queue
    mark_attempt p i now q = (save_peer p (mark_pending p i now (Assoc.get p q.pending) q)).0

    -- `RemoveMessage`
    unfoldable pub remove_message : Str → Str → Queue → Queue × Bool
    remove_message p i q =
        if has_message i (peek p q)
        then (
          (save_peer p
              (record q { pending = Assoc.put p (remove_first i (peek p q)) q.pending })).0,
          true,
        )
        else (q, false)

    -- `Cleanup`, the body of its loop for one peer, and the loop over a range of the map.
    unfoldable pub keep_valid : Str → List Message → Queue → Queue
    keep_valid p [] q =
        (drop_file (file_name p) (record q { pending = Assoc.remove p q.pending })).0
    keep_valid p (m ∷ ms) q =
        (save_peer p (record q { pending = Assoc.put p (m ∷ ms) q.pending })).0

    unfoldable pub cleanup_loop : Time → Assoc (List Message) → Queue → Queue × ℕ
    cleanup_loop now [] q = (q, 0)
    cleanup_loop now ((p, ms) ∷ rest) q =
        let valid = valid_only now q.max_retry ms in
        let (q', removed) = cleanup_loop now rest (keep_valid p valid q) in
        (q', removed + (length ms - length valid))

    unfoldable pub cleanup : Time → Queue → Queue × ℕ
    cleanup now q = cleanup_loop now q.pending q

  -- `load`: an entry of the directory, and the loop over `os.ReadDir`.
  unfoldable pub decode_file : Option (List ℕ) → Option (List Message)
  decode_file none = none
  decode_file (some b) = codec.decode b

  unfoldable pub load_file : Entry → Queue → Queue
  load_file (directory name) q = q
  load_file (file name content) q =
      ite (str_dec (ext name) json_ext)
        (load_messages (codec.peer_decode (take (length name - 5) name)) (decode_file content) q) q

  unfoldable pub load_loop : List Entry → Queue → Queue
  load_loop [] q = q
  load_loop (e ∷ es) q = load_loop es (load_file e q)

  -- `load`; the listing is none where `os.ReadDir` fails, of which `NewMessageQueue` only warns.
  unfoldable pub load_listing : Option (List Entry) → Queue → Queue
  load_listing none q = q
  load_listing (some es) q = load_loop es q

  -- `NewMessageQueue`; `has_dir` is whether its directory can be made.
  unfoldable pub new_queue : Bool → Option (List Entry) → Disk → Option Queue
  new_queue has_dir listing d =
      let q =
        load_listing listing
          (record { disk = d; pending = []; ttl = default_ttl; max_retry = 10 }) in
      if has_dir then some q else none
