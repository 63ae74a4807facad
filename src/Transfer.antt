-- ===== src/Transfer.antt =====
-- internal/cloud/transfer.go: serving files to peers and downloading from them. A stream is the bytes
-- that its writer puts on it; a peer is a function from the bytes of a request to what comes back.
-- JSON is a parameter, `Codec`.
pub mod Serving
pub mod Downloads
pub mod Failures
pub mod Roundtrip
pub mod Forgery
mod Tests
use p2papp.Prelude.{
  ℕ, ◌+◌, Bool, true, false, Option, none, some, List, [], ◌∷◌, ◌++◌, Str, str_dec, codes, holds,
  ◌==◌, ◌⊎◌, inl, inr, ◌>>=◌, or_error, if◌then◌else◌,
}
use p2papp.File.{Outcome, Disk, write_file, append_file, remove_file, rename_file}
use p2papp.Storage.{
  FileStorage, FileMetadata, FileInfo, Chunk, Env, load_metadata, get_chunk, get_info,
}

-- `TransferRequest`; kind is its field Type.
pub record Request : Type 0 where
  pub kind : Str
  pub file_hash : Str
  pub chunk_hash : Str

-- `TransferResponse`; content is its field Data.
pub record Response : Type 0 where
  pub success : Bool
  pub error : Str
  pub content : List ℕ

-- `FileNotification`
pub record Notification : Type 0 where
  pub file_hash : Str
  pub file_name : Str
  pub file_size : ℕ
  pub from : Str

-- encoding/json on requests, responses, metadata and notifications. Their marshalling has no error.
pub record Codec : Type 0 where
  pub marshal_request : Request → List ℕ
  pub unmarshal_request : List ℕ → Option Request
  pub marshal_response : Response → List ℕ
  pub unmarshal_response : List ℕ → Option Response
  pub marshal_metadata : FileMetadata → List ℕ
  pub marshal_notification : Notification → List ℕ
  pub unmarshal_notification : List ℕ → Option Notification

-- The errors of the client.
pub data TransferError : Type 0 where
  stream_not_opened request_not_sent response_not_read response_not_parsed refused : TransferError
  metadata_not_parsed temp_not_created chunk_not_appended not_renamed : TransferError
  info_not_loaded : TransferError

-- What a peer does with a request: no stream, no write, a broken read, or bytes up to the end.
pub data Reply : Type 0 where
  unopened unwritten unread : Reply
  replied : List ℕ → Reply

abbrev pub Peer : Type 0
Peer = List ℕ → Reply

abbrev pub newline : ℕ
newline = 10

-- `ReadBytes('\n')`: the bytes up to the first newline and with it, or all bytes and io.EOF.
unfoldable pub read_line : List ℕ → List ℕ × Bool
read_line [] = ([], false)
read_line (c ∷ cs) =
    let (line, found) = read_line cs in if c == newline then (c ∷ [], true) else (c ∷ line, found)

unfoldable pub failure : Str → Response
failure message = record { success = false; error = message; content = [] }

unfoldable pub success_of : List ℕ → Response
success_of b = record { success = true; error = []; content = b }

abbrev pub metadata_kind : Str
metadata_kind = codes "metadata"

abbrev pub chunk_kind : Str
chunk_kind = codes "chunk"

module _ (codec : Codec) where
  -- `sendResponse`
  unfoldable pub send_response : Response → List ℕ
  send_response r = codec.marshal_response r ++ newline ∷ []

  -- The bytes of a request.
  unfoldable pub request_bytes : Request → List ℕ
  request_bytes r = codec.marshal_request r ++ newline ∷ []

  -- `handleNotify`: the notification that it prints.
  unfoldable pub notified : Str → Option Notification → Option Notification
  notified remote none = none
  notified remote (some n) = some (record n { from = remote })

  unfoldable pub handle_notify : Str → List ℕ → Option Notification
  handle_notify remote stream =
      let (line, found) = read_line stream in
      if found then notified remote (codec.unmarshal_notification line) else none

  -- The response to a request, from what the peer does with its bytes.
  unfoldable pub parse_reply : Reply → TransferError ⊎ Response
  parse_reply unopened = inl stream_not_opened
  parse_reply unwritten = inl request_not_sent
  parse_reply unread = inl response_not_read
  parse_reply (replied b) = or_error response_not_parsed (codec.unmarshal_response (read_line b).0)

  unfoldable pub accepted : Response → TransferError ⊎ List ℕ
  accepted r = if r.success then inr r.content else inl refused

  -- `requestChunk`
  unfoldable pub request_chunk : Peer → Str → TransferError ⊎ List ℕ
  request_chunk peer hash =
      parse_reply
        (peer (request_bytes (record { kind = chunk_kind; file_hash = []; chunk_hash = hash })))
      >>= accepted

  module _ (env : Env) where
    -- `requestMetadata`
    unfoldable pub request_metadata : Peer → Str → TransferError ⊎ FileMetadata
    request_metadata peer hash =
        parse_reply (
          peer (request_bytes (record { kind = metadata_kind; file_hash = hash; chunk_hash = [] })))
        >>= accepted
        >>= λ b. or_error metadata_not_parsed (env.unmarshal b)

    module _ (s : FileStorage) where
      -- `handleTransfer`: the two kinds of request, the switch, and the stream.
      unfoldable pub metadata_response : Option FileMetadata → Response
      metadata_response none = failure (codes "file not found")
      metadata_response (some m) = success_of (codec.marshal_metadata m)

      unfoldable pub chunk_response : Option (List ℕ) → Response
      chunk_response none = failure (codes "chunk not found")
      chunk_response (some b) = success_of b

      unfoldable pub respond : Option Request → Disk → Response
      respond none d = failure (codes "invalid request")
      respond (some r) d =
          if holds (str_dec r.kind metadata_kind)
          then metadata_response (load_metadata env s r.file_hash d)
          else if holds (str_dec r.kind chunk_kind)
          then chunk_response (get_chunk env s r.chunk_hash d)
          else failure (codes "unknown request type")

      unfoldable pub handle_transfer : List ℕ → Disk → List ℕ
      handle_transfer stream d =
          let (line, found) = read_line stream in
          if found then send_response (respond (codec.unmarshal_request line) d) else []

      -- `NotifyPeer`: the bytes for the peer; `opens` and `writes` are whether the stream takes them.
      unfoldable pub notification_of : Str → Str → FileInfo → List ℕ
      notification_of self hash i =
          codec.marshal_notification
            (record { file_hash = hash; file_name = i.name; file_size = i.size; from = self })
          ++ newline ∷ []

      unfoldable pub notify_peer : Str → Bool → Bool → Str → Disk → TransferError ⊎ List ℕ
      notify_peer self opens writes hash d =
          or_error info_not_loaded (get_info env s hash d) >>= λ i.
          if opens
          then (if writes then inr (notification_of self hash i) else inl request_not_sent)
          else inl stream_not_opened

-- What the file system answers during a download: for the creation of the temporary file, for each
-- write, for its removal, and for the renaming.
pub record Answers : Type 0 where
  pub created : Outcome
  pub writes : ℕ → Outcome
  pub removed : Outcome
  pub renamed : Bool

-- `destPath + ".tmp"`
unfoldable pub temp_path : Str → Str
temp_path dest = dest ++ codes ".tmp"

abbrev pub unless_stopped :
    Option TransferError
    → Disk
    → Disk × (TransferError ⊎ Unit {0})
    → Disk × (TransferError ⊎ Unit {0})
unless_stopped none d rest = rest
unless_stopped (some e) d rest = (d, inl e)

module _ (codec : Codec) (env : Env) (peer : Peer) (a : Answers) (dest : Str) where
  -- `Download`, a round of its loop from the answer to the request.
  unfoldable pub download_chunk : ℕ → TransferError ⊎ List ℕ → Disk → Disk × Option TransferError
  download_chunk k (inl e) d = ((remove_file a.removed (temp_path dest) d).0, some e)
  download_chunk k (inr b) d =
      let (d', ok) = append_file (a.writes k) (temp_path dest) b d in
      if ok
      then (d', none)
      else ((remove_file a.removed (temp_path dest) d').0, some chunk_not_appended)

  unfoldable pub finish : Disk → Disk × (TransferError ⊎ Unit {0})
  finish d =
      let (d', ok) = rename_file a.renamed (temp_path dest) dest d in
      (d', if ok then inr tt else inl not_renamed)

  unfoldable pub download_loop : ℕ → List Chunk → Disk → Disk × (TransferError ⊎ Unit {0})
  download_loop k [] d = finish d
  download_loop k (c ∷ cs) d =
      let (d', stop) = download_chunk k (request_chunk codec peer c.hash) d in
      unless_stopped stop d' (download_loop (k + 1) cs d')

  unfoldable pub download_metadata :
      TransferError ⊎ FileMetadata → Disk → Disk × (TransferError ⊎ Unit {0})
  download_metadata (inl e) d = (d, inl e)
  download_metadata (inr m) d =
      let (d', ok) = write_file a.created (temp_path dest) [] d in
      if ok then download_loop 0 m.chunks d' else (d', inl temp_not_created)

  -- `Download`
  unfoldable pub download : Str → Disk → Disk × (TransferError ⊎ Unit {0})
  download hash d = download_metadata (request_metadata codec env peer hash) d
