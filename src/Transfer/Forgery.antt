-- ===== src/Transfer/Forgery.antt =====
-- `Download` of internal/cloud/transfer.go does not compare what it receives with the hash that it
-- was asked for.
use mathlib.Core.List.{append-nil}
use p2papp.Prelude.{
  ℕ, ◌≡◌, refl, ap, ◌∙◌, Option, none, some, List, [], ◌∷◌, Str, str_dec, inr, holds, length, ◌>>=◌,
  if◌then◌else◌,
}
use p2papp.Assoc
use p2papp.File.{Disk}
use p2papp.Storage.{FileMetadata, Env}
use p2papp.Transfer.{
  Request, Response, Codec, Peer, Answers, replied, read_line, failure, success_of, metadata_kind,
  chunk_kind, send_response, request_bytes, parse_reply, accepted, request_chunk, request_metadata,
  download,
}
use p2papp.Transfer.Serving.{IsLawful, read_line_lem}
use p2papp.Transfer.Downloads.{AllDone, download_lem}

-- Metadata of one chunk.
abbrev pub forged_metadata : Str → List ℕ → FileMetadata
forged_metadata hash x = record {
  hash = hash;
  name = [];
  size = length x;
  chunk_count = 1;
  chunks = record { index = 0; hash = []; size = length x } ∷ [];
}

module _ (codec : Codec) (hash : Str) (x : List ℕ) where
  forged_response : Option Request → Response
  forged_response none = failure []
  forged_response (some r) =
      if holds (str_dec r.kind metadata_kind)
      then success_of (codec.marshal_metadata (forged_metadata hash x))
      else success_of x

  -- A peer that has one answer to every request for metadata, and one to every other request.
  pub forging : Peer
  forging stream =
      replied (send_response codec (forged_response (codec.unmarshal_request (read_line stream).0)))

module _ (codec : Codec) (env : Env) (laws : IsLawful codec env) (hash : Str) (x : List ℕ) where
  parse_reply-forging :
      (r : Request)
      → parse_reply codec (forging codec hash x (request_bytes codec r))
        ≡ inr (forged_response codec hash x (some r))
  unfolding forging request_bytes parse_reply send_response
  parse_reply-forging r =
      let answer = forged_response codec hash x (some r) in
      rw
        (
          read_line_lem (codec.marshal_request r) (laws.request_line r),
          laws.unmarshal_request-marshal_request r,
        )
        (rw
          (
            read_line_lem (codec.marshal_response answer) (laws.response_line answer),
            laws.unmarshal_response-marshal_response answer,
          )
          refl)

  request_metadata-forging :
      (asked : Str)
      → request_metadata codec env (forging codec hash x) asked ≡ inr (forged_metadata hash x)
  unfolding request_metadata forged_response accepted success_of str_dec
  request_metadata-forging asked =
      rw (parse_reply-forging (record { kind = metadata_kind; file_hash = asked; chunk_hash = [] }))
        (rw (laws.unmarshal-marshal_metadata (forged_metadata hash x)) refl)

  request_chunk-forging : (asked : Str) → request_chunk codec (forging codec hash x) asked ≡ inr x
  unfolding request_chunk forged_response accepted success_of str_dec
  request_chunk-forging asked =
      ap (λ r. r >>= accepted codec)
        (parse_reply-forging (record { kind = chunk_kind; file_hash = []; chunk_hash = asked }))

  -- Where JSON reads back what it wrote and every file operation succeeds: for every hash and any
  -- bytes, there is a peer from which a download of the hash returns no error and puts these
  -- bytes at the destination, whether they have the hash or not.
  pub download-forging :
      (dest : Str) (a : Answers) (d : Disk)
      → AllDone a
      → let result = download codec env (forging codec hash x) a dest hash d in
        (Assoc.get dest result.0 ≡ some x) × (result.1 ≡ inr tt)
  download-forging dest a d ok =
      let result =
        download_lem codec env (forging codec hash x) a dest ok (λ asked. x) hash
          (forged_metadata hash x) d (request_metadata-forging hash)
          (λ c i. request_chunk-forging c.hash) in
      (result.0 ∙ ap some (append-nil x), result.1)
