-- ===== src/Transfer/Serving.antt =====
-- The answers of `handleTransfer` of internal/cloud/transfer.go, as its own clients read them.
use p2papp.Prelude.{
  ℕ, ◌≡◌, ◌≢◌, refl, ap, ◌∙◌, true, some, List, [], ◌∷◌, ◌++◌, Str, str_dec, All, arith, inr, ◌>>=◌,
}
use p2papp.File.{Disk}
use p2papp.Storage.{FileStorage, FileMetadata, Env, load_metadata, get_chunk}
use p2papp.Transfer.{
  Request, Response, Codec, Peer, replied, newline, read_line, success_of, metadata_kind,
  chunk_kind, send_response, request_bytes, parse_reply, accepted, request_chunk, request_metadata,
  metadata_response, chunk_response, respond, handle_transfer,
}

-- JSON reads back what it wrote, also with a newline behind it, and writes no newline itself.
pub record IsLawful (codec : Codec) (env : Env) : Type 0 where
  pub unmarshal_request-marshal_request :
      (r : Request) → codec.unmarshal_request (codec.marshal_request r ++ newline ∷ []) ≡ some r
  pub unmarshal_response-marshal_response :
      (r : Response) → codec.unmarshal_response (codec.marshal_response r ++ newline ∷ []) ≡ some r
  pub unmarshal-marshal_metadata :
      (m : FileMetadata) → env.unmarshal (codec.marshal_metadata m) ≡ some m
  pub request_line : (r : Request) → All (λ c. c ≢ newline) (codec.marshal_request r)
  pub response_line : (r : Response) → All (λ c. c ≢ newline) (codec.marshal_response r)

-- A line is read whole.
pub read_line_lem :
    (s : List ℕ)
    → All (λ c. c ≢ newline) s
    → read_line (s ++ newline ∷ []) ≡ (s ++ newline ∷ [], true)
unfolding read_line
read_line_lem [] a = refl
read_line_lem (c ∷ s) a = ground (arith, read_line_lem s a.1, a.0)

module _ (codec : Codec) (env : Env) (laws : IsLawful codec env) (s : FileStorage) (d : Disk) where
  -- A peer that runs this program over a directory.
  abbrev pub serving : Peer
  serving stream = replied (handle_transfer codec env s stream d)

  parse_reply-serving :
      (r : Request)
      → parse_reply codec (serving (request_bytes codec r)) ≡ inr (respond codec env s (some r) d)
  unfolding handle_transfer request_bytes parse_reply send_response
  parse_reply-serving r =
      let asked = read_line_lem (codec.marshal_request r) (laws.request_line r) in
      let answer = respond codec env s (some r) d in
      rw (asked, laws.unmarshal_request-marshal_request r)
        (rw
          (
            read_line_lem (codec.marshal_response answer) (laws.response_line answer),
            laws.unmarshal_response-marshal_response answer,
          )
          refl)

  pub request_chunk-serving :
      (hash : Str) (b : List ℕ)
      → get_chunk env s hash d ≡ some b
      → request_chunk codec serving hash ≡ inr b
  unfolding request_chunk respond chunk_response accepted success_of str_dec
  request_chunk-serving hash b e =
      ap (λ r. r >>= accepted codec)
        (parse_reply-serving (record { kind = chunk_kind; file_hash = []; chunk_hash = hash }))
      ∙ ap (λ o. accepted codec (chunk_response codec env s o)) e

  pub request_metadata-serving :
      (hash : Str) (m : FileMetadata)
      → load_metadata env s hash d ≡ some m
      → request_metadata codec env serving hash ≡ inr m
  unfolding request_metadata respond metadata_response accepted success_of str_dec
  request_metadata-serving hash m e =
      rw (parse_reply-serving (record { kind = metadata_kind; file_hash = hash; chunk_hash = [] }))
        (rw (e, laws.unmarshal-marshal_metadata m) refl)
