-- ===== src/Transfer/Failures.antt =====
-- What `Download` of internal/cloud/transfer.go leaves on the disk where it fails.
use p2papp.Prelude.{
  ℕ, ◌+◌, ◌≡◌, ◌≢◌, refl, ◌∙◌, Option, none, some, List, [], ◌∷◌, Str, inl, inr, ◌⊎◌, Bool-cases,
  Option-cases,
}
use p2papp.Assoc
use p2papp.File.{Disk, write_file, append_file, rename_file}
use p2papp.File.Frame.{get-write_file_ne, get-append_file_ne, get-remove_file_ne}
use p2papp.Storage.{Chunk, FileMetadata, Env}
use p2papp.Transfer.{
  Codec, Peer, Answers, TransferError, request_chunk, request_metadata, temp_path, download_chunk,
  finish, download_loop, download_metadata, download, unless_stopped,
}

module _ (codec : Codec) (env : Env) (peer : Peer) (a : Answers) (dest p : Str)
    (other : temp_path dest ≢ p) where
  -- A result that is an error leaves the file at `p` as it was.
  KeptOnError : Disk → Disk × (TransferError ⊎ Unit {0}) → Type 0
  KeptOnError d r = r.1 ≢ inr tt → Assoc.get p r.0 ≡ Assoc.get p d

  get-download_chunk :
      (k : ℕ) (r : TransferError ⊎ List ℕ) (d : Disk)
      → Assoc.get p (download_chunk codec env peer a dest k r d).0 ≡ Assoc.get p d
  unfolding download_chunk
  get-download_chunk k (inl e) d = get-remove_file_ne (temp_path dest) p d other a.removed
  get-download_chunk k (inr b) d =
      let written = append_file (a.writes k) (temp_path dest) b d in
      let kept = get-append_file_ne (temp_path dest) p d other (a.writes k) b in
      elim (Bool-cases written.1) [
        | inl whole ↦ rw whole kept
        | inr broken ↦
            rw broken (get-remove_file_ne (temp_path dest) p written.0 other a.removed ∙ kept)
      ]

  finish-KeptOnError : (d : Disk) → KeptOnError d (finish codec env peer a dest d)
  unfolding KeptOnError finish rename_file
  finish-KeptOnError d = elim (Option-cases (Assoc.get (temp_path dest) d)) [
    | inl none_there ↦ rw none_there (λ bad. refl)
    | inr (b, there) ↦ elim (Bool-cases a.renamed) [
      | inl moved ↦ rw (there, moved) (λ bad. absurd (bad refl))
      | inr refused ↦ rw (there, refused) (λ bad. refl)
    ]
  ]

  unless_stopped-KeptOnError :
      (stop : Option TransferError) (d d' : Disk) (rest : Disk × (TransferError ⊎ Unit {0}))
      → Assoc.get p d' ≡ Assoc.get p d
      → KeptOnError d' rest
      → KeptOnError d (unless_stopped stop d' rest)
  unfolding KeptOnError
  unless_stopped-KeptOnError none d d' rest kept later = λ bad. later bad ∙ kept
  unless_stopped-KeptOnError (some e) d d' rest kept later = λ bad. kept

  download_loop-KeptOnError :
      (k : ℕ) (cs : List Chunk) (d : Disk)
      → KeptOnError d (download_loop codec env peer a dest k cs d)
  unfolding download_loop
  download_loop-KeptOnError k [] d = finish-KeptOnError d
  download_loop-KeptOnError k (c ∷ cs) d =
      let answer = request_chunk codec peer c.hash in
      let r = download_chunk codec env peer a dest k answer d in
      unless_stopped-KeptOnError r.1 d r.0 (download_loop codec env peer a dest (k + 1) cs r.0)
        (get-download_chunk k answer d) (download_loop-KeptOnError (k + 1) cs r.0)

  download_metadata-KeptOnError :
      (r : TransferError ⊎ FileMetadata) (d : Disk)
      → KeptOnError d (download_metadata codec env peer a dest r d)
  unfolding download_metadata KeptOnError
  download_metadata-KeptOnError (inl e) d = λ bad. refl
  download_metadata-KeptOnError (inr m) d =
      let made = write_file a.created (temp_path dest) [] d in
      let kept = get-write_file_ne (temp_path dest) p d other a.created [] in
      elim (Bool-cases made.1) [
        | inl ok ↦ rw ok (λ bad. download_loop-KeptOnError 0 m.chunks made.0 bad ∙ kept)
        | inr broken ↦ rw broken (λ bad. kept)
      ]

  -- A download that returns an error, whatever the peer and the file system did, has changed no
  -- file but its temporary one: in particular the file at the destination is as it was.
  pub get-download :
      (hash : Str) (d : Disk)
      → (download codec env peer a dest hash d).1 ≢ inr tt
      → Assoc.get p (download codec env peer a dest hash d).0 ≡ Assoc.get p d
  unfolding download KeptOnError
  get-download hash d = download_metadata-KeptOnError (request_metadata codec env peer hash) d
