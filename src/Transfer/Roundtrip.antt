-- ===== src/Transfer/Roundtrip.antt =====
-- A file that one node stores and another downloads: internal/cloud/storage.go and transfer.go.
use p2papp.Prelude.{ℕ, ◌≡◌, refl, ap, ◌∙◌, some, List, [], ◌∷◌, ◌++◌, Str, In, inl, inr, add64}
use p2papp.Assoc
use p2papp.File.{Outcome, done, Disk, or_empty}
use p2papp.Storage.{FileStorage, Chunk, Env, new_chunk, get_chunk, store, new_metadata}
use p2papp.Storage.Chunks.{chunk_list, joined}
use p2papp.Storage.Stored.{Apart, read_source, load_metadata-store, get_chunk-store}
use p2papp.Storage.Stored as Stored
use p2papp.Transfer.{Codec, Answers, download}
use p2papp.Transfer.Serving.{IsLawful, serving, request_chunk-serving, request_metadata-serving}
use p2papp.Transfer.Downloads.{AllDone, fetched, download_lem}

module _ (env : Env) (s : FileStorage) where
  -- What a directory has for a chunk.
  abbrev content_in : Disk → Str → List ℕ
  content_in d hash = or_empty (get_chunk env s hash d)

  fetched-chunk_list :
      (index : ℕ) (ps : List (List ℕ)) (d : Disk)
      → ((b : List ℕ) → In b ps → get_chunk env s (env.hash_of b) d ≡ some b)
      → fetched (content_in d) (chunk_list env index ps) ≡ joined ps
  unfolding new_chunk
  fetched-chunk_list index [] d there = refl
  fetched-chunk_list index (b ∷ ps) d there =
      ap (λ o. or_empty o ++ fetched (content_in d) (chunk_list env (add64 index 1) ps))
        (there b (inl refl))
      ∙ ap (b ++◌) (fetched-chunk_list (add64 index 1) ps d (λ x i. there x (inr i)))

  present-chunk_list :
      (index : ℕ) (ps : List (List ℕ)) (d : Disk) (c : Chunk)
      → ((b : List ℕ) → In b ps → get_chunk env s (env.hash_of b) d ≡ some b)
      → In c (chunk_list env index ps)
      → get_chunk env s c.hash d ≡ some (content_in d c.hash)
  unfolding new_chunk
  present-chunk_list index [] d c there i = absurd i
  present-chunk_list index (b ∷ ps) d c there (inl e) =
      let found : get_chunk env s c.hash d ≡ some b =
        ap (λ (x : Chunk). get_chunk env s x.hash d) e ∙ there b (inl refl) in
      rw found refl
  present-chunk_list index (b ∷ ps) d c there (inr i) =
      present-chunk_list (add64 index 1) ps d c (λ x j. there x (inr j)) i

module _ (codec : Codec) (env : Env) (s : FileStorage) (files : Stored.IsLawful env s)
    (json : IsLawful codec env) (io : Str → Outcome) (io_done : (path : Str) → io path ≡ done) where
  -- Where JSON reads back what it wrote, every file operation of both nodes succeeds and no two
  -- pieces of the file have one path: a file that one node stores, and that another node downloads
  -- from it by its hash, has at the destination the bytes of the pieces, in their order, and the
  -- download returns no error.
  pub download-store :
      (path dest : Str) (size : ℕ) (whole text : List ℕ) (ps : List (List ℕ)) (d local : Disk)
      (a : Answers)
      → env.marshal (new_metadata env s io path size (env.hash_of whole) (chunk_list env 0 ps))
        ≡ some text
      → Apart env s ps
      → AllDone a
      → let stored = (store env s io path (some (read_source size whole ps)) d).0 in
        let result =
          download codec env (serving codec env json s stored) a dest (env.hash_of whole) local in
        (Assoc.get dest result.0 ≡ some (joined ps)) × (result.1 ≡ inr tt)
  unfolding new_metadata
  download-store path dest size whole text ps d local a e same ok =
      let stored = (store env s io path (some (read_source size whole ps)) d).0 in
      let m = new_metadata env s io path size (env.hash_of whole) (chunk_list env 0 ps) in
      let there = get_chunk-store env s files io io_done path size whole text ps d e same in
      let result =
        download_lem codec env (serving codec env json s stored) a dest ok (content_in env s stored)
          (env.hash_of whole) m local
          (request_metadata-serving codec env json s stored (env.hash_of whole) m
            (load_metadata-store env s files io io_done path size whole text ps d e))
          (λ c i.
            request_chunk-serving codec env json s stored c.hash (content_in env s stored c.hash)
              (present-chunk_list env s 0 ps stored c there i)) in
      (result.0 ∙ ap some (fetched-chunk_list env s 0 ps stored there), result.1)
