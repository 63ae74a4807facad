-- ===== src/Storage/Stored.antt =====
-- What `Store` of internal/cloud/storage.go leaves on the disk.
use p2papp.Prelude.{ℕ, ◌≡◌, ◌≢◌, sym, ap, ◌∙◌, true, some, List, map, Str, In}
use p2papp.Assoc
use p2papp.Assoc.{get-put_self, get-put_ne}
use p2papp.File.{Outcome, done, Disk, write_file}
use p2papp.Storage.{
  FileStorage, FileMetadata, Source, Env, got, chunk_path, meta_path, store_chunks, get_chunk,
  store, store_sized, store_hashed, store_metadata, store_text, new_metadata, load_metadata,
  unmarshal_file, stored_info,
}
use p2papp.Storage.Chunks.{chunk_list, store_chunks-got, get-store_chunks}

-- JSON reads back what it wrote, and the paths of chunks and of metadata differ.
pub record IsLawful (env : Env) (s : FileStorage) : Type 0 where
  pub unmarshal-marshal :
      (m : FileMetadata) (b : List ℕ) → env.marshal m ≡ some b → env.unmarshal b ≡ some m
  pub paths_differ :
      (b : List ℕ) (w : List ℕ) → chunk_path env s (env.hash_of b) ≢ meta_path env s (env.hash_of w)

-- A file that is read in pieces without an error.
abbrev pub read_source : ℕ → List ℕ → List (List ℕ) → Source
read_source size whole ps = record { stat_size = some size; whole = some whole; reads = map got ps }

-- Two pieces with one path are the same piece.
abbrev pub Apart : Env → FileStorage → List (List ℕ) → Type 0
Apart env s ps =
    (x y : List ℕ)
    → In x ps
    → In y ps
    → chunk_path env s (env.hash_of x) ≡ chunk_path env s (env.hash_of y)
    → x ≡ y

module _ (env : Env) (s : FileStorage) (laws : IsLawful env s) (io : Str → Outcome)
    (io_done : (path : Str) → io path ≡ done) where
  -- What `Store` of pieces that are read does.
  store_lem :
      (path : Str) (size : ℕ) (whole text : List ℕ) (ps : List (List ℕ)) (d : Disk)
      → env.marshal (new_metadata env s io path size (env.hash_of whole) (chunk_list env 0 ps))
        ≡ some text
      → store env s io path
          (some (record { stat_size = some size; whole = some whole; reads = map got ps }))
          d
        ≡ (
          Assoc.put
              (meta_path env s (env.hash_of whole))
              text
              (store_chunks env s io 0 (map got ps) d).0,
          stored_info env s io true path
              (new_metadata env s io path size (env.hash_of whole) (chunk_list env 0 ps)),
        )
  unfolding store store_sized store_hashed store_metadata store_text write_file new_metadata
  store_lem path size whole text ps d e =
      ap
        (λ r.
          store_metadata env s io path size (env.hash_of whole) r
            (store_chunks env s io 0 (map got ps) d).0)
        (store_chunks-got env s io 0 ps d (λ b i. io_done _))
      ∙ (ap
            (λ o.
              store_text env s io o path
                (new_metadata env s io path size (env.hash_of whole) (chunk_list env 0 ps))
                (store_chunks env s io 0 (map got ps) d).0)
            e
          ∙ ap
              (λ o. (
                (write_file o (meta_path env s (env.hash_of whole)) text
                    (store_chunks env s io 0 (map got ps) d).0).0,
                stored_info env s io
                    (write_file o (meta_path env s (env.hash_of whole)) text
                      (store_chunks env s io 0 (map got ps) d).0).1
                    path
                    (new_metadata env s io path size (env.hash_of whole) (chunk_list env 0 ps)),
              ))
              (io_done (meta_path env s (env.hash_of whole))))

  module _ (path : Str) (size : ℕ) (whole text : List ℕ) (ps : List (List ℕ)) (d : Disk)
      (e : env.marshal (new_metadata env s io path size (env.hash_of whole) (chunk_list env 0 ps))
        ≡ some text) where
    pub load_metadata-store :
        load_metadata env s
          (env.hash_of whole)
          (store env s io path (some (read_source size whole ps)) d).0
        ≡ some (new_metadata env s io path size (env.hash_of whole) (chunk_list env 0 ps))
    unfolding load_metadata unmarshal_file
    load_metadata-store =
        ap (λ r. load_metadata env s (env.hash_of whole) r.0)
          (store_lem path size whole text ps d e)
        ∙ (ap (unmarshal_file env s) (
              get-put_self (meta_path env s (env.hash_of whole)) text
                (store_chunks env s io 0 (map got ps) d).0)
            ∙ laws.unmarshal-marshal _ text e)

    pub get_chunk-store :
        Apart env s ps
        → (b : List ℕ) → In b ps
        → get_chunk env s
            (env.hash_of b)
            (store env s io path (some (read_source size whole ps)) d).0
          ≡ some b
    unfolding get_chunk
    get_chunk-store same b i =
        ap (λ r. Assoc.get (chunk_path env s (env.hash_of b)) r.0)
          (store_lem path size whole text ps d e)
        ∙ (get-put_ne _ (meta_path env s (env.hash_of whole)) text
              (store_chunks env s io 0 (map got ps) d).0 (λ p. laws.paths_differ b whole (sym p))
            ∙ get-store_chunks env s io 0 ps d (λ x j. io_done _) same b i)
