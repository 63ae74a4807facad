-- ===== src/Storage/Roundtrip.antt =====
-- `Store` and then `Retrieve` of internal/cloud/storage.go.
use p2papp.Prelude.{
  ℕ, ◌+◌, ◌≡◌, ◌≢◌, refl, sym, ap, ◌∙◌, none, some, List, [], ◌∷◌, ◌++◌, Str, In, inl, inr, add64,
}
use mathlib.Core.List.{append_assoc, append-nil}
use p2papp.Assoc
use p2papp.Assoc.{get-put_self, get-put_ne}
use p2papp.File.{Outcome, done, Disk, write_file, append_file, or_empty}
use p2papp.Storage.{
  FileStorage, Env, new_chunk, chunk_path, get_chunk, store, new_metadata, retrieve,
  retrieve_loaded, retrieve_loop, retrieve_chunk, or_stop,
}
use p2papp.Storage.Chunks.{chunk_list, joined}
use p2papp.Storage.Stored.{IsLawful, Apart, read_source, load_metadata-store, get_chunk-store}

module _ (env : Env) (s : FileStorage) (dest : Str) where
  -- A round whose chunk is on the disk.
  retrieve_chunk_lem :
      (k : ℕ) (hash : Str) (b acc : List ℕ) (d : Disk)
      → Assoc.get (chunk_path env s hash) d ≡ some b
      → Assoc.get dest d ≡ some acc
      → retrieve_chunk env s dest (λ n. done) k (get_chunk env s hash d) d
        ≡ (Assoc.put dest (acc ++ b) d, none)
  unfolding retrieve_chunk get_chunk append_file write_file
  retrieve_chunk_lem k hash b acc d there h =
      ap (λ o. retrieve_chunk env s dest (λ n. done) k o d) there
      ∙ ap (λ o. (Assoc.put dest (or_empty o ++ b) d, none)) h

  -- The loop of `Retrieve` appends to the output the pieces that are on the disk.
  get-retrieve_loop :
      (index k : ℕ) (ps : List (List ℕ)) (acc : List ℕ) (d : Disk)
      → ((b : List ℕ) → In b ps → Assoc.get (chunk_path env s (env.hash_of b)) d ≡ some b)
      → ((b : List ℕ) → In b ps → dest ≢ chunk_path env s (env.hash_of b))
      → Assoc.get dest d ≡ some acc
      → (Assoc.get dest (retrieve_loop env s dest (λ n. done) k (chunk_list env index ps) d).0
          ≡ some (acc ++ joined ps))
        × ((retrieve_loop env s dest (λ n. done) k (chunk_list env index ps) d).1 ≡ inr tt)
  unfolding retrieve_loop new_chunk
  get-retrieve_loop index k [] acc d there ne h = (h ∙ ap some (sym (append-nil acc)), refl)
  get-retrieve_loop index k (b ∷ ps) acc d there ne h =
      let next =
        get-retrieve_loop (add64 index 1) (k + 1) ps (acc ++ b) (Assoc.put dest (acc ++ b) d)
          (λ x i. get-put_ne _ dest (acc ++ b) d (ne x (inr i)) ∙ there x (inr i))
          (λ x i. ne x (inr i)) (get-put_self dest (acc ++ b) d) in
      let step =
        ap
          (λ r.
            or_stop env s dest (λ n. done) r.1 r.0
              (retrieve_loop env s dest (λ n. done) (k + 1) (chunk_list env (add64 index 1) ps)
                r.0))
          (retrieve_chunk_lem k (env.hash_of b) b acc d (there b (inl refl)) h) in
      (
        ap (λ r. Assoc.get dest r.0) step ∙ (next.0 ∙ ap some (append_assoc acc b (joined ps))),
        ap (λ r. r.1) step ∙ next.1,
      )

module _ (env : Env) (s : FileStorage) (laws : IsLawful env s) (io : Str → Outcome)
    (io_done : (path : Str) → io path ≡ done) where
  -- Where every file operation succeeds, JSON reads back the metadata, and no path of metadata is
  -- one of a chunk: a file that `Store` reads in pieces without an error, and that `Retrieve` writes
  -- to a path other than the chunks', has the bytes of the pieces, in their order, and `Retrieve`
  -- returns no error. Two pieces with one path must be the same piece (no collision of hashes).
  pub retrieve-store :
      (path dest : Str) (size : ℕ) (whole text : List ℕ) (ps : List (List ℕ)) (d : Disk)
      → env.marshal (new_metadata env s io path size (env.hash_of whole) (chunk_list env 0 ps))
        ≡ some text
      → Apart env s ps
      → ((b : List ℕ) → In b ps → dest ≢ chunk_path env s (env.hash_of b))
      → let stored = (store env s io path (some (read_source size whole ps)) d).0 in
        (Assoc.get dest (retrieve env s dest (λ n. done) done (env.hash_of whole) stored).0
          ≡ some (joined ps))
        × ((retrieve env s dest (λ n. done) done (env.hash_of whole) stored).1 ≡ inr tt)
  unfolding retrieve retrieve_loaded write_file get_chunk new_metadata
  retrieve-store path dest size whole text ps d e same ne =
      let stored = (store env s io path (some (read_source size whole ps)) d).0 in
      let run =
        ap (λ o. retrieve_loaded env s dest (λ n. done) done o stored)
          (load_metadata-store env s laws io io_done path size whole text ps d e) in
      let result =
        get-retrieve_loop env s dest 0 0 ps [] (Assoc.put dest [] stored)
          (λ b i.
            get-put_ne _ dest [] stored (ne b i)
            ∙ get_chunk-store env s laws io io_done path size whole text ps d e same b i)
          ne (get-put_self dest [] stored) in
      (ap (λ r. Assoc.get dest r.0) run ∙ result.0, ap (λ r. r.1) run ∙ result.1)
