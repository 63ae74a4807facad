-- ===== src/Storage/Deletion.antt =====
-- `Delete` of internal/cloud/storage.go, and the files that share a chunk with the deleted one.
use p2papp.Prelude.{
  ℕ, ◌+◌, ◌≡◌, ◌≢◌, refl, sym, ap, ◌∙◌, Option, none, some, List, [], ◌∷◌, Str, In, inl, inr, arith,
  ◌⊎◌,
}
use p2papp.Assoc
use p2papp.Assoc.{get-remove, get-remove_self, get-remove_ne, get-put_ne}
use p2papp.File.{Outcome, done, failed, Disk, remove_file, write_file}
use p2papp.File.Frame.{get-write_file_ne, get-append_file_ne}
use p2papp.Storage.{
  FileStorage, FileMetadata, Chunk, Env, Error, chunk_not_read, chunk_path, meta_path, get_chunk,
  load_metadata, remove_chunks, delete, delete_loaded, retrieve_loop, retrieve_chunk, or_stop,
  retrieve, retrieve_loaded,
}

module _ (env : Env) (s : FileStorage) (io : Str → Outcome) where
  get-remove_file-none :
      (o : Outcome) (name path : Str) (d : Disk)
      → Assoc.get path d ≡ none
      → Assoc.get path (remove_file o name d).0 ≡ none
  unfolding remove_file
  get-remove_file-none done name path d h = ground (arith, get-remove path name d)
  get-remove_file-none (failed left) name path d h = h

  get-remove_chunks-none :
      (path : Str) (cs : List Chunk) (d : Disk)
      → Assoc.get path d ≡ none
      → Assoc.get path (remove_chunks env s io cs d) ≡ none
  unfolding remove_chunks
  get-remove_chunks-none path [] d h = h
  get-remove_chunks-none path (c ∷ cs) d h =
      get-remove_chunks-none path cs _
        (get-remove_file-none (io (chunk_path env s c.hash)) (chunk_path env s c.hash) path d h)

  get-remove_file_self :
      (o : Outcome) (path : Str) (d : Disk)
      → o ≡ done
      → Assoc.get path (remove_file o path d).0 ≡ none
  unfolding remove_file
  get-remove_file_self o path d e =
      ap (λ r. Assoc.get path (remove_file r path d).0) e ∙ get-remove_self path d

  get-remove_chunks :
      (c : Chunk) (cs : List Chunk) (d : Disk)
      → In c cs
      → io (chunk_path env s c.hash) ≡ done
      → Assoc.get (chunk_path env s c.hash) (remove_chunks env s io cs d) ≡ none
  unfolding remove_chunks
  get-remove_chunks c [] d i ok = absurd i
  get-remove_chunks c (b ∷ cs) d (inr i) ok = get-remove_chunks c cs _ i ok
  get-remove_chunks c (b ∷ cs) d (inl e) ok =
      get-remove_chunks-none (chunk_path env s c.hash) cs _ (
        ap
          (λ (x : Chunk).
            Assoc.get (chunk_path env s c.hash)
              (remove_file (io (chunk_path env s x.hash)) (chunk_path env s x.hash) d).0)
          (sym e)
        ∙ get-remove_file_self (io (chunk_path env s c.hash)) (chunk_path env s c.hash) d ok)

  -- After `Delete` of a file, no chunk of it whose removal the file system allows can be read.
  pub get_chunk-delete :
      (hash : Str) (m : FileMetadata) (c : Chunk) (d : Disk)
      → load_metadata env s hash d ≡ some m
      → In c m.chunks
      → io (chunk_path env s c.hash) ≡ done
      → get_chunk env s c.hash (delete env s io hash d).0 ≡ none
  unfolding get_chunk delete delete_loaded
  get_chunk-delete hash m c d e i ok =
      ap (λ o. Assoc.get (chunk_path env s c.hash) (delete_loaded env s io o hash d).0) e
      ∙ get-remove_file-none (io (meta_path env s hash)) (meta_path env s hash)
          (chunk_path env s c.hash) (remove_chunks env s io m.chunks d)
          (get-remove_chunks c m.chunks d i ok)

module _ (env : Env) (s : FileStorage) (dest : Str) (writes : ℕ → Outcome) where
  get-retrieve_chunk_ne :
      (k : ℕ) (o : Option (List ℕ)) (path : Str) (d : Disk)
      → dest ≢ path
      → Assoc.get path (retrieve_chunk env s dest writes k o d).0 ≡ Assoc.get path d
  unfolding retrieve_chunk
  get-retrieve_chunk_ne k none path d ne = refl
  get-retrieve_chunk_ne k (some b) path d ne = get-append_file_ne dest path d ne (writes k) b

  -- The loop once the chunk has been read.
  after_chunk : ℕ → Chunk → List Chunk → Disk → Option (List ℕ) → Disk × (Error ⊎ Unit {0})
  after_chunk k b cs d o =
      let (d', stop) = retrieve_chunk env s dest writes k o d in
      or_stop env s dest writes stop d' (retrieve_loop env s dest writes (k + 1) cs d')

  or_stop-ne :
      (stop : Option Error) (d : Disk) (rest : Disk × (Error ⊎ Unit {0}))
      → rest.1 ≢ inr tt
      → (or_stop env s dest writes stop d rest).1 ≢ inr tt
  or_stop-ne none d rest ne = ne
  or_stop-ne (some e) d rest ne = λ p. ground arith

  -- A chunk that is not on the disk stops the loop.
  retrieve_loop-missing :
      (k : ℕ) (c : Chunk) (cs : List Chunk) (d : Disk)
      → In c cs
      → dest ≢ chunk_path env s c.hash
      → get_chunk env s c.hash d ≡ none
      → (retrieve_loop env s dest writes k cs d).1 ≢ inr tt
  unfolding retrieve_loop retrieve_chunk get_chunk after_chunk
  retrieve_loop-missing k c [] d i ne h = absurd i
  retrieve_loop-missing k c (b ∷ cs) d (inl e) ne h =
      let absent = ap (λ (x : Chunk). get_chunk env s x.hash d) (sym e) ∙ h in
      λ q.
        let impossible : (inl chunk_not_read) ≡ (inr tt) =
          sym (ap (λ o. (after_chunk k b cs d o).1) absent) ∙ q in
        ground arith
  retrieve_loop-missing k c (b ∷ cs) d (inr i) ne h =
      or_stop-ne (retrieve_chunk env s dest writes k (get_chunk env s b.hash d) d).1 _ _ (
        retrieve_loop-missing (k + 1) c cs _ i ne
          (get-retrieve_chunk_ne k (get_chunk env s b.hash d) (chunk_path env s c.hash) d ne ∙ h))

  retrieve_loaded-missing :
      (created : Outcome) (m : FileMetadata) (c : Chunk) (d : Disk)
      → In c m.chunks
      → dest ≢ chunk_path env s c.hash
      → get_chunk env s c.hash d ≡ none
      → (retrieve_loaded env s dest writes created (some m) d).1 ≢ inr tt
  unfolding retrieve_loaded get_chunk write_file
  retrieve_loaded-missing (failed left) m c d i ne h = λ p. ground arith
  retrieve_loaded-missing done m c d i ne h =
      retrieve_loop-missing 0 c m.chunks _ i ne
        (get-write_file_ne dest (chunk_path env s c.hash) d ne done [] ∙ h)

module _ (env : Env) (s : FileStorage) (io : Str → Outcome) where
  -- A file that shares a chunk with a deleted file cannot be retrieved any more, although its
  -- metadata can be loaded, where the file system allowed the removal of the chunk: `Retrieve` to
  -- a path other than the chunk's returns an error, whatever the writes to its output do.
  pub retrieve-delete :
      (hash other dest : Str) (m m' : FileMetadata) (c c' : Chunk) (writes : ℕ → Outcome)
      (created : Outcome) (d : Disk)
      → load_metadata env s hash d ≡ some m
      → load_metadata env s other (delete env s io hash d).0 ≡ some m'
      → In c m.chunks
      → In c' m'.chunks
      → c'.hash ≡ c.hash
      → io (chunk_path env s c.hash) ≡ done
      → dest ≢ chunk_path env s c'.hash
      → (retrieve env s dest writes created other (delete env s io hash d).0).1 ≢ inr tt
  unfolding retrieve
  retrieve-delete hash other dest m m' c c' writes created d e e' i i' same ok ne = λ q.
      retrieve_loaded-missing env s dest writes created m' c' (delete env s io hash d).0 i' ne
        (ap (λ h. get_chunk env s h (delete env s io hash d).0) same
          ∙ get_chunk-delete env s io hash m c d e i ok)
        (sym (
            ap (λ o. (retrieve_loaded env s dest writes created o (delete env s io hash d).0).1) e')
          ∙ q)
