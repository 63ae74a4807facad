-- ===== src/Storage/Chunks.antt =====
-- What the loop of `Store` in internal/cloud/storage.go leaves on the disk and in the metadata.
use p2papp.Prelude.{
  ℕ, ◌≡◌, refl, ap, ◌∙◌, some, List, [], ◌∷◌, ◌++◌, map, Str, In, inl, inr, add64, arith,
}
use p2papp.Assoc
use p2papp.Assoc.{get-put, get-put_self, get-put_ne}
use p2papp.File.{Outcome, done, Disk, write_file}
use p2papp.Storage.{
  FileStorage, Chunk, chunk_first, Env, Read, got, new_chunk, chunk_path, store_chunks,
}

-- The chunks of pieces of a file.
abbrev pub chunk_list : Env → ℕ → List (List ℕ) → List Chunk
chunk_list env index [] = []
chunk_list env index (b ∷ bs) = new_chunk env index b ∷ chunk_list env (add64 index 1) bs

-- The pieces in one.
abbrev pub joined : List (List ℕ) → List ℕ
joined [] = []
joined (b ∷ bs) = b ++ joined bs

module _ (env : Env) (s : FileStorage) (io : Str → Outcome) where
  -- A read whose chunk is written.
  store_chunks-cons :
      (index : ℕ) (b : List ℕ) (rs : List Read) (d : Disk)
      → io (chunk_path env s (env.hash_of b)) ≡ done
      → store_chunks env s io index (got b ∷ rs) d ≡ (
        (store_chunks env s io
            (add64 index 1)
            rs
            (Assoc.put (chunk_path env s (env.hash_of b)) b d)).0,
        chunk_first
            (new_chunk env index b)
            (store_chunks env s io
              (add64 index 1)
              rs
              (Assoc.put (chunk_path env s (env.hash_of b)) b d)).1,
      )
  unfolding store_chunks write_file
  store_chunks-cons index b rs d ok = rw (ok, write_file) refl

  pub store_chunks-got :
      (index : ℕ) (ps : List (List ℕ)) (d : Disk)
      → ((b : List ℕ) → In b ps → io (chunk_path env s (env.hash_of b)) ≡ done)
      → (store_chunks env s io index (map got ps) d).1 ≡ inr (chunk_list env index ps)
  unfolding store_chunks
  store_chunks-got index [] d ok = refl
  store_chunks-got index (b ∷ ps) d ok =
      ap (λ r. r.1) (store_chunks-cons index b (map got ps) d (ok b (inl refl)))
      ∙ ap (chunk_first (new_chunk env index b)) (
          store_chunks-got (add64 index 1) ps (Assoc.put (chunk_path env s (env.hash_of b)) b d)
            (λ x i. ok x (inr i)))

  -- A chunk on the disk stays, whatever other pieces are stored.
  get-store_chunks_kept :
      (x : List ℕ) (index : ℕ) (ps : List (List ℕ)) (d : Disk)
      → ((b : List ℕ) → In b ps → io (chunk_path env s (env.hash_of b)) ≡ done)
      → ((b : List ℕ)
          → In b ps
          → chunk_path env s (env.hash_of b) ≡ chunk_path env s (env.hash_of x)
          → b ≡ x)
      → Assoc.get (chunk_path env s (env.hash_of x)) d ≡ some x
      → Assoc.get (chunk_path env s (env.hash_of x)) (store_chunks env s io index (map got ps) d).0
        ≡ some x
  unfolding store_chunks
  get-store_chunks_kept x index [] d ok same h = h
  get-store_chunks_kept x index (b ∷ ps) d ok same h =
      ap (λ r. Assoc.get (chunk_path env s (env.hash_of x)) r.0)
        (store_chunks-cons index b (map got ps) d (ok b (inl refl)))
      ∙ get-store_chunks_kept x (add64 index 1) ps
          (Assoc.put (chunk_path env s (env.hash_of b)) b d) (λ y i. ok y (inr i))
          (λ y i. same y (inr i))
          (ground (
            arith,
            same b (inl refl),
            h,
            get-put (chunk_path env s (env.hash_of x)) (chunk_path env s (env.hash_of b)) b d,
          ))

  -- Each piece stands on the disk, under the name of its hash.
  pub get-store_chunks :
      (index : ℕ) (ps : List (List ℕ)) (d : Disk)
      → ((b : List ℕ) → In b ps → io (chunk_path env s (env.hash_of b)) ≡ done)
      → ((x y : List ℕ)
          → In x ps
          → In y ps
          → chunk_path env s (env.hash_of x) ≡ chunk_path env s (env.hash_of y)
          → x ≡ y)
      → (x : List ℕ) → In x ps
      → Assoc.get (chunk_path env s (env.hash_of x)) (store_chunks env s io index (map got ps) d).0
        ≡ some x
  get-store_chunks index [] d ok same x i = absurd i
  get-store_chunks index (b ∷ ps) d ok same x (inr i) =
      ap (λ r. Assoc.get (chunk_path env s (env.hash_of x)) r.0)
        (store_chunks-cons index b (map got ps) d (ok b (inl refl)))
      ∙ get-store_chunks (add64 index 1) ps (Assoc.put (chunk_path env s (env.hash_of b)) b d)
          (λ y j. ok y (inr j)) (λ y z j k. same y z (inr j) (inr k)) x i
  get-store_chunks index (b ∷ ps) d ok same x (inl e) =
      ap (λ r. Assoc.get (chunk_path env s (env.hash_of x)) r.0)
        (store_chunks-cons index b (map got ps) d (ok b (inl refl)))
      ∙ get-store_chunks_kept x (add64 index 1) ps
          (Assoc.put (chunk_path env s (env.hash_of b)) b d) (λ y j. ok y (inr j))
          (λ y j. same y x (inr j) (inl e))
          (ground (arith, e, get-put_self (chunk_path env s (env.hash_of b)) b d))
