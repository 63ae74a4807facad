-- ===== src/Storage/Tests.antt =====
-- Runs of the storage of internal/cloud/storage.go, and its theorems at concrete files.
use p2papp.Prelude.{
  ℕ, ◌≡◌, ◌≢◌, refl, some, List, [], ◌∷◌, map, str_dec, codes, inl, inr, arith, add64,
}
use p2papp.Assoc
use p2papp.File.{done, Disk, write_file, remove_file, has_file, append_file, leave}
use p2papp.Storage.{
  Source, got, new_chunk, chunk_path, meta_path, store_chunks, get_chunk, store, store_sized,
  store_hashed, store_metadata, store_text, new_metadata, retrieve, retrieve_loaded, retrieve_loop,
  retrieve_chunk, load_metadata, unmarshal_file, delete, delete_loaded, remove_chunks,
}
use p2papp.Storage.Chunks.{chunk_list, joined}
use p2papp.Storage.Roundtrip.{retrieve-store}
use p2papp.Storage.Deletion.{retrieve-delete}
use p2papp.Wire.Samples.{env, storage, io, storage-IsLawful}
use p2papp.Wire.{
  put_str, get_str, get_num, put_chunks, get_chunks, encode_metadata, decode_metadata,
}

program : Unit {0}
unfolding write_file remove_file has_file leave new_chunk chunk_path meta_path store_chunks
    get_chunk store store_sized store_hashed store_metadata store_text new_metadata retrieve
    retrieve_loaded retrieve_loop retrieve_chunk append_file load_metadata unmarshal_file delete
    delete_loaded remove_chunks put_str get_str get_num put_chunks get_chunks encode_metadata
    decode_metadata str_dec add64 Assoc.get Assoc.put Assoc.remove
program = tt

abbrev first_pieces : List (List ℕ)
first_pieces = (1 ∷ 2 ∷ []) ∷ (3 ∷ []) ∷ (1 ∷ 2 ∷ []) ∷ []

abbrev second_pieces : List (List ℕ)
second_pieces = (3 ∷ []) ∷ (4 ∷ []) ∷ []

abbrev source_of : List (List ℕ) → Source
source_of ps = record { stat_size = some 5; whole = some (joined ps); reads = map got ps }

abbrev one_file : Disk
unfolding program
one_file = (store env storage io (codes "a") (some (source_of first_pieces)) []).0

abbrev two_files : Disk
unfolding program
two_files = (store env storage io (codes "b") (some (source_of second_pieces)) one_file).0

retrieve-store_example :
    (Assoc.get
        (codes "out")
        (retrieve env storage
          (codes "out")
          (λ n. done)
          done
          (joined first_pieces)
          (store env storage io (codes "a") (some (source_of first_pieces)) []).0).0
      ≡ some (joined first_pieces))
    × ((retrieve env storage
          (codes "out")
          (λ n. done)
          done
          (joined first_pieces)
          (store env storage io (codes "a") (some (source_of first_pieces)) []).0).1
        ≡ inr tt)
unfolding chunk_path
retrieve-store_example =
    retrieve-store env storage storage-IsLawful io (λ path. refl) (codes "a") (codes "out") 5
      (joined first_pieces) _ first_pieces [] refl (λ x y i j e. ground arith)
      (λ b i e. ground arith)

retrieve-delete_example :
    (retrieve env storage
      (codes "out")
      (λ n. done)
      done
      (joined second_pieces)
      (delete env storage io (joined first_pieces) two_files).0).1
    ≢ inr tt
unfolding program
retrieve-delete_example =
    retrieve-delete env storage io (joined first_pieces) (joined second_pieces) (codes "out")
      (new_metadata env storage io (codes "a") 5 (joined first_pieces)
        (chunk_list env 0 first_pieces))
      (new_metadata env storage io (codes "b") 5 (joined second_pieces)
        (chunk_list env 0 second_pieces))
      (new_chunk env 1 (3 ∷ [])) (new_chunk env 0 (3 ∷ [])) (λ n. done) done two_files refl refl
      (inr (inl refl)) (inl refl) refl refl (λ e. ground arith)
