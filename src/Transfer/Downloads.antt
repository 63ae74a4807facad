-- ===== src/Transfer/Downloads.antt =====
-- `Download` of internal/cloud/transfer.go where the file system does all it is asked: what it writes
-- is what the peer answers.
use p2papp.Prelude.{
  ℕ, ◌+◌, ◌≡◌, ◌≢◌, refl, sym, ap, ◌∙◌, true, none, some, List, [], ◌∷◌, ◌++◌, Str, In, inl, inr,
  length, length-append, codes, arith, if◌then◌else◌,
}
use mathlib.Core.List.{append_assoc, append-nil}
use p2papp.Assoc
use p2papp.Assoc.{get-put_self, get-put_ne, get-remove_self, get-remove_ne}
use p2papp.File.{Outcome, done, Disk, write_file, append_file, rename_file}
use p2papp.Storage.{Chunk, FileMetadata, Env}
use p2papp.Transfer.{
  Codec, Peer, Answers, request_chunk, request_metadata, temp_path, download_chunk, finish,
  download_loop, download_metadata, download, unless_stopped, temp_not_created,
}

-- The file system does what it is asked.
pub record AllDone (a : Answers) : Type 0 where
  pub created_done : a.created ≡ done
  pub writes_done : (k : ℕ) → a.writes k ≡ done
  pub renamed_done : a.renamed ≡ true

-- The contents of chunks in one, by their hashes.
abbrev pub fetched : (Str → List ℕ) → List Chunk → List ℕ
fetched content [] = []
fetched content (c ∷ cs) = content c.hash ++ fetched content cs

pub temp_path_ne : (dest : Str) → temp_path dest ≢ dest
unfolding temp_path
temp_path_ne dest e = absurd (omega (arith, ap length e, length-append {0} dest (codes ".tmp")))

module _ (codec : Codec) (env : Env) (peer : Peer) (a : Answers) (dest : Str) (ok : AllDone a) where
  finish_lem :
      (b : List ℕ) (d : Disk)
      → Assoc.get (temp_path dest) d ≡ some b
      → finish codec env peer a dest d
        ≡ (Assoc.put dest b (Assoc.remove (temp_path dest) d), inr tt)
  unfolding finish rename_file
  finish_lem b d h = rw (ok.renamed_done, h) refl

  download_chunk_lem :
      (k : ℕ) (b acc : List ℕ) (d : Disk)
      → Assoc.get (temp_path dest) d ≡ some acc
      → download_chunk codec env peer a dest k (inr b) d
        ≡ (Assoc.put (temp_path dest) (acc ++ b) d, none)
  unfolding download_chunk append_file write_file
  download_chunk_lem k b acc d h = rw (ok.writes_done k, h, write_file) refl

  module _ (content : Str → List ℕ) where
    download_loop_lem :
        (k : ℕ) (cs : List Chunk) (acc : List ℕ) (d : Disk)
        → ((c : Chunk) → In c cs → request_chunk codec peer c.hash ≡ inr (content c.hash))
        → Assoc.get (temp_path dest) d ≡ some acc
        → (Assoc.get dest (download_loop codec env peer a dest k cs d).0
            ≡ some (acc ++ fetched content cs))
          × ((download_loop codec env peer a dest k cs d).1 ≡ inr tt)
          × (Assoc.get (temp_path dest) (download_loop codec env peer a dest k cs d).0 ≡ none)
          × ((p : Str)
              → temp_path dest ≢ p
              → dest ≢ p
              → Assoc.get p (download_loop codec env peer a dest k cs d).0 ≡ Assoc.get p d)
    unfolding download_loop
    download_loop_lem k [] acc d answers h =
        let end = finish_lem acc d h in
        let moved = Assoc.remove (temp_path dest) d in
        (
          ap (λ r. Assoc.get dest r.0) end
              ∙ (get-put_self dest acc moved ∙ ap some (sym (append-nil acc))),
          ap (λ r. r.1) end,
          ap (λ r. Assoc.get (temp_path dest) r.0) end
              ∙ (get-put_ne _ dest acc moved (λ e. temp_path_ne dest (sym e))
                  ∙ get-remove_self (temp_path dest) d),
          λ p t n.
              ap (λ r. Assoc.get p r.0) end
              ∙ (get-put_ne p dest acc moved n ∙ get-remove_ne p (temp_path dest) d t),
        )
    download_loop_lem k (c ∷ cs) acc d answers h =
        let b = content c.hash in
        let d' = Assoc.put (temp_path dest) (acc ++ b) d in
        let next =
          download_loop_lem (k + 1) cs (acc ++ b) d' (λ x i. answers x (inr i))
            (get-put_self (temp_path dest) (acc ++ b) d) in
        let step =
          ap (λ r. unless_stopped r.1 r.0 (download_loop codec env peer a dest (k + 1) cs r.0))
            (ap (λ r. download_chunk codec env peer a dest k r d) (answers c (inl refl))
              ∙ download_chunk_lem k b acc d h) in
        (
          ap (λ r. Assoc.get dest r.0) step
              ∙ (next.0 ∙ ap some (append_assoc acc b (fetched content cs))),
          ap (λ r. r.1) step ∙ next.1,
          ap (λ r. Assoc.get (temp_path dest) r.0) step ∙ next.2,
          λ p t n.
              ap (λ r. Assoc.get p r.0) step
              ∙ (next.3 p t n ∙ get-put_ne p (temp_path dest) (acc ++ b) d t),
        )

    -- A download writes to its destination what the peer answers for the chunks that the peer's
    -- metadata name, leaves no temporary file, and changes no other file.
    pub download_lem :
        (hash : Str) (m : FileMetadata) (d : Disk)
        → request_metadata codec env peer hash ≡ inr m
        → ((c : Chunk) → In c m.chunks → request_chunk codec peer c.hash ≡ inr (content c.hash))
        → (Assoc.get dest (download codec env peer a dest hash d).0
            ≡ some (fetched content m.chunks))
          × ((download codec env peer a dest hash d).1 ≡ inr tt)
          × (Assoc.get (temp_path dest) (download codec env peer a dest hash d).0 ≡ none)
          × ((p : Str)
              → temp_path dest ≢ p
              → dest ≢ p
              → Assoc.get p (download codec env peer a dest hash d).0 ≡ Assoc.get p d)
    unfolding download download_metadata write_file
    download_lem hash m d e answers =
        let d' = Assoc.put (temp_path dest) [] d in
        let result =
          download_loop_lem 0 m.chunks [] d' answers (get-put_self (temp_path dest) [] d) in
        let run =
          ap (λ r. download_metadata codec env peer a dest r d) e
          ∙ ap
              (λ (o : Outcome).
                if (write_file o (temp_path dest) [] d).1
                then download_loop codec env peer a dest 0 m.chunks
                    (write_file o (temp_path dest) [] d).0
                else ((write_file o (temp_path dest) [] d).0, inl temp_not_created))
              ok.created_done in
        (
          ap (λ r. Assoc.get dest r.0) run ∙ result.0,
          ap (λ r. r.1) run ∙ result.1,
          ap (λ r. Assoc.get (temp_path dest) r.0) run ∙ result.2,
          λ p t n.
              ap (λ r. Assoc.get p r.0) run
              ∙ (result.3 p t n ∙ get-put_ne p (temp_path dest) [] d t),
        )
