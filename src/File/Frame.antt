-- ===== src/File/Frame.antt =====
-- The operations on one file leave every other file alone.
use p2papp.Prelude.{ℕ, ◌≡◌, ◌≢◌, refl, none, some, List, ◌++◌, Str}
use p2papp.Assoc
use p2papp.Assoc.{get-put_ne, get-remove_ne}
use p2papp.File.{Outcome, done, failed, Disk, leave, write_file, append_file, or_empty, remove_file}

module _ (name path : Str) (d : Disk) (ne : name ≢ path) where
  pub get-write_file_ne :
      (o : Outcome) (b : List ℕ) → Assoc.get path (write_file o name b d).0 ≡ Assoc.get path d
  unfolding write_file leave
  get-write_file_ne done b = get-put_ne path name b d ne
  get-write_file_ne (failed none) b = get-remove_ne path name d ne
  get-write_file_ne (failed (some x)) b = get-put_ne path name x d ne

  pub get-append_file_ne :
      (o : Outcome) (b : List ℕ) → Assoc.get path (append_file o name b d).0 ≡ Assoc.get path d
  unfolding append_file
  get-append_file_ne o b = get-write_file_ne o (or_empty (Assoc.get name d) ++ b)

  pub get-remove_file_ne :
      (o : Outcome) → Assoc.get path (remove_file o name d).0 ≡ Assoc.get path d
  unfolding remove_file
  get-remove_file_ne done = get-remove_ne path name d ne
  get-remove_file_ne (failed left) = refl
