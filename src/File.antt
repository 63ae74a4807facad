-- ===== src/File.antt =====
-- Files as a map from paths to bytes, the operations of package os that write or remove one, and
-- `filepath.Ext`.
pub mod Frame
use p2papp.Prelude.{
  ℕ, Bool, true, false, Option, none, some, List, [], ◌∷◌, ◌++◌, Str, ◌==◌, if◌then◌else◌,
}
use p2papp.Assoc
use p2papp.Assoc.{Assoc}

-- What a file operation did: all of it, or an error that left the file as stated.
pub data Outcome : Type 0 where
  done : Outcome
  failed : Option (List ℕ) → Outcome

abbrev pub Disk : Type 0
Disk = Assoc (List ℕ)

-- `os.WriteFile` and `os.Remove`; the flag is false on an error.
unfoldable pub leave : Str → Option (List ℕ) → Disk → Disk
leave name none d = Assoc.remove name d
leave name (some b) d = Assoc.put name b d

unfoldable pub write_file : Outcome → Str → List ℕ → Disk → Disk × Bool
write_file done name b d = (Assoc.put name b d, true)
write_file (failed left) name b d = (leave name left d, false)

unfoldable pub has_file : Str → Disk → Bool
has_file name d = elim (Assoc.get name d) [ none ↦ false | some b ↦ true ]

unfoldable pub remove_file : Outcome → Str → Disk → Disk × Bool
remove_file done name d = (Assoc.remove name d, has_file name d)
remove_file (failed left) name d = (d, false)

-- The bytes of a file, none where it is not there.
abbrev pub or_empty : Option (List ℕ) → List ℕ
or_empty none = []
or_empty (some b) = b

-- A write at the end of a file that is open for writing.
unfoldable pub append_file : Outcome → Str → List ℕ → Disk → Disk × Bool
append_file o name b d = write_file o name (or_empty (Assoc.get name d) ++ b) d

-- `os.Rename`; the flag is the answer of the file system for a file that is there.
abbrev rename_found : Option (List ℕ) → Bool → Str → Str → Disk → Disk × Bool
rename_found none ok from to d = (d, false)
rename_found (some b) false from to d = (d, false)
rename_found (some b) true from to d = (Assoc.put to b (Assoc.remove from d), true)

unfoldable pub rename_file : Bool → Str → Str → Disk → Disk × Bool
rename_file ok from to d = rename_found (Assoc.get from d) ok from to d

-- `filepath.Ext`: what follows the last dot, with the dot.
unfoldable pub ext_from : Str → Str → Str
ext_from [] acc = acc
ext_from (c ∷ cs) acc = ext_from cs (if c == b'.' then c ∷ cs else if c == b'/' then [] else acc)

unfoldable pub ext : Str → Str
ext name = ext_from name []
