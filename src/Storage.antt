-- ===== src/Storage.antt =====
-- internal/cloud/storage.go: files cut into chunks that are stored under the hash of their bytes.
-- The hash, JSON and package filepath are a parameter, `Env`; what the file system answers is an
-- argument: `io` for the writes by path, and the record `Source` for the file that is stored.
pub mod Chunks
pub mod Stored
pub mod Roundtrip
pub mod Deletion
mod Tests
use p2papp.Prelude.{
  ℕ, Bool, true, false, Option, none, some, List, [], ◌∷◌, ◌++◌, Str, str_dec, codes, holds, ◌⊎◌,
  inl, inr, length, take, ◌+◌, ◌-◌, add64, if◌then◌else◌,
}
use p2papp.Assoc
use p2papp.File.{
  Outcome, done, failed, Disk, leave, write_file, has_file, remove_file, append_file, ext,
}

-- `FileStorage`; the field baseDir is not read again.
pub record FileStorage : Type 0 where
  pub chunks_dir : Str
  pub meta_dir : Str

-- `Chunk`
pub record Chunk : Type 0 where
  pub index : ℕ
  pub hash : Str
  pub size : ℕ

-- `FileMetadata`
pub record FileMetadata : Type 0 where
  pub hash : Str
  pub name : Str
  pub size : ℕ
  pub chunk_count : ℕ
  pub chunks : List Chunk

-- `FileInfo`
pub record FileInfo : Type 0 where
  pub hash : Str
  pub name : Str
  pub size : ℕ
  pub chunk_count : ℕ
  pub local_path : Str

-- `hex.EncodeToString` of the sha256 sum, `filepath.Join` of two parts, `filepath.Base`, and
-- encoding/json on the metadata.
pub record Env : Type 0 where
  pub hash_of : List ℕ → Str
  pub join : Str → Str → Str
  pub base : Str → Str
  pub marshal : FileMetadata → Option (List ℕ)
  pub unmarshal : List ℕ → Option FileMetadata

-- What a call of `file.Read` returns; the end of the list is io.EOF.
pub data Read : Type 0 where
  got : List ℕ → Read
  read_failed : Read

-- An open file: the answers of `Stat`, of the copy into the hasher, and of the reads after `Seek`.
pub record Source : Type 0 where
  pub stat_size : Option ℕ
  pub whole : Option (List ℕ)
  pub reads : List Read

-- The errors of the storage.
pub data Error : Type 0 where
  not_opened not_statted not_hashed not_read chunk_not_written not_marshalled : Error
  metadata_not_written metadata_not_loaded output_not_created chunk_not_read : Error
  output_not_written metadata_not_removed not_listed : Error

abbrev pub json_ext : Str
json_ext = codes ".json"

-- `NewFileStorage`; the errors of `MkdirAll` are ignored in the source.
unfoldable pub new_file_storage : Env → Str → FileStorage
new_file_storage env base_dir = record {
  chunks_dir = env.join base_dir (codes "chunks");
  meta_dir = env.join base_dir (codes "meta");
}

unfoldable pub new_chunk : Env → ℕ → List ℕ → Chunk
new_chunk env index b = record { index = index; hash = env.hash_of b; size = length b }

-- A chunk in front of those of the later reads.
abbrev pub chunk_first : Chunk → Error ⊎ List Chunk → Error ⊎ List Chunk
chunk_first c (inl e) = inl e
chunk_first c (inr cs) = inr (c ∷ cs)

module _ (env : Env) (s : FileStorage) where
  -- The paths of a chunk and of a file's metadata.
  unfoldable pub chunk_path : Str → Str
  chunk_path hash = env.join s.chunks_dir hash

  unfoldable pub meta_path : Str → Str
  meta_path hash = env.join s.meta_dir (hash ++ json_ext)

  -- `loadMetadata`, `GetMetadata`
  unfoldable pub unmarshal_file : Option (List ℕ) → Option FileMetadata
  unmarshal_file none = none
  unmarshal_file (some b) = env.unmarshal b

  unfoldable pub load_metadata : Str → Disk → Option FileMetadata
  load_metadata hash d = unmarshal_file (Assoc.get (meta_path hash) d)

  -- `GetChunk`
  unfoldable pub get_chunk : Str → Disk → Option (List ℕ)
  get_chunk hash d = Assoc.get (chunk_path hash) d

  -- `Exists`
  unfoldable pub exists : Str → Disk → Bool
  exists hash d = has_file (meta_path hash) d

  -- `GetInfo`
  abbrev pub info_of : Option FileMetadata → Option FileInfo
  info_of none = none
  info_of (some m) = some (record {
    hash = m.hash;
    name = m.name;
    size = m.size;
    chunk_count = m.chunk_count;
    local_path = [];
  })

  unfoldable pub get_info : Str → Disk → Option FileInfo
  get_info hash d = info_of (load_metadata hash d)

  -- `List`, its loop over the names that `ReadDir` returns.
  abbrev pub append_info : Option FileInfo → List FileInfo → List FileInfo
  append_info none is = is
  append_info (some i) is = i ∷ is

  unfoldable pub list_loop : List Str → Disk → List FileInfo
  list_loop [] d = []
  list_loop (name ∷ names) d =
      let rest = list_loop names d in
      if holds (str_dec (ext name) json_ext)
      then append_info (get_info (take (length name - 5) name) d) rest
      else rest

  unfoldable pub list_files : Option (List Str) → Disk → Error ⊎ List FileInfo
  list_files none d = inl not_listed
  list_files (some names) d = inr (list_loop names d)

  module _ (io : Str → Outcome) where
    -- `Store`, its loop over the reads.
    unfoldable pub store_chunks : ℕ → List Read → Disk → Disk × (Error ⊎ List Chunk)
    store_chunks index [] d = (d, inr [])
    store_chunks index (read_failed ∷ rs) d = (d, inl not_read)
    store_chunks index (got b ∷ rs) d =
        let path = chunk_path (env.hash_of b) in
        let (d1, ok) = write_file (io path) path b d in
        let (d2, rest) = store_chunks (add64 index 1) rs d1 in
        if ok then (d2, chunk_first (new_chunk env index b) rest) else (d1, inl chunk_not_written)

    -- `Store`, its end: the metadata, from their JSON text.
    abbrev pub stored_info : Bool → Str → FileMetadata → Error ⊎ FileInfo
    stored_info false path m = inl metadata_not_written
    stored_info true path m = inr (record {
      hash = m.hash;
      name = m.name;
      size = m.size;
      chunk_count = m.chunk_count;
      local_path = path;
    })

    unfoldable pub store_text :
        Option (List ℕ) → Str → FileMetadata → Disk → Disk × (Error ⊎ FileInfo)
    store_text none path m d = (d, inl not_marshalled)
    store_text (some b) path m d =
        let (d', ok) = write_file (io (meta_path m.hash)) (meta_path m.hash) b d in
        (d', stored_info ok path m)

    unfoldable pub new_metadata : Str → ℕ → Str → List Chunk → FileMetadata
    new_metadata path size hash cs = record {
      hash = hash;
      name = env.base path;
      size = size;
      chunk_count = length cs;
      chunks = cs;
    }

    unfoldable pub store_metadata :
        Str → ℕ → Str → Error ⊎ List Chunk → Disk → Disk × (Error ⊎ FileInfo)
    store_metadata path size hash (inl e) d = (d, inl e)
    store_metadata path size hash (inr cs) d =
        let m = new_metadata path size hash cs in store_text (env.marshal m) path m d

    unfoldable pub store_hashed :
        Str → ℕ → Option (List ℕ) → List Read → Disk → Disk × (Error ⊎ FileInfo)
    store_hashed path size none reads d = (d, inl not_hashed)
    store_hashed path size (some whole) reads d =
        let (d', cs) = store_chunks 0 reads d in store_metadata path size (env.hash_of whole) cs d'

    unfoldable pub store_sized : Str → Option ℕ → Source → Disk → Disk × (Error ⊎ FileInfo)
    store_sized path none f d = (d, inl not_statted)
    store_sized path (some size) f d = store_hashed path size f.whole f.reads d

    -- `Store`; the source is none where it cannot be opened.
    unfoldable pub store : Str → Option Source → Disk → Disk × (Error ⊎ FileInfo)
    store path none d = (d, inl not_opened)
    store path (some f) d = store_sized path f.stat_size f d

    -- `Delete`: the chunks, whose errors are ignored, and the metadata.
    unfoldable pub remove_chunks : List Chunk → Disk → Disk
    remove_chunks [] d = d
    remove_chunks (c ∷ cs) d =
        remove_chunks cs (remove_file (io (chunk_path c.hash)) (chunk_path c.hash) d).0

    unfoldable pub delete_loaded : Option FileMetadata → Str → Disk → Disk × (Error ⊎ Unit {0})
    delete_loaded none hash d = (d, inl metadata_not_loaded)
    delete_loaded (some m) hash d =
        let (d', ok) =
          remove_file (io (meta_path hash)) (meta_path hash) (remove_chunks m.chunks d) in
        (d', if ok then inr tt else inl metadata_not_removed)

    unfoldable pub delete : Str → Disk → Disk × (Error ⊎ Unit {0})
    delete hash d = delete_loaded (load_metadata hash d) hash d

  module _ (dest : Str) (writes : ℕ → Outcome) where
    -- `Retrieve`, a round of its loop; `k` counts the writes.
    unfoldable pub retrieve_chunk : ℕ → Option (List ℕ) → Disk → Disk × Option Error
    retrieve_chunk k none d = (d, some chunk_not_read)
    retrieve_chunk k (some b) d =
        let (d', ok) = append_file (writes k) dest b d in
        (d', if ok then none else some output_not_written)

    abbrev pub or_stop : Option Error → Disk → Disk × (Error ⊎ Unit {0}) → Disk × (Error ⊎ Unit {0})
    or_stop none d rest = rest
    or_stop (some e) d rest = (d, inl e)

    unfoldable pub retrieve_loop : ℕ → List Chunk → Disk → Disk × (Error ⊎ Unit {0})
    retrieve_loop k [] d = (d, inr tt)
    retrieve_loop k (c ∷ cs) d =
        let (d', stop) = retrieve_chunk k (get_chunk c.hash d) d in
        or_stop stop d' (retrieve_loop (k + 1) cs d')

    -- `Retrieve`; `created` is what `os.Create` did, which empties the file.
    abbrev pub created_at : Bool → List Chunk → Disk → Disk × (Error ⊎ Unit {0})
    created_at false cs d = (d, inl output_not_created)
    created_at true cs d = retrieve_loop 0 cs d

    unfoldable pub retrieve_loaded :
        Outcome → Option FileMetadata → Disk → Disk × (Error ⊎ Unit {0})
    retrieve_loaded created none d = (d, inl metadata_not_loaded)
    retrieve_loaded created (some m) d =
        let (d', ok) = write_file created dest [] d in created_at ok m.chunks d'

    unfoldable pub retrieve : Outcome → Str → Disk → Disk × (Error ⊎ Unit {0})
    retrieve created hash d = retrieve_loaded created (load_metadata hash d) d
