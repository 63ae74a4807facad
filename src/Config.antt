-- ===== src/Config.antt =====
-- internal/core/config.go: the configuration file of the application. JSON is a parameter, as are
-- `filepath.Dir`, the home directory, and what the file system answers.
use p2papp.Prelude.{
  ℕ, ◌≡◌, refl, ap, ◌∙◌, Bool, true, false, Option, none, some, List, [], ◌∷◌, Str, codes, arith,
  if◌then◌else◌,
}
use p2papp.Assoc
use p2papp.Assoc.{get-put_self}
use p2papp.File.{Outcome, done, failed, Disk, write_file}
use p2papp.Path.{join}

-- `AppConfig`
pub record AppConfig : Type 0 where
  pub listen_port : ℕ
  pub listen_addr : Str
  pub data_dir : Str
  pub wallet_file : Str
  pub cloud_path : Str
  pub enable_mdns : Bool
  pub enable_dht : Bool
  pub bootstrap_peers : List Str

-- encoding/json on configurations: decoding goes on top of a configuration, which it may have changed
-- where it fails.
pub record Codec : Type 0 where
  pub marshal : AppConfig → Option (List ℕ)
  pub unmarshal : List ℕ → AppConfig → AppConfig × Bool

-- `DefaultAppConfig`
unfoldable pub default_app_config : Str → AppConfig
default_app_config home =
    let data_dir = join home (codes ".p2papp") in
    record {
      listen_port = 0;
      listen_addr = codes "0.0.0.0";
      data_dir = data_dir;
      wallet_file = join data_dir (codes "wallet.json");
      cloud_path = join data_dir (codes "cloud");
      enable_mdns = true;
      enable_dht = true;
      bootstrap_peers = [];
    }

module _ (codec : Codec) where
  -- `Load`; `readable` is whether a file that is there can be read. The flag is false on an error.
  abbrev pub load_bytes : Option (List ℕ) → Bool → AppConfig → AppConfig × Bool
  load_bytes none readable c = (c, true)
  load_bytes (some b) false c = (c, false)
  load_bytes (some b) true c = codec.unmarshal b c

  unfoldable pub load_config : Bool → Str → Disk → AppConfig → AppConfig × Bool
  load_config readable path d c = load_bytes (Assoc.get path d) readable c

  -- `Save`; `has_dir` is whether the directory can be made.
  abbrev pub save_marshalled : Outcome → Str → Option (List ℕ) → Disk → Disk × Bool
  save_marshalled o path none d = (d, false)
  save_marshalled o path (some b) d = write_file o path b d

  unfoldable pub save_config : Bool → Outcome → Str → AppConfig → Disk → Disk × Bool
  save_config has_dir o path c d =
      if has_dir then save_marshalled o path (codec.marshal c) d else (d, false)

  -- A file that has all fields of a configuration replaces any other one.
  pub record IsLawful : Type 0 where
    pub unmarshal-marshal :
        (c old : AppConfig) (b : List ℕ)
        → codec.marshal c ≡ some b
        → codec.unmarshal b old ≡ (c, true)

  -- Where JSON reads back what it wrote: a configuration that is saved without an error is what any
  -- configuration is after it has loaded the file.
  pub load_config-save_config :
      IsLawful
      → (has_dir : Bool) (o : Outcome) (path : Str) (c old : AppConfig) (d : Disk)
      → (save_config has_dir o path c d).1 ≡ true
      → load_config true path (save_config has_dir o path c d).0 old ≡ (c, true)
  unfolding save_config load_config write_file
  load_config-save_config laws false o path c old d ok = absurd (ground arith)
  load_config-save_config laws true o path c old d ok = by_bytes (codec.marshal c) o refl ok
    where
      by_bytes :
          (m : Option (List ℕ)) (w : Outcome)
          → codec.marshal c ≡ m
          → (save_marshalled w path m d).1 ≡ true
          → load_config true path (save_marshalled w path m d).0 old ≡ (c, true)
      by_bytes none w e h = absurd (ground arith)
      by_bytes (some b) (failed left) e h = absurd (ground arith)
      by_bytes (some b) done e h =
          ap (λ f. load_bytes f true old) (get-put_self path b d) ∙ laws.unmarshal-marshal c old b e

-- `EnsureDirectories`, its loop: the directories that it makes, up to the first that fails.
unfoldable pub make_directories : (Str → Bool) → List Str → List Str × Bool
make_directories makes [] = ([], true)
make_directories makes (dir ∷ dirs) =
    let (made, ok) = make_directories makes dirs in
    if makes dir then (dir ∷ made, ok) else ([], false)

unfoldable pub ensure_directories : (Str → Str) → (Str → Bool) → AppConfig → List Str × Bool
ensure_directories dir_of makes c =
    make_directories makes (c.data_dir ∷ c.cloud_path ∷ dir_of c.wallet_file ∷ [])
