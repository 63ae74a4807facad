-- ===== src/App/Commands.antt =====
-- The cloud and chat commands of cmd/p2papp/main.go: each loads the wallet, starts a host, opens its
-- service, and does one operation, or one session of a room.
use p2papp.Prelude.{
  ℕ, ◌+◌, Bool, true, Option, none, List, [], ◌∷◌, map, Str, str_dec, codes, holds, ◌⊎◌, inl, inr,
  ◌>>=◌, or_error, pos, if◌then◌else◌,
}
use p2papp.File.{Outcome, Disk}
use p2papp.Storage.{FileInfo, Source, Env}
use p2papp.Transfer.{Codec, Peer, Answers}
use p2papp.Cloud
use p2papp.Cloud.{CloudService, CloudError, Event, new_cloud_service, upload}
use p2papp.Chat
use p2papp.Chat.{Service, Action, join_room, send_message}
use p2papp.Wallet
use p2papp.Wallet.{Crypto, WalletError}
use p2papp.App.{
  CommandError, wallet_failed, host_failed, service_failed, cloud_failed, room_failed, wallet_path,
  cloud_dir, Amount, format_bytes,
}
use p2papp.App.Text.{trim_space}

-- internal/core/host.go: `Config` without the key and the bootstrap peers, and `DefaultConfig`.
pub record Config : Type 0 where
  pub listen_addrs : List Str
  pub enable_mdns : Bool
  pub enable_dht : Bool

abbrev pub default_config : Config
default_config = record {
  listen_addrs = codes "/ip4/0.0.0.0/tcp/0" ∷ codes "/ip4/0.0.0.0/udp/0/quic-v1" ∷ [];
  enable_mdns = true;
  enable_dht = true;
}

-- What a command prints of a file.
pub record Printed : Type 0 where
  pub file : FileInfo
  pub amount : Option Amount

unfoldable pub printed : FileInfo → Printed
printed i = record { file = i; amount = format_bytes (pos i.size) }

abbrev pub cloud_result {ℓ} : {A : Type ℓ} → CloudError ⊎ A → CommandError ⊎ A
cloud_result (inl e) = inl (cloud_failed e)
cloud_result (inr a) = inr a

abbrev pub upload_result : CloudError ⊎ FileInfo → CommandError ⊎ Printed
upload_result (inl e) = inl (cloud_failed e)
upload_result (inr i) = inr (printed i)

-- What `chat join` sees: a line of the input, its end, or a signal.
pub data Input : Type 0 where
  line : Str → Input
  input_ended signalled : Input

-- The loop of `chatJoin` over the inputs: what each SendMessage handed to pubsub, and how it ended,
-- which the loop prints and does not act on. `a` is what pubsub answers at the k-th line, `ids` the
-- id that the clock gives there.
unfoldable pub chat_loop :
    (ℕ → Chat.Answers)
    → (ℕ → Str)
    → Str
    → Service
    → ℕ
    → List Input
    → List (List Action × Chat.Outcome)
chat_loop a ids room_id s k [] = []
chat_loop a ids room_id s k (input_ended ∷ inputs) = []
chat_loop a ids room_id s k (signalled ∷ inputs) = []
chat_loop a ids room_id s k (line t ∷ inputs) =
    let rest = chat_loop a ids room_id s (k + 1) inputs in
    if holds (str_dec (trim_space t) [])
    then rest
    else send_message (a k) (ids k) room_id (trim_space t) s ∷ rest

-- `chatJoin` once its service is there: what the joining handed to pubsub, and the loop.
unfoldable pub chat_session :
    (ℕ → Chat.Answers)
    → (ℕ → Str)
    → Str
    → List Input
    → Service × List Action × Chat.Outcome
    → CommandError ⊎ (List Action × List (List Action × Chat.Outcome))
chat_session a ids room_id inputs (s, acts, Chat.succeeded) =
    inr (acts, chat_loop a ids room_id s 1 inputs)
chat_session a ids room_id inputs (s, acts, o) = inl (room_failed o)

module _ (c : Crypto) (starts : c.PrivKey → Option Str) where
  -- The start that all commands share: the wallet is loaded and a host started with its key. `starts`
  -- is the id of the host of a key, none where libp2p does not start it.
  unfoldable pub with_wallet : WalletError ⊎ Wallet.Wallet c → CommandError ⊎ Wallet.Wallet c
  with_wallet (inl e) = inl (wallet_failed e)
  with_wallet (inr w) = inr w

  unfoldable pub open_host : Str → Disk → CommandError ⊎ Str
  open_host data_dir d = with_wallet (Wallet.load c (wallet_path data_dir) d none).1 >>= λ w.
      or_error host_failed (starts w.priv_key)

  -- `chatJoin`; `text_of` is the text form of an id.
  unfoldable pub chat_join :
      (Str → Str)
      → (ℕ → Chat.Answers)
      → (ℕ → Str)
      → Str
      → List Input
      → Str
      → Disk
      → CommandError ⊎ (List Action × List (List Action × Chat.Outcome))
  chat_join text_of a ids room_id inputs data_dir d = open_host data_dir d >>= λ id.
      chat_session a ids room_id inputs
        (join_room (a 0) (ids 0) room_id (record { self = id; name = text_of id; rooms = [] }))

  module _ (env : Env) where
    -- The cloud service of a command; `has_dir` is whether its directory can be made.
    unfoldable pub open_cloud : Bool → Str → Disk → CommandError ⊎ CloudService
    open_cloud has_dir data_dir d = open_host data_dir d >>= λ id.
        (if has_dir
          then inr (new_cloud_service env id default_config.enable_dht (cloud_dir data_dir))
          else inl service_failed)

    -- `cloudUpload`
    unfoldable pub upload_by :
        (Str → Outcome)
        → (Str → Bool)
        → Str
        → Option Source
        → CommandError ⊎ CloudService
        → Disk
        → Disk × (CommandError ⊎ Printed)
    upload_by io accepts path source (inl e) d = (d, inl e)
    upload_by io accepts path source (inr s) d =
        let (s', d', r) = upload env io accepts path source s d in (d', upload_result r)

    unfoldable pub cloud_upload :
        Bool
        → (Str → Outcome)
        → (Str → Bool)
        → Str
        → Option Source
        → Str
        → Disk
        → Disk × (CommandError ⊎ Printed)
    cloud_upload has_dir io accepts path source data_dir d =
        upload_by io accepts path source (open_cloud has_dir data_dir d) d

    -- `cloudList`
    unfoldable pub list_by :
        Option (List Str) → CommandError ⊎ CloudService → Disk → CommandError ⊎ List Printed
    list_by names (inl e) d = inl e
    list_by names (inr s) d =
        cloud_result (Cloud.list env names s d) >>= λ files. inr (map printed files)

    unfoldable pub cloud_list : Bool → Option (List Str) → Str → Disk → CommandError ⊎ List Printed
    cloud_list has_dir names data_dir d = list_by names (open_cloud has_dir data_dir d) d

    -- `cloudDownload`
    module _ (codec : Codec) (peers : Str → Peer) (files : Str → Answers) (hash dest : Str) where
      unfoldable pub download_by :
          Outcome
          → (ℕ → Outcome)
          → Option (List Event)
          → CommandError ⊎ CloudService
          → Disk
          → Disk × (CommandError ⊎ Unit {0})
      download_by created writes search (inl e) d = (d, inl e)
      download_by created writes search (inr s) d =
          let (d', r) = Cloud.download env codec peers files hash dest created writes search s d in
          (d', cloud_result r)

      unfoldable pub cloud_download :
          Bool
          → Outcome
          → (ℕ → Outcome)
          → Option (List Event)
          → Str
          → Disk
          → Disk × (CommandError ⊎ Unit {0})
      cloud_download has_dir created writes search data_dir d =
          download_by created writes search (open_cloud has_dir data_dir d) d
