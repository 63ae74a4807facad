-- ===== src/App/Runs.antt =====
-- The theorems on the commands of cmd/p2papp/main.go, at concrete sessions.
use p2papp.Prelude.{
  ℕ, ◌≡◌, refl, true, Option, none, some, List, [], ◌∷◌, ◌++◌, Str, str_dec, codes, inr, arith, ltb,
}
use p2papp.Assoc
use p2papp.File.{done, Disk, write_file}
use p2papp.Path.{join, clean, split_path, resolve, render, rooted_path, relative_path}
use p2papp.Storage
use p2papp.Storage.{chunk_path, meta_path, new_file_storage}
use p2papp.Storage.Chunks.{joined}
use p2papp.Storage.Stored
use p2papp.Storage.Stored.{read_source}
use p2papp.Transfer.{Answers, unread}
use p2papp.Cloud.{new_cloud_service, upload, after_store}
use p2papp.Chat
use p2papp.Chat.{Action, published}
use p2papp.Wallet.{save, load, read_wallet, identity_from, new_wallet, wallet_bytes, write_bytes}
use p2papp.Wallet.Samples.{crypto, wallet, put_wallet, get_wallet, first_of}
use p2papp.Wire.{put_str, get_str, decode_metadata-encode_metadata}
use p2papp.Wire.Samples.{env, io, codec}
use p2papp.App.{wallet_path, cloud_dir}
use p2papp.App.Commands.{
  Input, line, signalled, with_wallet, open_host, open_cloud, chat_join, cloud_upload,
  cloud_download, upload_by,
}
use p2papp.App.Uploads.{cloud_download-cloud_upload}
use p2papp.App.Sessions.{Session, chat_join_lem}

program : Unit {0}
unfolding join clean split_path resolve render rooted_path relative_path wallet_path cloud_dir save
    load read_wallet identity_from new_wallet wallet_bytes write_bytes write_file put_wallet
    get_wallet first_of put_str get_str str_dec with_wallet open_host open_cloud new_cloud_service
    new_file_storage chunk_path meta_path Storage.store Storage.store_sized Storage.store_hashed
    Storage.store_metadata Storage.store_text Storage.new_metadata Storage.store_chunks
    Storage.new_chunk upload upload_by after_store cloud_upload Assoc.get Assoc.put
program = tt

-- A disk with a wallet, and hosts that start with one-byte ids.
abbrev data_dir : Str
data_dir = codes "/data"

abbrev walleted : Disk
unfolding program
walleted = (save crypto true done (some wallet) (wallet_path data_dir) []).0

abbrev starts : ℕ → Option Str
starts k = some (k ∷ [])

data_storage-IsLawful : Stored.IsLawful env (new_file_storage env (cloud_dir data_dir))
unfolding program
data_storage-IsLawful = record {
  unmarshal-marshal = λ m b e. ground (arith, decode_metadata-encode_metadata m);
  paths_differ = λ b w e. ground arith;
}

-- A line with a no-break space after it, a blank one, and one that pubsub does not publish.
abbrev inputs : List Input
inputs =
    line (codes " hi" ++ 194 ∷ 160 ∷ 10 ∷ [])
    ∷ line (codes "  ")
    ∷ line (codes "you")
    ∷ signalled
    ∷ []

abbrev pubsub : ℕ → Chat.Answers
pubsub k = record { joins = λ t. true; subscribes = λ t. true; publishes = λ m. ltb k 3 }

chat_join_lem_example :
    (joining : Chat.Message) × (results : List (List Action × Chat.Outcome)) × (chat_join crypto
        starts
        (λ p. p)
        pubsub
        (λ k. k ∷ [])
        (codes "a")
        inputs
        data_dir
        walleted
      ≡ inr (published joining ∷ [], results))
    × (joining.kind ≡ codes "join")
    × (joining.from ≡ 7 ∷ [])
    × (joining.room_id ≡ codes "a")
    × Session pubsub (λ k. k ∷ []) (7 ∷ []) (codes "a") 1 inputs results
unfolding program
chat_join_lem_example =
    chat_join_lem crypto starts (λ p. p) pubsub (λ k. k ∷ []) (codes "a") inputs data_dir walleted
      (7 ∷ []) refl refl

abbrev pieces : List (List ℕ)
pieces = (1 ∷ 2 ∷ []) ∷ (3 ∷ []) ∷ []

abbrev answers : Answers
answers = record { created = done; writes = λ k. done; removed = done; renamed = true }

abbrev uploaded : Disk
uploaded =
    (cloud_upload crypto starts env true io (λ h. true) (codes "f")
      (some (read_source 3 (joined pieces) pieces)) data_dir walleted).0

cloud_download-cloud_upload_example :
    (Assoc.get
        (codes "out")
        (cloud_download crypto starts env codec
          (λ p stream. unread)
          (λ p. answers)
          (joined pieces)
          (codes "out")
          true
          done
          (λ k. done)
          none
          data_dir
          uploaded).0
      ≡ some (joined pieces))
    × ((cloud_download crypto starts env codec
          (λ p stream. unread)
          (λ p. answers)
          (joined pieces)
          (codes "out")
          true
          done
          (λ k. done)
          none
          data_dir
          uploaded).1
        ≡ inr tt)
unfolding program
cloud_download-cloud_upload_example =
    cloud_download-cloud_upload crypto starts env codec true true io (λ h. true) data_dir
      (codes "f") (codes "out") 3 (joined pieces) _ pieces walleted (λ p stream. unread)
      (λ p. answers) none _ _ data_storage-IsLawful (λ p. refl) refl (λ x y i j e. ground arith)
      (λ b i. λ e. ground arith) refl refl
