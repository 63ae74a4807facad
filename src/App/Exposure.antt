-- ===== src/App/Exposure.antt =====
-- The data directory of cmd/p2papp/main.go, where internal/wallet keeps the wallet in `wallet.json` and
-- internal/cloud the chunks of its files in `cloud/chunks`.
use p2papp.Prelude.{
  ℕ, ◌≡◌, ◌≢◌, sym, ap, ◌∙◌, Bool, true, false, some, List, [], ◌∷◌, ◌++◌, Str, codes, All, inr,
  arith,
}
use mathlib.Core.List.{append_assoc}
use p2papp.Assoc
use p2papp.File.{Outcome, Disk}
use p2papp.Path
use p2papp.Path.{dots}
use p2papp.Path.Joining.{IsPlain, root_path, join-root_path_plain, join-up_two}
use p2papp.Storage.{Env, chunk_path, get_chunk, new_file_storage}
use p2papp.Transfer.{Codec, request_chunk}
use p2papp.Transfer.Serving
use p2papp.Transfer.Serving.{serving, request_chunk-serving}
use p2papp.Cloud.{CloudService, new_cloud_service}
use p2papp.Wallet
use p2papp.Wallet.{Crypto, wallet_bytes, read_wallet}
use p2papp.Wallet.Files
use p2papp.Wallet.Files.{IsConsistent, write_bytes-inr, read_wallet-wallet_bytes}
use p2papp.App.{wallet_path, cloud_dir}

abbrev wallet_name : Str
wallet_name = codes "wallet.json"

abbrev cloud_name : Str
cloud_name = codes "cloud"

abbrev chunks_name : Str
chunks_name = codes "chunks"

plain_of : (c : ℕ) (s : Str) → c ≢ b'.' → All (λ x. x ≢ b'/') (c ∷ s) → IsPlain (c ∷ s)
plain_of c s p n = (n, (λ e. ground arith), (λ e. ground arith), (λ e. ground arith))

wallet_name-IsPlain : IsPlain wallet_name
wallet_name-IsPlain = plain_of _ _ (ground arith) (ground arith)

cloud_name-IsPlain : IsPlain cloud_name
cloud_name-IsPlain = plain_of _ _ (ground arith) (ground arith)

chunks_name-IsPlain : IsPlain chunks_name
chunks_name-IsPlain = plain_of _ _ (ground arith) (ground arith)

-- The chunk that has the wallet's path from the directory of the chunks as its name.
abbrev pub stolen : Str
stolen = codes "../../wallet.json"

-- The storage of the cloud service over a data directory.
module _ (env : Env) (joins : (a b : Str) → env.join a b ≡ Path.join a b) (self : Str) (dht : Bool)
    (c : Str) (cs : List Str) (plain : All IsPlain (c ∷ cs)) where
  abbrev pub service : CloudService
  service = new_cloud_service env self dht (cloud_dir (root_path (c ∷ cs)))

  chunk_path-stolen :
      chunk_path env (new_file_storage env (cloud_dir (root_path (c ∷ cs)))) stolen
      ≡ wallet_path (root_path (c ∷ cs))
  unfolding chunk_path new_file_storage cloud_dir wallet_path
  chunk_path-stolen =
      joins _ stolen
      ∙ (ap (λ p. Path.join p stolen)
            (joins _ chunks_name
              ∙ (ap (λ p. Path.join p chunks_name)
                    (join-root_path_plain c cloud_name cs plain cloud_name-IsPlain)
                  ∙ (join-root_path_plain c chunks_name (cs ++ cloud_name ∷ [])
                        (all_plain (c ∷ cs) plain) chunks_name-IsPlain
                      ∙ ap (λ l. root_path (c ∷ l))
                          (append_assoc cs (cloud_name ∷ []) (chunks_name ∷ [])))))
          ∙ (join-up_two c cloud_name chunks_name wallet_name cs plain cloud_name-IsPlain
                chunks_name-IsPlain wallet_name-IsPlain
              ∙ sym (join-root_path_plain c wallet_name cs plain wallet_name-IsPlain)))
    where
      all_plain : (l : List Str) → All IsPlain l → All IsPlain (l ++ cloud_name ∷ [])
      all_plain [] q = (cloud_name-IsPlain, tt)
      all_plain (x ∷ l) q = (q.0, all_plain l q.1)

  -- With a rooted data directory of plain components, `filepath.Join` as in Path, and where the
  -- encodings of keys, wallets and requests are read back: once a consistent wallet is saved without an
  -- error under the data directory, whoever asks the cloud service of that directory for a chunk by
  -- the name `../../wallet.json` gets bytes from which the wallet is read, with its private key.
  pub request_chunk-save :
      (codec : Codec) (laws : Serving.IsLawful codec env) (k : Crypto) (k_laws : Files.IsLawful k)
      (w : Wallet.Wallet k) (has_dir : Bool) (o : Outcome) (d : Disk)
      → IsConsistent k w
      → (Wallet.save k has_dir o (some w) (wallet_path (root_path (c ∷ cs))) d).1 ≡ inr tt
      → (b : List ℕ) × (request_chunk codec
            (serving codec env laws service.storage
              (Wallet.save k has_dir o (some w) (wallet_path (root_path (c ∷ cs))) d).0)
            stolen
          ≡ inr b)
        × (read_wallet k (some b) ≡ inr w)
  unfolding Wallet.save get_chunk new_cloud_service
  request_chunk-save codec laws k k_laws w false o d v ok = absurd (ground arith)
  request_chunk-save codec laws k k_laws w true o d v ok =
      let (b, bytes, there) =
        write_bytes-inr k o (wallet_path (root_path (c ∷ cs))) (wallet_bytes k w) d ok in
      let d' = (Wallet.write_bytes k o (wallet_path (root_path (c ∷ cs))) (wallet_bytes k w) d).0 in
      (
        b,
        request_chunk-serving codec env laws service.storage d' stolen b
            (ap (λ p. Assoc.get p d') chunk_path-stolen ∙ there),
        read_wallet-wallet_bytes k k_laws w b v bytes,
      )
