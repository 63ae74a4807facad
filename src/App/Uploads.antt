-- ===== src/App/Uploads.antt =====
-- `cloudUpload` and a later `cloudDownload` of cmd/p2papp/main.go over one data directory.
use p2papp.Prelude.{
  ℕ, ◌≡◌, ◌≢◌, sym, ap, ◌∙◌, Bool, true, false, Option, some, List, Str, ◌⊎◌, inl, inr, ◌>>=◌, In,
  Option-cases, arith, if◌then◌else◌,
}
use p2papp.Assoc
use p2papp.File.{Outcome, done, Disk, has_file}
use p2papp.Storage
use p2papp.Storage.{FileStorage, Env, chunk_path, meta_path, new_file_storage}
use p2papp.Storage.Chunks.{chunk_list, joined}
use p2papp.Storage.Stored
use p2papp.Storage.Stored.{Apart, read_source, load_metadata-store}
use p2papp.Storage.Roundtrip.{retrieve-store}
use p2papp.Transfer.{Codec, Peer, Answers}
use p2papp.Cloud
use p2papp.Cloud.{CloudService, Event, storage_result, new_cloud_service, upload}
use p2papp.Wallet.{Crypto}
use p2papp.App.{CommandError, service_failed, cloud_dir}
use p2papp.App.Commands.{
  default_config, open_host, open_cloud, upload_by, cloud_upload, download_by, cloud_download,
  cloud_result,
}

module _ (c : Crypto) (starts : c.PrivKey → Option Str) (env : Env) where
  -- The service that a command opens works on the storage of the data directory.
  storage-open_cloud :
      (has_dir : Bool) (data_dir : Str) (d : Disk) (s : CloudService)
      → open_cloud c starts env has_dir data_dir d ≡ inr s
      → s.storage ≡ new_file_storage env (cloud_dir data_dir)
  unfolding open_cloud new_cloud_service
  storage-open_cloud has_dir data_dir d s e = by_host (open_host c starts data_dir d) has_dir e
    where
      by_host :
          (r : CommandError ⊎ Str) (b : Bool)
          → (r >>= λ id.
              (if b
                then inr (new_cloud_service env id default_config.enable_dht (cloud_dir data_dir))
                else inl service_failed))
            ≡ inr s
          → s.storage ≡ new_file_storage env (cloud_dir data_dir)
      by_host (inl x) b h = absurd (ground arith)
      by_host (inr id) false h = absurd (ground arith)
      by_host (inr id) true h =
          let same : new_cloud_service env id true (cloud_dir data_dir) ≡ s = cc in
          sym (ap (λ (x : CloudService). x.storage) same)

  exists-load_metadata :
      (s : FileStorage) (hash : Str) (d : Disk) (m : Storage.FileMetadata)
      → Storage.load_metadata env s hash d ≡ some m
      → Storage.exists env s hash d ≡ true
  unfolding Storage.load_metadata Storage.exists has_file Storage.unmarshal_file
  exists-load_metadata s hash d m e =
      ground (arith, Option-cases (Assoc.get (meta_path env s hash) d))

  -- What a download of a file in the storage does.
  download_by-exists :
      (codec : Codec) (peers : Str → Peer) (files : Str → Answers) (hash dest : Str)
      (search : Option (List Event)) (s : CloudService) (storage : FileStorage) (d : Disk)
      → s.storage ≡ storage
      → Storage.exists env storage hash d ≡ true
      → let r = Storage.retrieve env storage dest (λ k. done) done hash d in
        download_by c starts env codec peers files hash dest done (λ k. done) search (inr s) d
        ≡ (r.0, cloud_result (storage_result r.1))
  unfolding download_by Cloud.download
  download_by-exists codec peers files hash dest search s storage d same there =
      rw (ap (λ st. Storage.exists env st hash d) same ∙ there) (
        ap
          (λ st.
            let r = Storage.retrieve env st dest (λ k. done) done hash d in
            (r.0, cloud_result (storage_result r.1)))
          same)

  -- Where the file operations succeed, JSON reads back what it wrote, no path of metadata is one of a
  -- chunk, and no two pieces of the file have one path: what one `cloud upload` stores, a later
  -- `cloud download` over the same data directory, by the hash of the file and with nothing in
  -- between, writes to its destination, outside the chunks, and reports no error. Both commands
  -- must find a wallet, start their hosts and open their services; no provider is asked.
  pub cloud_download-cloud_upload :
      (codec : Codec) (has_dir has_dir' : Bool) (io : Str → Outcome) (accepts : Str → Bool)
      (data_dir path dest : Str) (size : ℕ) (whole text : List ℕ) (ps : List (List ℕ)) (d : Disk)
      (peers : Str → Peer) (files : Str → Answers) (search : Option (List Event))
      (s s' : CloudService)
      → let storage = new_file_storage env (cloud_dir data_dir) in
        let hash = env.hash_of whole in
        let after =
          (cloud_upload c starts env has_dir io accepts path
            (some (read_source size whole ps))
            data_dir
            d).0 in
        Stored.IsLawful env storage
        → ((p : Str) → io p ≡ done)
        → env.marshal (Storage.new_metadata env storage io path size hash (chunk_list env 0 ps))
          ≡ some text
        → Apart env storage ps
        → ((b : List ℕ) → In b ps → dest ≢ chunk_path env storage (env.hash_of b))
        → open_cloud c starts env has_dir data_dir d ≡ inr s
        → open_cloud c starts env has_dir' data_dir after ≡ inr s'
        → let result =
            cloud_download c starts env codec peers files hash dest has_dir' done
              (λ k. done)
              search
              data_dir
              after in
          (Assoc.get dest result.0 ≡ some (joined ps)) × (result.1 ≡ inr tt)
  unfolding cloud_upload upload_by upload cloud_download download_by Cloud.download
  cloud_download-cloud_upload codec has_dir has_dir' io accepts data_dir path dest size whole text
        ps d peers files search s s' laws io_done e apart ne opened again =
      let storage = new_file_storage env (cloud_dir data_dir) in
      let hash = env.hash_of whole in
      let source = read_source size whole ps in
      let stored = (Storage.store env storage io path (some source) d).0 in
      let after = (cloud_upload c starts env has_dir io accepts path (some source) data_dir d).0 in
      let first =
        ap (λ r. (upload_by c starts env io accepts path (some source) r d).0) opened
        ∙ ap (λ st. (Storage.store env st io path (some source) d).0)
            (storage-open_cloud has_dir data_dir d s opened) in
      let there =
        exists-load_metadata storage hash stored _
          (load_metadata-store env storage laws io io_done path size whole text ps d e) in
      let down = download_by c starts env codec peers files hash dest done (λ k. done) search in
      let run =
        ap (λ r. down r after) again
        ∙ (ap (down (inr s')) first
            ∙ download_by-exists codec peers files hash dest search s' storage stored
                (storage-open_cloud has_dir' data_dir _ s' again) there) in
      let result =
        retrieve-store env storage laws io io_done path dest size whole text ps d e apart ne in
      (
        ap (λ r. Assoc.get dest r.0) run ∙ result.0,
        ap (λ r. r.1) run ∙ ap (λ r. cloud_result (storage_result r)) result.1,
      )
