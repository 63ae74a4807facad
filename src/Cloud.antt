-- ===== src/Cloud.antt =====
-- internal/cloud/service.go and index.go: the cloud service, which composes the storage, the transfer
-- and the index of advertised hashes. The DHT is not modelled: what it answers is an argument.
pub mod Providers
pub mod Downloads
mod Tests
use mathlib.Core.Logic.{ite}
use p2papp.Prelude.{
  ℕ, Bool, true, false, Option, none, some, List, [], ◌∷◌, ◌++◌, Str, str_dec, codes, holds, ◌⊎◌,
  ◌||◌, inl, inr, if◌then◌else◌,
}
use p2papp.Assoc
use p2papp.Assoc.{Assoc}
use p2papp.File.{Outcome, Disk}
use p2papp.Storage
use p2papp.Storage.{FileStorage, FileInfo, Source, Env, Error}
use p2papp.Transfer
use p2papp.Transfer.{Codec, Peer, Answers, TransferError}

-- `cloudService` with its `FileIndex`; `self` is the host's id, and `with_dht` whether the host has a
-- DHT.
pub record CloudService : Type 0 where
  pub self : Str
  pub with_dht : Bool
  pub storage : FileStorage
  pub advertised : Assoc Bool

-- The errors of the service, with those of its parts.
pub data CloudError : Type 0 where
  dht_disabled not_advertised search_failed cancelled : CloudError
  no_providers all_failed file_not_found : CloudError
  in_storage : Error → CloudError
  in_transfer : TransferError → CloudError

-- What the search for providers sees: a peer, the end of the 30 seconds, or of the context.
pub data Event : Type 0 where
  found : Str → Event
  timed_out stopped : Event

-- `NewFileIndex`, `NewCloudService`
unfoldable pub new_cloud_service : Env → Str → Bool → Str → CloudService
new_cloud_service env self with_dht cloud_dir = record {
  self = self;
  with_dht = with_dht;
  storage = Storage.new_file_storage env cloud_dir;
  advertised = [];
}

-- `ProviderPrefix`
abbrev pub provider_prefix : Str
provider_prefix = codes "/p2papp/file/"

-- `Advertise`, `ProvideFile`, `StopProviding`; `accepts` is whether the DHT takes a rendezvous.
unfoldable pub advertise :
    (Str → Bool) → Str → CloudService → CloudService × (CloudError ⊎ Unit {0})
advertise accepts hash c =
    if c.with_dht
    then (if accepts (provider_prefix ++ hash)
        then (record c { advertised = Assoc.put hash true c.advertised }, inr tt)
        else (c, inl not_advertised))
    else (c, inl dht_disabled)

unfoldable pub provide_file : Str → CloudService → CloudService × (CloudError ⊎ Unit {0})
provide_file hash c =
    if c.with_dht
    then (record c { advertised = Assoc.put hash true c.advertised }, inr tt)
    else (c, inl dht_disabled)

unfoldable pub stop_providing : Str → CloudService → CloudService
stop_providing hash c = record c { advertised = Assoc.remove hash c.advertised }

-- A tick of `AdvertiseLoop`: a range over the advertised hashes.
unfoldable pub advertise_all : (Str → Bool) → Assoc Bool → CloudService → CloudService
advertise_all accepts [] c = c
advertise_all accepts ((hash, b) ∷ rest) c = advertise_all accepts rest (advertise accepts hash c).0

-- `FindProviders`, its loop: the providers, and whether the context was cancelled. The channel is
-- closed at the end of the list.
abbrev pub with_provider : Str → List Str × Bool → List Str × Bool
with_provider p (ps, b) = (p ∷ ps, b)

unfoldable pub collect : Str → List Event → List Str × Bool
collect self [] = ([], false)
collect self (timed_out ∷ es) = ([], false)
collect self (stopped ∷ es) = ([], true)
collect self (found p ∷ es) =
    let rest = collect self es in
    if holds (str_dec p []) || holds (str_dec p self) then rest else with_provider p rest

-- `FindProviders`; the events are none where the search cannot start.
abbrev pub unless_cancelled : List Str × Bool → CloudError ⊎ List Str
unless_cancelled (ps, true) = inl cancelled
unless_cancelled (ps, false) = inr ps

abbrev pub searched : Str → Option (List Event) → CloudError ⊎ List Str
searched self none = inl search_failed
searched self (some es) = unless_cancelled (collect self es)

unfoldable pub find_providers : Option (List Event) → CloudService → CloudError ⊎ List Str
find_providers search c = if c.with_dht then searched c.self search else inl dht_disabled

-- The errors of storage and transfer, as the service returns them.
abbrev pub storage_result {ℓ} : {A : Type ℓ} → Error ⊎ A → CloudError ⊎ A
storage_result (inl e) = inl (in_storage e)
storage_result (inr a) = inr a

module _ (env : Env) where
  -- `Upload`: a failure to advertise is only printed.
  unfoldable pub after_store :
      (Str → Bool) → Error ⊎ FileInfo → CloudService → CloudService × (CloudError ⊎ FileInfo)
  after_store accepts (inl e) c = (c, inl (in_storage e))
  after_store accepts (inr i) c = ((advertise accepts i.hash c).0, inr i)

  unfoldable pub upload :
      (Str → Outcome)
      → (Str → Bool)
      → Str
      → Option Source
      → CloudService
      → Disk
      → CloudService × Disk × (CloudError ⊎ FileInfo)
  upload io accepts path source c d =
      let (d', r) = Storage.store env c.storage io path source d in
      let (c', r') = after_store accepts r c in (c', d', r')

  -- `List`, `GetInfo` and `Delete`
  unfoldable pub list : Option (List Str) → CloudService → Disk → CloudError ⊎ List FileInfo
  list names c d = storage_result (Storage.list_files env c.storage names d)

  unfoldable pub info : Str → CloudService → Disk → Option FileInfo
  info hash c d = Storage.get_info env c.storage hash d

  unfoldable pub delete_file :
      (Str → Outcome) → Str → CloudService → Disk → Disk × (CloudError ⊎ Unit {0})
  delete_file io hash c d =
      let (d', r) = Storage.delete env c.storage io hash d in (d', storage_result r)

  module _ (codec : Codec) where
    -- `Share`: the bytes that go to the peer.
    abbrev pub transfer_result {ℓ} : {A : Type ℓ} → TransferError ⊎ A → CloudError ⊎ A
    transfer_result (inl e) = inl (in_transfer e)
    transfer_result (inr a) = inr a

    unfoldable pub share : Bool → Bool → Str → CloudService → Disk → CloudError ⊎ List ℕ
    share opens writes hash c d =
        if Storage.exists env c.storage hash d
        then transfer_result (Transfer.notify_peer codec env c.storage c.self opens writes hash d)
        else inl file_not_found

    -- `Download`, its loop over the providers. `peers` are the providers by their ids, and `files`
    -- what the file system answers in the download from each.
    module _ (peers : Str → Peer) (files : Str → Answers) (hash dest : Str) where
      abbrev pub or_next :
          TransferError ⊎ Unit {0}
          → Disk
          → Disk × (CloudError ⊎ Unit {0})
          → Disk × (CloudError ⊎ Unit {0})
      or_next (inr ok) d rest = (d, inr tt)
      or_next (inl e) d rest = rest

      unfoldable pub try_providers : Str → List Str → Disk → Disk × (CloudError ⊎ Unit {0})
      try_providers self [] d = (d, inl all_failed)
      try_providers self (p ∷ ps) d =
          let skipped = try_providers self ps d in
          let tried =
            (let (d', r) = Transfer.download codec env (peers p) (files p) dest hash d in
              or_next r d' (try_providers self ps d')) in
          if holds (str_dec p self) then skipped else tried

      unfoldable pub from_providers :
          Str → CloudError ⊎ List Str → Disk → Disk × (CloudError ⊎ Unit {0})
      from_providers self (inl e) d = (d, inl e)
      from_providers self (inr []) d = (d, inl no_providers)
      from_providers self (inr (p ∷ ps)) d = try_providers self (p ∷ ps) d

      -- `Download`; `created` and `writes` are the outcomes where the file is there to retrieve.
      abbrev pub retrieved : Disk × (Error ⊎ Unit {0}) → Disk × (CloudError ⊎ Unit {0})
      retrieved (d, r) = (d, storage_result r)

      unfoldable pub download :
          Outcome
          → (ℕ → Outcome)
          → Option (List Event)
          → CloudService
          → Disk
          → Disk × (CloudError ⊎ Unit {0})
      download created writes search c d =
          if Storage.exists env c.storage hash d
          then retrieved (Storage.retrieve env c.storage dest writes created hash d)
          else from_providers c.self (find_providers search c) d
