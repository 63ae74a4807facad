-- ===== src/Cloud/Tests.antt =====
-- The theorems on the cloud service of internal/cloud, at concrete services.
use p2papp.Prelude.{
  ◌≢◌, ◌≢◌, ℕ, ◌≡◌, refl, true, false, some, List, [], ◌∷◌, Str, codes, inr, arith,
}
use p2papp.Assoc
use p2papp.File.{done, Disk, has_file}
use p2papp.Storage
use p2papp.Storage.Chunks.{joined}
use p2papp.Storage.Stored.{read_source}
use p2papp.Storage.{chunk_path}
use p2papp.Transfer.{Answers, Peer}
use p2papp.Transfer.Serving.{serving}
use p2papp.Transfer.Downloads.{AllDone}
use p2papp.Transfer.Forgery.{forging}
use p2papp.Cloud.{CloudService, found, timed_out, collect, download, upload}
use p2papp.Cloud.Downloads.{download-upload}
use p2papp.Wire.Samples.{env, storage, storage-IsLawful, io, codec, codec-IsLawful}

abbrev service : CloudService
service = record { self = codes "me"; with_dht = true; storage = storage; advertised = [] }

abbrev answers : Answers
answers = record { created = done; writes = λ k. done; removed = done; renamed = true }

answers-AllDone : AllDone answers
answers-AllDone = record { created_done = refl; writes_done = λ k. refl; renamed_done = refl }

abbrev pieces : List (List ℕ)
pieces = (1 ∷ 2 ∷ []) ∷ (3 ∷ []) ∷ []

abbrev uploaded : Disk
uploaded =
    (upload env io (λ h. true) (codes "a") (some (read_source 3 (joined pieces) pieces)) service
      []).1

abbrev peers : Str → Peer
peers p = serving codec env codec-IsLawful storage uploaded

abbrev forgers : Str → Peer
forgers p = forging codec (codes "h") (7 ∷ [])

absent : Storage.exists env storage (joined pieces) [] ≡ false
unfolding Storage.exists has_file Assoc.get
absent = refl

download-upload_example :
    (Assoc.get
        (codes "out")
        (download env codec peers
          (λ p. answers)
          (joined pieces)
          (codes "out")
          done
          (λ k. done)
          (some (found (codes "q") ∷ timed_out ∷ []))
          service
          []).0
      ≡ some (joined pieces))
    × ((download env codec peers
          (λ p. answers)
          (joined pieces)
          (codes "out")
          done
          (λ k. done)
          (some (found (codes "q") ∷ timed_out ∷ []))
          service
          []).1
        ≡ inr tt)
unfolding chunk_path collect
download-upload_example =
    download-upload codec env codec-IsLawful service service storage-IsLawful io (λ h. true)
      (codes "a") (codes "out") (codes "q") 3 (joined pieces) _ pieces [] [] peers (λ p. answers)
      done (λ k. done) (timed_out ∷ []) (λ p. refl) refl (λ x y i j e. ground arith) refl
      answers-AllDone refl absent refl (λ e. ground arith) (λ e. ground arith)
