-- ===== src/Transfer/Tests.antt =====
-- The theorems on the transfers of internal/cloud/transfer.go, at concrete files.
use p2papp.Prelude.{ℕ, ◌≡◌, refl, true, some, List, [], ◌∷◌, codes, inr, arith}
use p2papp.Assoc
use p2papp.Assoc.{get}
use p2papp.File.{done, Disk}
use p2papp.Storage.{store}
use p2papp.Storage.Chunks.{joined}
use p2papp.Storage.Stored.{read_source}
use p2papp.Transfer.{
  Answers, Peer, unread, download, download_metadata, request_metadata, parse_reply,
}
use p2papp.Transfer.Downloads.{AllDone, temp_path_ne}
use p2papp.Transfer.Forgery.{forging, download-forging}
use p2papp.Transfer.Failures.{get-download}
use p2papp.Wire.Samples.{env, storage, io, codec, codec-IsLawful}

abbrev answers : Answers
answers = record { created = done; writes = λ k. done; removed = done; renamed = true }

answers-AllDone : AllDone answers
answers-AllDone = record { created_done = refl; writes_done = λ k. refl; renamed_done = refl }

abbrev pieces : List (List ℕ)
pieces = (1 ∷ 2 ∷ []) ∷ (3 ∷ []) ∷ (1 ∷ 2 ∷ []) ∷ []

abbrev stored : Disk
stored = (store env storage io (codes "a") (some (read_source 5 (joined pieces) pieces)) []).0

download-forging_example :
    (Assoc.get
        (codes "out")
        (download codec env
          (forging codec (codes "h") (7 ∷ []))
          answers
          (codes "out")
          (codes "h")
          []).0
      ≡ some (7 ∷ []))
    × ((download codec env
          (forging codec (codes "h") (7 ∷ []))
          answers
          (codes "out")
          (codes "h")
          []).1
        ≡ inr tt)
download-forging_example =
    download-forging codec env codec-IsLawful (codes "h") (7 ∷ []) (codes "out") answers []
      answers-AllDone

-- A peer whose answers break off.
abbrev broken : Peer
broken stream = unread

abbrev old_file : Disk
old_file = (codes "out", 9 ∷ []) ∷ []

get-download_example :
    Assoc.get (codes "out") (download codec env broken answers (codes "out") (codes "h") old_file).0
    ≡ Assoc.get (codes "out") old_file
unfolding download download_metadata request_metadata parse_reply
get-download_example =
    get-download codec env broken answers (codes "out") (codes "out") (temp_path_ne (codes "out"))
      (codes "h") old_file (λ e. ground arith)
