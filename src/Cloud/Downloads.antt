-- ===== src/Cloud/Downloads.antt =====
-- `Download` of internal/cloud/service.go, from the search for providers to the file.
use p2papp.Prelude.{
  ℕ, ◌≡◌, ◌≢◌, refl, ap, ◌∙◌, Bool, true, false, ◌||◌, some, List, [], ◌∷◌, Str, str_dec, holds, In,
  inl, inr, arith,
}
use p2papp.Assoc
use p2papp.File.{Outcome, done, Disk}
use p2papp.Storage
use p2papp.Storage.{FileStorage, Env}
use p2papp.Storage.Chunks.{chunk_list, joined}
use p2papp.Storage.Stored
use p2papp.Storage.Stored.{Apart, read_source}
use p2papp.Transfer
use p2papp.Transfer.{Codec, Peer, Answers}
use p2papp.Transfer.Serving.{IsLawful, serving}
use p2papp.Transfer.Downloads.{AllDone}
use p2papp.Transfer.Roundtrip.{download-store}
use p2papp.Cloud.{
  CloudService, Event, found, collect, find_providers, from_providers, try_providers, download,
  upload, unless_cancelled,
}

module _ (codec : Codec) (env : Env) (peers : Str → Peer) (files : Str → Answers)
    (hash dest : Str) where
  -- A search that hears of peers hands them to the loop.
  download-collect :
      (created : Outcome) (writes : ℕ → Outcome) (es : List Event) (c : CloudService) (d : Disk)
      (q : Str)
      → c.with_dht ≡ true
      → Storage.exists env c.storage hash d ≡ false
      → (collect c.self es).1 ≡ false
      → In q (collect c.self es).0
      → download env codec peers files hash dest created writes (some es) c d
        ≡ try_providers env codec peers files hash dest c.self (collect c.self es).0 d
  unfolding download find_providers
  download-collect created writes es c d q dht absent going i =
      rw (absent, dht)
        (ap
            (λ (b : Bool).
              from_providers env codec peers files hash dest c.self
                (unless_cancelled ((collect c.self es).0, b)) d)
            going
          ∙ nonempty (collect c.self es).0 i)
    where
      nonempty :
          (ps : List Str)
          → In q ps
          → from_providers env codec peers files hash dest c.self (inr ps) d
            ≡ try_providers env codec peers files hash dest c.self ps d
      nonempty [] j = absurd j
      nonempty (p ∷ ps) j = unfold from_providers in refl

module _ (codec : Codec) (env : Env) (json : IsLawful codec env) where
  -- A file that one service uploads, and another downloads by its hash, has at the destination the
  -- bytes of its pieces, in their order, with no error, where the uploading node is the first
  -- provider that the search finds: JSON reads back what it wrote, the file operations of both
  -- nodes succeed, no two pieces of the file have one path, and the downloading node does not have
  -- the file.
  pub download-upload :
      (uploader c : CloudService) (laws : Stored.IsLawful env uploader.storage) (io : Str → Outcome)
      (accepts : Str → Bool) (path dest q : Str) (size : ℕ) (whole text : List ℕ)
      (ps : List (List ℕ)) (d local : Disk) (peers : Str → Peer) (files : Str → Answers)
      (created : Outcome) (writes : ℕ → Outcome) (es : List Event)
      → ((p : Str) → io p ≡ done)
      → env.marshal (
          Storage.new_metadata env uploader.storage io path size
            (env.hash_of whole)
            (chunk_list env 0 ps))
        ≡ some text
      → Apart env uploader.storage ps
      → peers q
        ≡ serving codec env json uploader.storage
            (upload env io accepts path (some (read_source size whole ps)) uploader d).1
      → AllDone (files q)
      → c.with_dht ≡ true
      → Storage.exists env c.storage (env.hash_of whole) local ≡ false
      → (collect c.self es).1 ≡ false
      → q ≢ []
      → q ≢ c.self
      → let result =
          download env codec peers files
            (env.hash_of whole)
            dest
            created
            writes
            (some (found q ∷ es))
            c
            local in
        (Assoc.get dest result.0 ≡ some (joined ps)) × (result.1 ≡ inr tt)
  unfolding upload collect try_providers
  download-upload uploader c laws io accepts path dest q size whole text ps d local peers files
        created writes es io_done e apart serves ok dht absent going named other =
      let hash = env.hash_of whole in
      let stored =
        (Storage.store env uploader.storage io path (some (read_source size whole ps)) d).0 in
      let there =
        download-store codec env uploader.storage laws json io io_done path dest size whole text ps
          d local (files q) e apart ok in
      let fetched =
        ap (λ (p : Peer). Transfer.download codec env p (files q) dest hash local) serves in
      let kept : (holds (str_dec q []) || holds (str_dec q c.self)) ≡ false = ground arith in
      let mine : holds (str_dec q c.self) ≡ false = ground arith in
      let heard : collect c.self (found q ∷ es) ≡ (q ∷ (collect c.self es).0, false) =
        rw (kept, going) refl in
      let run =
        download-collect codec env peers files hash dest created writes (found q ∷ es) c local q dht
          absent (ap (λ r. r.1) heard) (rw heard (inl refl))
        ∙ ap (λ r. try_providers env codec peers files hash dest c.self r.0 local) heard in
      let r = Transfer.download codec env (peers q) (files q) dest hash local in
      let done_first : r.1 ≡ inr tt = ap (λ x. x.1) fetched ∙ there.1 in
      let tried : try_providers env codec peers files hash dest c.self (q ∷ (collect c.self es).0)
            local
          ≡ (r.0, inr tt) =
        rw (mine, done_first) refl in
      (
        ap (λ x. Assoc.get dest x.0) (run ∙ tried)
            ∙ (ap (λ x. Assoc.get dest x.0) fetched ∙ there.0),
        ap (λ x. x.1) (run ∙ tried),
      )
