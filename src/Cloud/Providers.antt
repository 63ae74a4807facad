-- ===== src/Cloud/Providers.antt =====
-- The search for providers of internal/cloud/index.go, and the loop over them of service.go.
use p2papp.Prelude.{
  ◌≡◌, ◌≢◌, refl, sym, ap, false, ◌∙◌, ◌||◌, List, [], ◌∷◌, Str, str_dec, holds, In, inl, inr, ◌⊎◌,
  arith, Bool-cases,
}
use p2papp.File.{Disk}
use p2papp.Storage.{Env}
use p2papp.Transfer
use p2papp.Transfer.{Codec, Peer, Answers, TransferError}
use p2papp.Cloud.{CloudError, Event, found, timed_out, stopped, collect, try_providers, or_next}

-- A peer that the search hears of before it ends.
abbrev pub Heard : Str → List Event → Type 0
Heard q [] = ⊥
Heard q (timed_out ∷ es) = ⊥
Heard q (stopped ∷ es) = ⊥
Heard q (found p ∷ es) = (q ≡ p) ⊎ Heard q es

pub In-collect :
    (self q : Str) (es : List Event) → Heard q es → q ≢ [] → q ≢ self → In q (collect self es).0
unfolding collect
In-collect self q [] h a b = absurd h
In-collect self q (timed_out ∷ es) h a b = absurd h
In-collect self q (stopped ∷ es) h a b = absurd h
In-collect self q (found p ∷ es) (inl e) a b =
    elim (Bool-cases (holds (str_dec p []) || holds (str_dec p self))) [
      | inl out ↦ ground arith
      | inr kept ↦ rw kept (inl e)
    ]
In-collect self q (found p ∷ es) (inr h) a b =
    let rest = In-collect self q es h a b in
    elim (Bool-cases (holds (str_dec p []) || holds (str_dec p self))) [
      | inl out ↦ rw out rest
      | inr kept ↦ rw kept (inr rest)
    ]

module _ (codec : Codec) (env : Env) (peers : Str → Peer) (files : Str → Answers)
    (hash dest : Str) where
  -- A peer whose downloads succeed, and a disk that a successful download from a peer has left.
  abbrev pub Serves : Str → Type 0
  Serves p = (d : Disk) → (Transfer.download codec env (peers p) (files p) dest hash d).1 ≡ inr tt

  abbrev pub LeftBy : Str → Disk → Type 0
  LeftBy p left =
      (d : Disk) × ((Transfer.download codec env (peers p) (files p) dest hash d).1 ≡ inr tt)
      × (left ≡ (Transfer.download codec env (peers p) (files p) dest hash d).0)

  -- The outcome of the loop over providers: no error, and the disk is what one of them has left.
  abbrev pub Gives : Str → List Str → Disk × (CloudError ⊎ Unit {0}) → Type 0
  Gives self ps r = (r.1 ≡ inr tt) × ((p : Str) × In p ps × (p ≢ self) × LeftBy p r.0)

  Gives-cons :
      (self p : Str) (ps : List Str) (r : Disk × (CloudError ⊎ Unit {0}))
      → Gives self ps r
      → Gives self (p ∷ ps) r
  Gives-cons self p ps r (ok, (y, i, other, left)) = (ok, (y, inr i, other, left))

  or_next-Gives :
      (self p : Str) (ps : List Str) (d : Disk) (r : TransferError ⊎ Unit {0}) (left : Disk)
      (rest : Disk × (CloudError ⊎ Unit {0}))
      → p ≢ self
      → Transfer.download codec env (peers p) (files p) dest hash d ≡ (left, r)
      → (r ≢ inr tt → Gives self ps rest)
      → Gives self (p ∷ ps) (or_next env codec peers files hash dest r left rest)
  or_next-Gives self p ps d (inr tt) left rest other e later =
      (refl, (p, inl refl, other, (d, ap (λ o. o.1) e, sym (ap (λ o. o.0) e))))
  or_next-Gives self p ps d (inl x) left rest other e later =
      Gives-cons self p ps rest (later (λ q. ground arith))

  pub try_providers-Gives :
      (self q : Str) (ps : List Str) (d : Disk)
      → In q ps
      → q ≢ self
      → Serves q
      → Gives self ps (try_providers env codec peers files hash dest self ps d)
  unfolding try_providers
  try_providers-Gives self q [] d i ne up = absurd i
  try_providers-Gives self q (p ∷ ps) d (inl e) ne up =
      let r = Transfer.download codec env (peers p) (files p) dest hash d in
      let served : r.1 ≡ inr tt =
        ap (λ i. (Transfer.download codec env (peers i) (files i) dest hash d).1) (sym e) ∙ up d in
      let other : p ≢ self = λ me. ne (e ∙ me) in
      let flag : holds (str_dec p self) ≡ false = ground (arith, other) in
      rw flag (or_next-Gives self p ps d r.1 r.0 _ other refl (λ bad. absurd (bad served)))
  try_providers-Gives self q (p ∷ ps) d (inr i) ne up =
      let r = Transfer.download codec env (peers p) (files p) dest hash d in
      elim (Bool-cases (holds (str_dec p self))) [
        | inl me ↦ rw me (Gives-cons self p ps _ (try_providers-Gives self q ps d i ne up))
        | inr flag ↦ rw flag (
            or_next-Gives self p ps d r.1 r.0 _ (λ me. ground arith) refl
              (λ bad. try_providers-Gives self q ps r.0 i ne up))
      ]
