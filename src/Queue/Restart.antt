-- ===== src/Queue/Restart.antt =====
-- `load` of internal/relay/queue.go: a restart over the files that a queue has left.
use mathlib.Core.Logic.{ite, if_pos, if_neg}
use p2papp.Prelude.{
  ℕ, ◌-◌, ◌≡◌, ◌≢◌, Bool, true, false, inl, inr, ◌⊎◌, if◌then◌else◌, sym, refl, ap, ◌∙◌, Option,
  none, some, List, [], ◌∷◌, ◌++◌, map, arith, Str, str_dec, All, length, take, length-append,
}
use p2papp.Assoc
use p2papp.Assoc.{Assoc, Unique, get-put}
use p2papp.Queue.{
  Message, Codec, Queue, Disk, Entry, directory, file, decode_file, load_listing, json_ext, peek,
  ext_from, ext, file_name, load_messages, load_file, load_loop, new_queue,
}
use p2papp.Queue.Files.{IsLawful, Mirrors, file_of, file_name_injective}

ext-append : (s acc : Str) → ext_from (s ++ json_ext) acc ≡ json_ext
unfolding ext_from
ext-append [] acc = refl
ext-append (c ∷ s) acc = ext-append s _

take-append : (s t : Str) → take (length s) (s ++ t) ≡ s
take-append [] t = refl
take-append (c ∷ s) t = ap (◌∷◌ c) (take-append s t)

take_stem : (s : Str) → take (length (s ++ json_ext) - 5) (s ++ json_ext) ≡ s
take_stem s =
    let e : length (s ++ json_ext) - 5 ≡ length s = omega (arith, length-append s json_ext) in
    rw e (take-append s json_ext)

-- The messages of a peer after its file has been read, over those there were before.
abbrev or_old : Option (List Message) → List Message → List Message
or_old none old = old
or_old (some ms) old = ms

abbrev decoded : Codec → Option (List ℕ) → List Message → List Message
decoded codec none old = old
decoded codec (some b) old = or_old (codec.decode b) old

-- A peer whose text form is read back, or refused, as that of the empty id is.
abbrev pub IsKnown : Codec → Str → Type 0
IsKnown codec p =
    (codec.peer_decode (codec.peer_string p) ≡ some p)
    ⊎ (codec.peer_decode (codec.peer_string p) ≡ none)

abbrev pub is_read : Option Str → Bool
is_read none = false
is_read (some p) = true

-- A listing of exactly these files, all of which can be read, among any directories.
abbrev pub Lists : List Entry → Disk → Type 0
Lists [] [] = Unit
Lists [] (f ∷ d) = ⊥
Lists (directory name ∷ es) d = Lists es d
Lists (file name none ∷ es) d = ⊥
Lists (file name (some b) ∷ es) [] = ⊥
Lists (file name (some b) ∷ es) ((other, c) ∷ d) = (name ≡ other) × (b ≡ c) × Lists es d

module _ (codec : Codec) (lawful : IsLawful codec) where
  Named : Disk → Type 0
  Named = All (λ (f : Str × List ℕ). (p : Str) × (f.0 ≡ file_name codec p) × IsKnown codec p)

  load_file_lem :
      (j : Str) (b : List ℕ) (q : Queue)
      → load_file codec (file (file_name codec j) (some b)) q
        ≡ load_messages (codec.peer_decode (codec.peer_string j)) (codec.decode b) q
  unfolding load_file decode_file file_name ext
  load_file_lem j b q =
      let name = codec.peer_string j ++ json_ext in
      if_pos (str_dec (ext_from name []) json_ext) (ext-append (codec.peer_string j) []) _ _
      ∙ ap (λ s. load_messages (codec.peer_decode s) (codec.decode b) q)
          (take_stem (codec.peer_string j))

  peek-load_messages :
      (p j : Str) (b : List ℕ) (q : Queue)
      → peek p (load_messages (some j) (codec.decode b) q)
        ≡ ite (str_dec j p) (decoded codec (some b) (peek p q)) (peek p q)
  unfolding load_messages peek
  peek-load_messages p j b q =
      elim (codec.decode b)
        as (λ o.
          peek p (load_messages (some j) o q)
          ≡ ite (str_dec j p) (or_old o (peek p q)) (peek p q)) [
            | none ↦ ground arith
            | some ms ↦ ground (arith, get-put p j ms q.pending)
          ]

  -- The messages of a peer that is read or not.
  abbrev loaded_as : Str → Option (List ℕ) → List Message → List Message
  loaded_as p content old =
      if is_read (codec.peer_decode (codec.peer_string p)) then decoded codec content old else old

  peek-load_file :
      (p j : Str) (b : List ℕ) (q : Queue)
      → IsKnown codec j
      → peek p (load_file codec (file (file_name codec j) (some b)) q)
        ≡ ite (str_dec j p) (loaded_as j (some b) (peek p q)) (peek p q)
  unfolding load_messages
  peek-load_file p j b q (inl known) =
      ap (peek p) (load_file_lem j b q) ∙ rw known (peek-load_messages p j b q)
  peek-load_file p j b q (inr refused) =
      ap (peek p) (load_file_lem j b q) ∙ rw refused (ground arith)

  load_file-directory : (name : Str) (q : Queue) → load_file codec (directory name) q ≡ q
  unfolding load_file
  load_file-directory name q = refl

  loaded_as-none : (p : Str) (old : List Message) → loaded_as p none old ≡ old
  loaded_as-none p old = ground arith

  peek-load_loop :
      (p : Str) (es : List Entry) (files : Disk) (q : Queue)
      → Lists es files
      → Unique files
      → Named files
      → peek p (load_loop codec es q) ≡ loaded_as p (Assoc.get (file_name codec p) files) (peek p q)
  unfolding load_loop Named Assoc.get
  peek-load_loop p [] [] q l u n = ground arith
  peek-load_loop p [] (f ∷ files) q l u n = absurd l
  peek-load_loop p (directory name ∷ es) files q l u n =
      ap (λ r. peek p (load_loop codec es r)) (load_file-directory name q)
      ∙ peek-load_loop p es files q l u n
  peek-load_loop p (file name none ∷ es) files q l u n = absurd l
  peek-load_loop p (file name (some b) ∷ es) [] q l u n = absurd l
  peek-load_loop p (file name (some b) ∷ es) ((other, c) ∷ files) q l u n =
      let (j, e, known) = n.0 in
      let here : peek p (load_file codec (file name (some b)) q)
          ≡ ite (str_dec j p) (loaded_as j (some c) (peek p q)) (peek p q) =
        ap (λ x. peek p (load_file codec (file x (some b)) q)) (l.0 ∙ e)
        ∙ ap (λ y. peek p (load_file codec (file (file_name codec j) (some y)) q)) l.1
        ∙ peek-load_file p j c q known in
      peek-load_loop p es files (load_file codec (file name (some b)) q) l.2 u.1 n.1
      ∙ elim (str_dec j p) [
        | yes same ↦
            let at : other ≡ file_name codec p = e ∙ ap (file_name codec) same in
            ap (λ o. loaded_as p o (peek p (load_file codec (file name (some b)) q)))
              (ap (λ x. Assoc.get x files) (sym at) ∙ u.0)
            ∙ (loaded_as-none p _
                ∙ (here
                    ∙ (if_pos (str_dec j p) same _ _
                        ∙ (ap (λ x. loaded_as x (some c) (peek p q)) same
                            ∙ ap (λ o. loaded_as p o (peek p q))
                                (sym (if_pos (str_dec other (file_name codec p)) at _ _))))))
        | no different ↦
            let elsewhere : other ≢ file_name codec p =
              λ at. different (file_name_injective codec lawful j p (sym e ∙ at)) in
            ap (loaded_as p (Assoc.get (file_name codec p) files))
              (here ∙ if_neg (str_dec j p) different _ _)
            ∙ ap (λ o. loaded_as p o (peek p q))
                (sym (if_neg (str_dec other (file_name codec p)) elsewhere _ _))
      ]

  Named-of :
      (d : Disk)
      → ((name : Str) (b : List ℕ)
          → Assoc.get name d ≡ some b
          → (p : Str) × (name ≡ file_name codec p) × IsKnown codec p)
      → Unique d
      → Named d
  unfolding Named Assoc.get
  Named-of [] h u = tt
  Named-of ((name, b) ∷ d) h u = (
    h name b (if_pos (str_dec name name) refl _ _),
    Named-of d (λ other c e. h other c (ground arith)) u.1,
  )

  reread_all : List Message → List Message
  reread_all = map (λ (m : Message). record m { content = lawful.reread m.content })

  decoded-file_of : (ms : List Message) → decoded codec (file_of codec ms) [] ≡ reread_all ms
  unfolding file_of reread_all
  decoded-file_of [] = refl
  decoded-file_of (m ∷ ms) =
      let (b, e) = lawful.encode_total (m ∷ ms) in
      rw e (ap (λ o. or_old o []) (lawful.decode-encode (m ∷ ms) b e))

  file_of-nil : file_of codec [] ≡ none
  unfolding file_of
  file_of-nil = refl

  -- A queue that starts over the directory of another, in step with it, where all its files can be
  -- read, and where the text form of each peer with messages is read back or refused: it has the same
  -- messages pending for every peer whose text form is read back, in order, up to the form in which
  -- JSON gives back the contents, and none for a peer whose text form is refused.
  pub peek-new_queue :
      (q : Queue) (listing : List Entry)
      → Mirrors codec q
      → Unique q.disk
      → Lists listing q.disk
      → ((p : Str) → peek p q ≢ [] → IsKnown codec p)
      → (r : Queue) × (new_queue codec true (some listing) q.disk ≡ some r)
        × ((p : Str)
            → peek p r ≡ (
                if is_read (codec.peer_decode (codec.peer_string p))
                then map
                    (λ (m : Message). record m { content = lawful.reread m.content })
                    (peek p q)
                else []))
  unfolding new_queue load_listing reread_all peek Assoc.get
  peek-new_queue q listing h u l known = (
    _,
    refl,
    λ p.
        peek-load_loop p listing q.disk _ l u (Named-of q.disk named u)
        ∙ (ap (λ o. loaded_as p o []) (h.files p)
            ∙ ap (λ ms. if is_read (codec.peer_decode (codec.peer_string p)) then ms else [])
                (decoded-file_of (peek p q))),
  )
    where
      waiting :
          (p : Str) (b : List ℕ) → Assoc.get (file_name codec p) q.disk ≡ some b → peek p q ≢ []
      waiting p b e nil = absurd (cc (e, h.files p, ap (file_of codec) nil, file_of-nil))

      named :
          (name : Str) (b : List ℕ)
          → Assoc.get name q.disk ≡ some b
          → (p : Str) × (name ≡ file_name codec p) × IsKnown codec p
      named name b e =
          let (p, same) = h.named name b e in
          (p, same, known p (λ nil. waiting p b (ap (λ x. Assoc.get x q.disk) (sym same) ∙ e) nil))
