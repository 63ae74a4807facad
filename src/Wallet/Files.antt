-- ===== src/Wallet/Files.antt =====
-- `Save` and `Load` of internal/wallet/wallet.go.
use p2papp.Prelude.{
  ℕ, ◌≡◌, refl, sym, ap, ◌∙◌, Bool, true, false, Option, none, some, List, Str, ◌⊎◌, inl, inr,
  ◌>>=◌, or_error, arith,
}
use p2papp.Assoc
use p2papp.Assoc.{get-put_self}
use p2papp.File.{Outcome, done, failed, Disk, write_file}
use p2papp.Wallet.{
  Crypto, WalletData, Wallet, Service, WalletError, new_wallet, keep, generated, create,
  identity_from, read_wallet, load, wallet_bytes, write_bytes, save,
}

-- The encodings of keys and wallets are read back.
pub record IsLawful (c : Crypto) : Type 0 where
  pub unmarshal-marshal_private :
      (k : c.PrivKey) (b : List ℕ) → c.marshal_private k ≡ some b → c.unmarshal_private b ≡ some k
  pub decode-encode_key : (b : List ℕ) → c.decode_key (c.encode_key b) ≡ some b
  pub unmarshal-marshal_wallet :
      (w : WalletData) (b : List ℕ) → c.marshal_wallet w ≡ some b → c.unmarshal_wallet b ≡ some w

-- The public key and the peer id of a wallet are those of its private key.
pub record IsConsistent (c : Crypto) (w : Wallet c) : Type 0 where
  pub public_of : w.pub_key ≡ c.get_public w.priv_key
  pub id_of_public : c.id_of (c.get_public w.priv_key) ≡ some w.peer_id

-- A write that reports no error has written.
pub write_bytes-inr :
    (c : Crypto) (o : Outcome) (path : Str) (r : WalletError ⊎ List ℕ) (d : Disk)
    → (write_bytes c o path r d).1 ≡ inr tt
    → (b : List ℕ) × (r ≡ inr b) × (Assoc.get path (write_bytes c o path r d).0 ≡ some b)
unfolding write_bytes write_file
write_bytes-inr c o path (inl e) d ok = absurd (ground arith)
write_bytes-inr c done path (inr b) d ok = (b, refl, get-put_self path b d)
write_bytes-inr c (failed left) path (inr b) d ok = absurd (ground arith)

module _ (c : Crypto) (laws : IsLawful c) where
  -- The bytes of a wallet give the wallet.
  pub read_wallet-wallet_bytes :
      (w : Wallet c) (b : List ℕ)
      → IsConsistent c w
      → wallet_bytes c w ≡ inr b
      → read_wallet c (some b) ≡ inr w
  unfolding read_wallet wallet_bytes identity_from new_wallet
  read_wallet-wallet_bytes w b v e = by_key (c.marshal_private w.priv_key) refl e
    where
      by_data :
          (k : List ℕ) (o : Option (List ℕ))
          → c.marshal_private w.priv_key ≡ some k
          → c.marshal_wallet
              (record { peer_id = c.peer_string w.peer_id; priv_key = c.encode_key k })
            ≡ o
          → or_error WalletError.wallet_not_marshalled o ≡ inr b
          → read_wallet c (some b) ≡ inr w
      by_data k none m eo h = absurd (ground arith)
      by_data k (some b') m eo h =
          let same : b' ≡ b = ground arith in
          let parsed =
            laws.unmarshal-marshal_wallet
              (record { peer_id = c.peer_string w.peer_id; priv_key = c.encode_key k }) b
              (eo ∙ ap some same) in
          rw
            (
              parsed,
              laws.decode-encode_key k,
              laws.unmarshal-marshal_private w.priv_key k m,
              v.id_of_public,
            )
            (ap (λ p. inr (record { peer_id = w.peer_id; priv_key = w.priv_key; pub_key = p }))
              (sym v.public_of))

      by_key :
          (o : Option (List ℕ))
          → c.marshal_private w.priv_key ≡ o
          → (or_error WalletError.key_not_marshalled o >>= λ k.
              or_error WalletError.wallet_not_marshalled (
                c.marshal_wallet
                  (record { peer_id = c.peer_string w.peer_id; priv_key = c.encode_key k })))
            ≡ inr b
          → read_wallet c (some b) ≡ inr w
      by_key none m h = absurd (ground arith)
      by_key (some k) m h = by_data k _ m refl h

  -- Where the encodings are read back: a wallet whose public key and peer id are those of its private
  -- key, saved without an error, is the wallet that any service loads from the file, and keeps.
  pub load-save :
      (has_dir : Bool) (o : Outcome) (w : Wallet c) (path : Str) (d : Disk) (s : Service c)
      → IsConsistent c w
      → (save c has_dir o (some w) path d).1 ≡ inr tt
      → load c path (save c has_dir o (some w) path d).0 s ≡ (some w, inr w)
  unfolding load save
  load-save false o w path d s v ok = absurd (ground arith)
  load-save true o w path d s v ok =
      let (b, bytes, there) = write_bytes-inr c o path (wallet_bytes c w) d ok in
      ap (λ f. keep c (read_wallet c f) s) there
      ∙ ap (λ r. keep c r s) (read_wallet-wallet_bytes w b v bytes)

-- A wallet that `Create` makes of a key pair of libp2p is consistent.
pub create-IsConsistent :
    (c : Crypto) (k : c.PrivKey) (s : Service c) (w : Wallet c)
    → (create c (some (k, c.get_public k)) s).1 ≡ inr w
    → IsConsistent c w
unfolding create generated new_wallet
create-IsConsistent c k s w h = by_id (c.id_of (c.get_public k)) refl h
  where
    by_id :
        (o : Option Str)
        → c.id_of (c.get_public k) ≡ o
        → (keep c
            (or_error WalletError.no_peer_id o >>= λ id.
              inr (record { peer_id = id; priv_key = k; pub_key = c.get_public k }))
            s).1
          ≡ inr w
        → IsConsistent c w
    by_id none e h' = absurd (ground arith)
    by_id (some id) e h' =
        let same : (record { peer_id = id; priv_key = k; pub_key = c.get_public k }) ≡ w = cc in
        record {
          public_of =
              sym (ap (λ (x : Wallet c). x.pub_key) same)
              ∙ ap (λ (x : Wallet c). c.get_public x.priv_key) same;
          id_of_public =
              ap (λ (x : Wallet c). c.id_of (c.get_public x.priv_key)) (sym same)
              ∙ (e ∙ ap (λ (x : Wallet c). some x.peer_id) same);
        }
