-- ===== src/Wallet/Encrypted.antt =====
-- `SaveKey` and `LoadKey` of internal/wallet/keystore.go.
use p2papp.Prelude.{
  ℕ, ◌≡◌, ◌≢◌, refl, ap, ◌∙◌, Bool, true, false, Option, none, some, List, Str, str_dec, holds,
  length, ◌⊎◌, inl, inr, ◌>>=◌, or_error, arith, if◌then◌else◌,
}
use p2papp.Assoc
use p2papp.File.{Outcome, Disk}
use p2papp.Wallet.{
  Crypto, EncryptedData, WalletError, nonce_size, sealed, key_file, write_key, save_key, opened,
  decrypted, load_key, not_decrypted, no_cipher,
}
use p2papp.Wallet.Files.{write_bytes-inr}

-- AES-GCM opens what it sealed under the same key, and nothing that it sealed under another key; the
-- encodings of private keys and of key files are read back.
pub record IsLawful (c : Crypto) : Type 0 where
  pub open-seal : (k n t : List ℕ) → c.open_text k n (c.seal k n t) ≡ some t
  pub open-seal_ne : (k k' n t : List ℕ) → k' ≢ k → c.open_text k' n (c.seal k n t) ≡ none
  pub unmarshal-marshal_private :
      (k : c.PrivKey) (b : List ℕ) → c.marshal_private k ≡ some b → c.unmarshal_private b ≡ some k
  pub unmarshal-marshal_encrypted :
      (e : EncryptedData) (b : List ℕ)
      → c.marshal_encrypted e ≡ some b
      → c.unmarshal_encrypted b ≡ some e

-- An error-free end of a chain has an error-free start.
or_error-inr {ℓ κ μ} :
    {E : Type ℓ} {A : Type κ} {B : Type μ} (e : E) (o : Option A) (f : A → E ⊎ B) (b : B)
    → (or_error e o >>= f) ≡ inr b
    → (a : A) × (o ≡ some a) × (f a ≡ inr b)
or_error-inr e none f b h = absurd (cc h)
or_error-inr e (some a) f b h = (a, refl, h)

module _ (c : Crypto) (laws : IsLawful c) where
  -- What is in a key file that was made without an error.
  key_file-inr :
      (priv : c.PrivKey) (passphrase : Str) (s n b : List ℕ)
      → key_file c priv passphrase (some s) (some n) ≡ inr b
      → (t : List ℕ) × (c.marshal_private priv ≡ some t)
        × (c.marshal_encrypted
              (record { salt = s; nonce = n; ciphertext = c.seal (c.derive passphrase s) n t })
            ≡ some b)
  unfolding key_file sealed
  key_file-inr priv passphrase s n b h =
      let (t, m, h1) = or_error-inr _ (c.marshal_private priv) _ b h in
      (t, m, by_cipher t (c.cipher_key (c.derive passphrase s)) h1)
    where
      by_cipher :
          (t : List ℕ) (ok : Bool)
          → ((if ok then inr n else inl no_cipher) >>= λ (m : List ℕ).
              or_error WalletError.wallet_not_marshalled (
                c.marshal_encrypted (record {
                  salt = s;
                  nonce = m;
                  ciphertext = c.seal (c.derive passphrase s) m t;
                })))
            ≡ inr b
          → c.marshal_encrypted
              (record { salt = s; nonce = n; ciphertext = c.seal (c.derive passphrase s) n t })
            ≡ some b
      by_cipher t false h2 = absurd (ground arith)
      by_cipher t true h2 = ground arith

  opened-seal :
      (k k' s n t : List ℕ)
      → length n ≡ nonce_size
      → opened c k' (record { salt = s; nonce = n; ciphertext = c.seal k n t })
        ≡ (if holds (str_dec k' k) then inr t else inl not_decrypted)
  unfolding opened
  opened-seal k k' s n t size = elim (str_dec k' k) [
    | yes same ↦ ground (arith, laws.open-seal k n t, ap (λ x. c.open_text x n (c.seal k n t)) same)
    | no other ↦ ground (arith, laws.open-seal_ne k k' n t other)
  ]

  -- A key that is loaded from a file which another one was sealed into.
  load_key-seal :
      (priv : c.PrivKey) (passphrase other : Str) (s n b t : List ℕ) (path : Str) (disk : Disk)
      → length n ≡ nonce_size
      → c.cipher_key (c.derive other s) ≡ true
      → c.marshal_private priv ≡ some t
      → c.marshal_encrypted
          (record { salt = s; nonce = n; ciphertext = c.seal (c.derive passphrase s) n t })
        ≡ some b
      → Assoc.get path disk ≡ some b
      → load_key c other path disk ≡ (
          if holds (str_dec (c.derive other s) (c.derive passphrase s))
          then inr priv
          else inl not_decrypted)
  unfolding load_key decrypted
  load_key-seal priv passphrase other s n b t path disk size cipher m e there =
      rw
        (
          there,
          laws.unmarshal-marshal_encrypted _ b e,
          cipher,
          opened-seal (c.derive passphrase s) (c.derive other s) s n t size,
        )
        (elim (str_dec (c.derive other s) (c.derive passphrase s))
          as (λ q.
            ((if holds q then inr t else inl not_decrypted) >>= λ k.
            or_error WalletError.key_not_unmarshalled (c.unmarshal_private k))
            ≡ (if holds q then inr priv else inl not_decrypted)) [
              | yes same ↦
                  ap (or_error WalletError.key_not_unmarshalled)
                    (laws.unmarshal-marshal_private priv t m)
              | no different ↦ refl
            ])

  -- Where the encodings are read back and AES-GCM is an authenticated encryption: a key that is saved
  -- under a passphrase, without an error and with a nonce of the right size, is loaded again under
  -- every passphrase that gives the same derived key. Under any other passphrase the loading
  -- ends with the decryption error.
  pub load_key-save_key :
      (has_dir : Bool) (o : Outcome) (priv : c.PrivKey) (passphrase other : Str) (s n : List ℕ)
      (path : Str) (d : Disk)
      → length n ≡ nonce_size
      → c.cipher_key (c.derive other s) ≡ true
      → (save_key c has_dir o priv passphrase (some s) (some n) path d).1 ≡ inr tt
      → load_key c other path (save_key c has_dir o priv passphrase (some s) (some n) path d).0 ≡ (
          if holds (str_dec (c.derive other s) (c.derive passphrase s))
          then inr priv
          else inl not_decrypted)
  unfolding save_key
  load_key-save_key has_dir o priv passphrase other s n path d size cipher ok =
      by_file has_dir (key_file c priv passphrase (some s) (some n)) refl ok
    where
      by_file :
          (dir : Bool) (r : WalletError ⊎ List ℕ)
          → key_file c priv passphrase (some s) (some n) ≡ r
          → (write_key c dir o path r d).1 ≡ inr tt
          → load_key c other path (write_key c dir o path r d).0 ≡ (
              if holds (str_dec (c.derive other s) (c.derive passphrase s))
              then inr priv
              else inl not_decrypted)
      by_file dir (inl e) f bad = absurd (unfold write_key in ground arith)
      by_file false (inr b) f bad = absurd (unfold write_key in ground arith)
      by_file true (inr b) f good =
          unfold write_key in
          let (b', same, there) = write_bytes-inr c o path (inr b) d good in
          let (t, m, e) = key_file-inr priv passphrase s n b f in
          load_key-seal priv passphrase other s n b t path _ size cipher m e (there ∙ ground arith)
