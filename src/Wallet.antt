-- ===== src/Wallet.antt =====
-- internal/wallet: a user's keys (wallet.go), their encrypted file (keystore.go) and the identity of a
-- peer (identity.go). libp2p's keys, the ciphers, JSON and package filepath are a parameter,
-- `Crypto`; random bytes and what the file system answers are arguments.
pub mod Files
pub mod Encrypted
pub mod Samples
mod Tests
use p2papp.Prelude.{
  ℕ, ◌-◌, Bool, true, false, Option, none, some, List, [], ◌∷◌, ◌++◌, Str, codes, ◌==◌, ◌⊎◌, inl,
  inr, ◌>>=◌, or_error, length, take, drop, ltb, if◌then◌else◌,
}
use p2papp.Assoc
use p2papp.File.{Outcome, Disk, write_file, has_file, remove_file}

-- `WalletData`
pub record WalletData : Type 0 where
  pub peer_id : Str
  pub priv_key : Str

-- `EncryptedData`
pub record EncryptedData : Type 0 where
  pub salt : List ℕ
  pub nonce : List ℕ
  pub ciphertext : List ℕ

-- The keys of libp2p with their encodings, peer ids, `pbkdf2.Key`, AES-GCM under a derived key, and
-- encoding/json. `seal key nonce text` and `open_text key nonce text` are `Seal` and `Open` without
-- additional data; `cipher_key` is whether `aes.NewCipher` and `cipher.NewGCM` take a key.
pub record Crypto : Type 1 where
  pub PrivKey : Type 0
  pub PubKey : Type 0
  pub get_public : PrivKey → PubKey
  pub id_of : PubKey → Option Str
  pub peer_string : Str → Str
  pub marshal_private : PrivKey → Option (List ℕ)
  pub unmarshal_private : List ℕ → Option PrivKey
  pub encode_key : List ℕ → Str
  pub decode_key : Str → Option (List ℕ)
  pub marshal_wallet : WalletData → Option (List ℕ)
  pub unmarshal_wallet : List ℕ → Option WalletData
  pub derive : Str → List ℕ → List ℕ
  pub cipher_key : List ℕ → Bool
  pub seal : List ℕ → List ℕ → List ℕ → List ℕ
  pub open_text : List ℕ → List ℕ → List ℕ → Option (List ℕ)
  pub marshal_encrypted : EncryptedData → Option (List ℕ)
  pub unmarshal_encrypted : List ℕ → Option EncryptedData

-- The errors of the package; `nonce_panic` is the panic of `Open` on a nonce of a wrong size.
pub data WalletError : Type 0 where
  not_generated no_peer_id not_read not_parsed key_not_decoded key_not_unmarshalled : WalletError
  no_wallet no_directory key_not_marshalled wallet_not_marshalled not_written : WalletError
  no_salt no_cipher no_nonce not_decrypted nonce_panic : WalletError

-- `gcm.NonceSize()`
abbrev pub nonce_size : ℕ
nonce_size = 12

module _ (c : Crypto) where
  open c use {
    PrivKey, PubKey, get_public, id_of, peer_string, marshal_private, unmarshal_private, encode_key,
    decode_key, marshal_wallet, unmarshal_wallet, derive, cipher_key, seal, open_text,
    marshal_encrypted, unmarshal_encrypted,
  }

  -- `Wallet`, and `Identity` with the same fields.
  pub record Wallet : Type 0 where
    pub peer_id : Str
    pub priv_key : PrivKey
    pub pub_key : PubKey

  -- `walletService`: its wallet, if any. An operation returns the service and its result.
  abbrev pub Service : Type 0
  Service = Option Wallet

  unfoldable pub new_wallet : PrivKey → PubKey → WalletError ⊎ Wallet
  new_wallet priv public = or_error no_peer_id (id_of public) >>= λ id.
      inr (record { peer_id = id; priv_key = priv; pub_key = public })

  -- A result that the service keeps.
  abbrev pub keep : WalletError ⊎ Wallet → Service → Service × (WalletError ⊎ Wallet)
  keep (inl e) s = (s, inl e)
  keep (inr w) s = (some w, inr w)

  -- `Create` and `GenerateIdentity`, from the pair that is generated.
  unfoldable pub generated : Option (PrivKey × PubKey) → WalletError ⊎ Wallet
  generated none = inl not_generated
  generated (some (priv, public)) = new_wallet priv public

  unfoldable pub create : Option (PrivKey × PubKey) → Service → Service × (WalletError ⊎ Wallet)
  create pair s = keep (generated pair) s

  -- `IdentityFromPrivKey`
  unfoldable pub identity_from : PrivKey → WalletError ⊎ Wallet
  identity_from priv = new_wallet priv (get_public priv)

  -- `Load`: the wallet of a file's bytes, and the operation.
  unfoldable pub read_wallet : Option (List ℕ) → WalletError ⊎ Wallet
  read_wallet file = or_error not_read file >>= λ b.
      or_error not_parsed (unmarshal_wallet b) >>= λ w.
      or_error key_not_decoded (decode_key w.priv_key) >>= λ k.
      or_error key_not_unmarshalled (unmarshal_private k) >>= identity_from

  unfoldable pub load : Str → Disk → Service → Service × (WalletError ⊎ Wallet)
  load path d s = keep (read_wallet (Assoc.get path d)) s

  -- `Save`: the bytes of a wallet, the writing, and the operation. `has_dir` is whether the
  -- directory can be made; the wallet is none where the source has nil.
  unfoldable pub wallet_bytes : Wallet → WalletError ⊎ List ℕ
  wallet_bytes w = or_error key_not_marshalled (marshal_private w.priv_key) >>= λ k.
      or_error wallet_not_marshalled
        (marshal_wallet (record { peer_id = peer_string w.peer_id; priv_key = encode_key k }))

  unfoldable pub write_bytes :
      Outcome → Str → WalletError ⊎ List ℕ → Disk → Disk × (WalletError ⊎ Unit {0})
  write_bytes o path (inl e) d = (d, inl e)
  write_bytes o path (inr b) d =
      let (d', ok) = write_file o path b d in (d', if ok then inr tt else inl not_written)

  unfoldable pub save :
      Bool → Outcome → Option Wallet → Str → Disk → Disk × (WalletError ⊎ Unit {0})
  save has_dir o none path d = (d, inl no_wallet)
  save has_dir o (some w) path d =
      if has_dir then write_bytes o path (wallet_bytes w) d else (d, inl no_directory)

  -- `GetPeerID`, `GetPrivKey`
  unfoldable pub get_peer_id : Service → Str
  get_peer_id none = []
  get_peer_id (some w) = w.peer_id

  unfoldable pub get_priv_key : Service → Option PrivKey
  get_priv_key none = none
  get_priv_key (some w) = some w.priv_key

  -- `ShortID`
  unfoldable pub short_id : Wallet → Str
  short_id w =
      let id = peer_string w.peer_id in
      if ltb 12 (length id) then take 8 id ++ (codes "..." ++ drop (length id - 4) id) else id

  -- `SaveKey`: the file's bytes, from the salt and the nonce that are drawn, and the operation.
  unfoldable pub sealed : Str → Option (List ℕ) → Option (List ℕ) → List ℕ → WalletError ⊎ List ℕ
  sealed passphrase salt nonce key_bytes = or_error no_salt salt >>= λ s.
      (if cipher_key (derive passphrase s) then or_error no_nonce nonce else inl no_cipher) >>= λ n.
      or_error wallet_not_marshalled (
        marshal_encrypted
          (record { salt = s; nonce = n; ciphertext = seal (derive passphrase s) n key_bytes }))

  unfoldable pub key_file : PrivKey → Str → Option (List ℕ) → Option (List ℕ) → WalletError ⊎ List ℕ
  key_file priv passphrase salt nonce =
      or_error key_not_marshalled (marshal_private priv) >>= sealed passphrase salt nonce

  unfoldable pub write_key :
      Bool → Outcome → Str → WalletError ⊎ List ℕ → Disk → Disk × (WalletError ⊎ Unit {0})
  write_key has_dir o path (inl e) d = (d, inl e)
  write_key has_dir o path (inr b) d =
      if has_dir then write_bytes o path (inr b) d else (d, inl no_directory)

  unfoldable pub save_key :
      Bool
      → Outcome
      → PrivKey
      → Str
      → Option (List ℕ)
      → Option (List ℕ)
      → Str
      → Disk
      → Disk × (WalletError ⊎ Unit {0})
  save_key has_dir o priv passphrase salt nonce path d =
      write_key has_dir o path (key_file priv passphrase salt nonce) d

  -- `LoadKey`: the decryption, and the operation.
  unfoldable pub opened : List ℕ → EncryptedData → WalletError ⊎ List ℕ
  opened key e =
      if length e.nonce == nonce_size
      then or_error not_decrypted (open_text key e.nonce e.ciphertext)
      else inl nonce_panic

  unfoldable pub decrypted : Str → EncryptedData → WalletError ⊎ List ℕ
  decrypted passphrase e =
      if cipher_key (derive passphrase e.salt)
      then opened (derive passphrase e.salt) e
      else inl no_cipher

  unfoldable pub load_key : Str → Str → Disk → WalletError ⊎ PrivKey
  load_key passphrase path d = or_error not_read (Assoc.get path d) >>= λ b.
      or_error not_parsed (unmarshal_encrypted b) >>= decrypted passphrase >>= λ k.
      or_error key_not_unmarshalled (unmarshal_private k)

  -- `Exists`, `Delete` of the keystore.
  unfoldable pub key_exists : Str → Disk → Bool
  key_exists path d = has_file path d

  unfoldable pub delete_key : Outcome → Str → Disk → Disk × Bool
  delete_key o path d = remove_file o path d
