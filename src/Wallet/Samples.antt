-- ===== src/Wallet/Samples.antt =====
-- A concrete wallet of internal/wallet, with keys, ciphers and encodings that keep their laws.
use p2papp.Prelude.{
  ℕ, ◌≡◌, refl, true, Option, none, some, List, [], ◌∷◌, str_dec, holds, arith, if◌then◌else◌,
}
use p2papp.Wallet.{Crypto, WalletData, EncryptedData, Wallet}
use p2papp.Wallet.Files
use p2papp.Wallet.Files.{IsConsistent, load-save}
use p2papp.Wallet.Encrypted
use p2papp.Wallet.Encrypted.{load_key-save_key}
use p2papp.Wire.{put_str, get_str, get_str-put_str}

unfoldable pub put_wallet : WalletData → List ℕ
put_wallet w = put_str w.peer_id (put_str w.priv_key [])

unfoldable pub get_wallet : List ℕ → Option WalletData
get_wallet l =
    let (id, l1) = get_str l in
    let (key, l2) = get_str l1 in some (record { peer_id = id; priv_key = key })

get_wallet-put_wallet : (w : WalletData) → get_wallet (put_wallet w) ≡ some w
unfolding get_wallet put_wallet
get_wallet-put_wallet w =
    ground (arith, get_str-put_str w.peer_id (put_str w.priv_key []), get_str-put_str w.priv_key [])

pub put_encrypted : EncryptedData → List ℕ
put_encrypted e = put_str e.salt (put_str e.nonce (put_str e.ciphertext []))

pub get_encrypted : List ℕ → Option EncryptedData
get_encrypted l =
    let (salt, l1) = get_str l in
    let (nonce, l2) = get_str l1 in
    let (text, l3) = get_str l2 in some (record { salt = salt; nonce = nonce; ciphertext = text })

get_encrypted-put_encrypted : (e : EncryptedData) → get_encrypted (put_encrypted e) ≡ some e
unfolding get_encrypted put_encrypted
get_encrypted-put_encrypted e = ground (
  arith,
  get_str-put_str e.salt (put_str e.nonce (put_str e.ciphertext [])),
  get_str-put_str e.nonce (put_str e.ciphertext []),
  get_str-put_str e.ciphertext [],
)

-- The key in front of the text.
pub seal_by : List ℕ → List ℕ → List ℕ → List ℕ
seal_by k n t = put_str k t

pub open_by : List ℕ → List ℕ → List ℕ → Option (List ℕ)
open_by k n l = let (k', t) = get_str l in if holds (str_dec k k') then some t else none

unfoldable pub first_of : List ℕ → Option ℕ
first_of [] = none
first_of (k ∷ l) = some k

abbrev pub crypto : Crypto
crypto = record {
  PrivKey = ℕ;
  PubKey = ℕ;
  get_public = λ k. k;
  id_of = λ k. some (k ∷ []);
  peer_string = λ p. p;
  marshal_private = λ k. some (k ∷ []);
  unmarshal_private = first_of;
  encode_key = λ b. b;
  decode_key = λ s. some s;
  marshal_wallet = λ w. some (put_wallet w);
  unmarshal_wallet = get_wallet;
  derive = λ passphrase salt. passphrase;
  cipher_key = λ k. true;
  seal = seal_by;
  open_text = open_by;
  marshal_encrypted = λ e. some (put_encrypted e);
  unmarshal_encrypted = get_encrypted;
}

pub files-IsLawful : Files.IsLawful crypto
unfolding first_of
files-IsLawful = record {
  unmarshal-marshal_private = λ k b e. ground arith;
  decode-encode_key = λ b. refl;
  unmarshal-marshal_wallet = λ w b e. ground (arith, get_wallet-put_wallet w);
}

pub encrypted-IsLawful : Encrypted.IsLawful crypto
unfolding first_of seal_by open_by
encrypted-IsLawful = record {
  open-seal = λ k n t. ground (arith, get_str-put_key k t);
  open-seal_ne = λ k k' n t ne. ground (arith, get_str-put_key k t, ne);
  unmarshal-marshal_private = λ k b e. ground arith;
  unmarshal-marshal_encrypted = λ e b h. ground (arith, get_encrypted-put_encrypted e);
}
  where
    get_str-put_key : (k t : List ℕ) → get_str (put_str k t) ≡ (k, t)
    get_str-put_key k t = get_str-put_str k t

abbrev pub wallet : Wallet crypto
wallet = record { peer_id = 7 ∷ []; priv_key = 7; pub_key = 7 }

pub wallet-IsConsistent : IsConsistent crypto wallet
wallet-IsConsistent = record { public_of = refl; id_of_public = refl }
