-- ===== src/Wallet/Tests.antt =====
-- The theorems on wallets and key files of internal/wallet, at a concrete wallet.
use p2papp.Prelude.{
  ℕ, ◌≡◌, refl, true, none, some, List, [], ◌∷◌, str_dec, codes, holds, inl, inr, if◌then◌else◌,
}
use p2papp.File.{done, write_file}
use p2papp.Wallet.{
  save, load, wallet_bytes, write_bytes, save_key, load_key, key_file, sealed, write_key,
  not_decrypted,
}
use p2papp.Wallet.Files.{load-save}
use p2papp.Wallet.Encrypted.{load_key-save_key}
use p2papp.Wallet.Samples.{crypto, wallet, files-IsLawful, encrypted-IsLawful, wallet-IsConsistent}

load-save_example :
    load crypto (codes "w") (save crypto true done (some wallet) (codes "w") []).0 none
    ≡ (some wallet, inr wallet)
unfolding save wallet_bytes write_bytes write_file
load-save_example =
    load-save crypto files-IsLawful true done wallet (codes "w") [] none wallet-IsConsistent refl

abbrev nonce : List ℕ
nonce = 1 ∷ 2 ∷ 3 ∷ 4 ∷ 5 ∷ 6 ∷ 7 ∷ 8 ∷ 9 ∷ 10 ∷ 11 ∷ 12 ∷ []

load_key-save_key_example :
    load_key crypto
      (codes "wrong")
      (codes "k")
      (save_key crypto true done 7 (codes "right") (some []) (some nonce) (codes "k") []).0
    ≡ (if holds (str_dec (codes "wrong") (codes "right")) then inr 7 else inl not_decrypted)
unfolding save_key key_file sealed write_key write_bytes write_file
load_key-save_key_example =
    load_key-save_key crypto encrypted-IsLawful true done 7 (codes "right") (codes "wrong") [] nonce
      (codes "k") [] refl refl refl
