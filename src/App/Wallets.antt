-- ===== src/App/Wallets.antt =====
-- `walletCreate` and `walletShow` of cmd/p2papp/main.go, over internal/wallet.
use p2papp.Prelude.{
  ◌≡◌, refl, sym, ap, ◌∙◌, Bool, true, false, none, some, Str, ◌⊎◌, inl, inr, arith, if◌then◌else◌,
}
use p2papp.File.{Outcome, Disk, has_file}
use p2papp.Wallet
use p2papp.Wallet.{Crypto, WalletError}
use p2papp.Wallet.Files.{IsLawful, load-save, create-IsConsistent}
use p2papp.App.{
  CommandError, Created, declined, created, agrees, wallet_path, save_created, wallet_create, shown,
  wallet_show, saved,
}

-- What `wallet show` prints after `wallet create`, from what it printed before.
abbrev pub shows_after : CommandError ⊎ Str → Created → CommandError ⊎ Str
shows_after old declined = old
shows_after old (created id) = inr id

module _ (c : Crypto) (laws : IsLawful c) (data_dir : Str) (k : c.PrivKey) (has_dir : Bool)
    (o : Outcome) (d : Disk) where
  save-inr :
      (ok : WalletError ⊎ Unit {0}) (id : Str) (r : Created)
      → saved id ok ≡ inr r
      → (ok ≡ inr tt) × (r ≡ created id)
  save-inr (inl e) id r h = absurd (ground arith)
  save-inr (inr u) id r h = (refl, ground arith)

  wallet_show-save_created :
      (made : WalletError ⊎ Wallet.Wallet c) (r : Created)
      → (Wallet.create c (some (k, c.get_public k)) none).1 ≡ made
      → (save_created c has_dir o (wallet_path data_dir) made d).1 ≡ inr r
      → wallet_show c data_dir (save_created c has_dir o (wallet_path data_dir) made d).0
        ≡ shows_after (wallet_show c data_dir d) r
  unfolding save_created wallet_show
  wallet_show-save_created (inl e) r m h = absurd (ground arith)
  wallet_show-save_created (inr w) r m h =
      let (fine, same) = save-inr _ _ r h in
      ap (λ l. shown c l.1)
        (load-save c laws has_dir o w (wallet_path data_dir) d none
          (create-IsConsistent c k none w m) fine)
      ∙ ap (shows_after (wallet_show c data_dir d)) (sym same)

  -- Where the encodings are read back: after `wallet create` has ended without an error, on
  -- any disk, `wallet show` prints the peer id that `wallet create` has printed, or, where the user did
  -- not agree to overwrite a wallet, what it printed before.
  pub wallet_show-wallet_create :
      (answer : Str) (r : Created)
      → (wallet_create c data_dir answer (some (k, c.get_public k)) has_dir o d).1 ≡ inr r
      → wallet_show c data_dir
          (wallet_create c data_dir answer (some (k, c.get_public k)) has_dir o d).0
        ≡ shows_after (wallet_show c data_dir d) r
  unfolding wallet_create
  wallet_show-wallet_create answer r h =
      by_case (has_file (wallet_path data_dir) d) (agrees answer) h
    where
      made : Disk × (CommandError ⊎ Created)
      made =
          save_created c has_dir o (wallet_path data_dir)
            (Wallet.create c (some (k, c.get_public k)) none).1 d

      by_case :
          (there yes_said : Bool)
          → (if there then (if yes_said then made else (d, inr declined)) else made).1 ≡ inr r
          → wallet_show c data_dir
              (if there then (if yes_said then made else (d, inr declined)) else made).0
            ≡ shows_after (wallet_show c data_dir d) r
      by_case false yes_said e = wallet_show-save_created _ r refl e
      by_case true true e = wallet_show-save_created _ r refl e
      by_case true false e = ground arith
