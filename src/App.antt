-- ===== src/App.antt =====
-- cmd/p2papp/main.go: the commands on the wallet, the cloud and a chat room, over the parts that they
-- call. What the user types and what libp2p and the file system answer are arguments; what a command
-- prints is its result.
pub mod Text
pub mod Commands
pub mod Uploads
pub mod Sessions
pub mod Sizes
pub mod Wallets
pub mod Exposure
mod Tests
mod Runs
use p2papp.Prelude.{
  ℕ, zero, suc, ◌+◌, ◌/◌, Bool, true, false, ◌&&◌, ◌||◌, Option, none, some, List, [], ◌∷◌, ◌++◌,
  Str, str_dec, codes, holds, ◌==◌, ltb, leb, ◌⊎◌, inl, inr, ◌>>=◌, get_elem?, mul64, ℤ, pos,
  negsuc, if◌then◌else◌,
}
use p2papp.Assoc
use p2papp.File.{Outcome, Disk, has_file}
use p2papp.Path.{join}
use p2papp.Storage.{FileInfo, Source, Env}
use p2papp.Transfer.{Codec, Peer, Answers}
use p2papp.Cloud
use p2papp.Cloud.{CloudService, CloudError, Event}
use p2papp.Chat
use p2papp.App.Text.{trim_space}
use p2papp.Wallet
use p2papp.Wallet.{Crypto, WalletError}

-- `filepath.Join(dataDir, "wallet.json")` and `filepath.Join(dataDir, "cloud")`, also `GetCloudDir`.
unfoldable pub wallet_path : Str → Str
wallet_path data_dir = join data_dir (codes "wallet.json")

unfoldable pub cloud_dir : Str → Str
cloud_dir data_dir = join data_dir (codes "cloud")

-- `strings.ToLower` on ASCII, which is enough for the test below: no other letter has the lower case y.
unfoldable pub to_lower : Str → Str
to_lower [] = []
to_lower (c ∷ cs) = (if leb b'A' c && leb c b'Z' then c + 32 else c) ∷ to_lower cs

-- What `formatBytes` prints: the number with the unit B, or the quotient by a divisor, with one
-- decimal, and the letter of the unit; the letter is none where the index is out of range.
pub data Amount : Type 0 where
  plain : ℤ → Amount
  scaled : ℕ → ℕ → Option ℕ → Amount

abbrev pub unit_letters : Str
unit_letters = codes "KMGTPE"

-- The loop of `formatBytes`, on fuel: the divisor and the index.
unfoldable pub unit_loop : ℕ → ℕ → ℕ → ℕ → Option (ℕ × ℕ)
unit_loop zero n div exp = none
unit_loop (suc fuel) n div exp =
    let rest = unit_loop fuel (n / 1024) (mul64 div 1024) (exp + 1) in
    if leb 1024 n then rest else some (div, exp)

abbrev pub scaled_by : ℕ → Option (ℕ × ℕ) → Option Amount
scaled_by n none = none
scaled_by n (some (div, exp)) = some (scaled n div (get_elem? unit_letters exp))

-- `formatBytes`; none is the loop out of fuel.
unfoldable pub format_bytes : ℤ → Option Amount
format_bytes (negsuc n) = some (plain (negsuc n))
format_bytes (pos n) =
    let large = scaled_by n (unit_loop 7 (n / 1024) 1024 0) in
    if ltb n 1024 then some (plain (pos n)) else large

-- How a command fails.
pub data CommandError : Type 0 where
  wallet_failed : WalletError → CommandError
  host_failed service_failed : CommandError
  cloud_failed : CloudError → CommandError
  room_failed : Chat.Outcome → CommandError

-- What `wallet create` prints: nothing where the user declines, or the peer id.
pub data Created : Type 0 where
  declined : Created
  created : Str → Created

-- Whether the user agrees to overwrite a wallet.
unfoldable pub agrees : Str → Bool
agrees answer = holds (str_dec (to_lower (trim_space answer)) (codes "y"))

abbrev pub saved : Str → WalletError ⊎ Unit {0} → CommandError ⊎ Created
saved id (inl e) = inl (wallet_failed e)
saved id (inr u) = inr (created id)

module _ (c : Crypto) where
  open c use {PrivKey, PubKey, peer_string}

  unfoldable pub save_created :
      Bool → Outcome → Str → WalletError ⊎ Wallet.Wallet c → Disk → Disk × (CommandError ⊎ Created)
  save_created has_dir o path (inl e) d = (d, inl (wallet_failed e))
  save_created has_dir o path (inr w) d =
      let (d', r) = Wallet.save c has_dir o (some w) path d in (d', saved (peer_string w.peer_id) r)

  -- `walletCreate`
  unfoldable pub wallet_create :
      Str
      → Str
      → Option (PrivKey × PubKey)
      → Bool
      → Outcome
      → Disk
      → Disk × (CommandError ⊎ Created)
  wallet_create data_dir answer pair has_dir o d =
      let path = wallet_path data_dir in
      let made = save_created has_dir o path (Wallet.create c pair none).1 d in
      if has_file path d then (if agrees answer then made else (d, inr declined)) else made

  -- `walletShow`: the peer id that it prints.
  abbrev pub shown : WalletError ⊎ Wallet.Wallet c → CommandError ⊎ Str
  shown (inl e) = inl (wallet_failed e)
  shown (inr w) = inr (peer_string w.peer_id)

  unfoldable pub wallet_show : Str → Disk → CommandError ⊎ Str
  wallet_show data_dir d = shown (Wallet.load c (wallet_path data_dir) d none).1
