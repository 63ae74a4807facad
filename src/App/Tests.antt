-- ===== src/App/Tests.antt =====
-- The theorems on the commands of cmd/p2papp/main.go, at a concrete data directory.
use p2papp.Prelude.{ℕ, ◌≡◌, refl, true, some, List, [], ◌∷◌, codes, All, inr, arith}
use p2papp.Assoc
use p2papp.File.{done, write_file, has_file}
use p2papp.Path
use p2papp.Path.Joining.{IsPlain, root_path}
use p2papp.Storage.{Env}
use p2papp.Transfer.{request_chunk}
use p2papp.Transfer.Serving
use p2papp.Transfer.Serving.{serving}
use p2papp.Wallet.{save, write_bytes, wallet_bytes, read_wallet, create, generated, new_wallet}
use p2papp.Wallet.Samples.{crypto, wallet, files-IsLawful, wallet-IsConsistent}
use p2papp.Wire.Samples.{env, codec, codec-IsLawful}
use p2papp.App.{wallet_path, wallet_create, save_created, wallet_show, created}
use p2papp.App.Sizes.{IsScaled, format_bytes_lem}
use p2papp.App.Wallets.{wallet_show-wallet_create}
use p2papp.App.Exposure.{service, stolen, request_chunk-save}

format_bytes_lem_example : IsScaled 1048576
format_bytes_lem_example = format_bytes_lem 1048576 (omega arith) (omega arith)

wallet_show-wallet_create_example :
    wallet_show crypto
      (codes "/data")
      (wallet_create crypto (codes "/data") [] (some (7, 7)) true done []).0
    ≡ inr (7 ∷ [])
unfolding wallet_create save_created create generated new_wallet save write_bytes wallet_bytes
    write_file has_file Assoc.get
wallet_show-wallet_create_example =
    wallet_show-wallet_create crypto files-IsLawful (codes "/data") 7 true done [] []
      (created (7 ∷ [])) refl

-- The directory `/data`, and an environment with the program's own paths.
abbrev unix : Env
unix = record env { join = Path.join }

unix-IsLawful : Serving.IsLawful codec unix
unix-IsLawful = record {
  unmarshal_request-marshal_request = codec-IsLawful.unmarshal_request-marshal_request;
  unmarshal_response-marshal_response = codec-IsLawful.unmarshal_response-marshal_response;
  unmarshal-marshal_metadata = codec-IsLawful.unmarshal-marshal_metadata;
  request_line = codec-IsLawful.request_line;
  response_line = codec-IsLawful.response_line;
}

data-IsPlain : All IsPlain (codes "data" ∷ [])
data-IsPlain = ((ground (arith), (λ e. ground arith), (λ e. ground arith), (λ e. ground arith)), tt)

request_chunk-save_example :
    (b : List ℕ) × (request_chunk codec
        (serving codec unix unix-IsLawful
          (service unix (λ a b. refl) (codes "me") true (codes "data") [] data-IsPlain).storage
          (save crypto true done (some wallet) (wallet_path (root_path (codes "data" ∷ []))) []).0)
        stolen
      ≡ inr b)
    × (read_wallet crypto (some b) ≡ inr wallet)
unfolding save write_bytes wallet_bytes write_file
request_chunk-save_example =
    request_chunk-save unix (λ a b. refl) (codes "me") true (codes "data") [] data-IsPlain codec
      unix-IsLawful crypto files-IsLawful wallet true done [] wallet-IsConsistent refl
