-- ===== src/Wire/Samples.antt =====
-- Parameters at which the tests apply the theorems on Storage and Transfer: a hash, JSON encodings
-- and a directory.
use p2papp.Prelude.{
  ℕ, ◌+◌, ◌-◌, ◌≡◌, ◌≢◌, refl, ap, ◌∙◌, Bool, true, false, Option, none, some, List, [], ◌∷◌, ◌++◌,
  Str, codes, All, arith, ◌==◌, if◌then◌else◌,
}
use p2papp.File.{Outcome, done}
use p2papp.Storage.{FileStorage, Env, chunk_path, meta_path}
use p2papp.Storage.Stored.{IsLawful}
use p2papp.Transfer.{Request, Response, Codec, newline}
use p2papp.Transfer.Serving
use p2papp.Wire.{
  put_str, get_str, get_num, get_str-put_str, encode_metadata, decode_metadata,
  decode_metadata-encode_metadata,
}

-- The bytes themselves for the hash, so that there are no collisions.
abbrev pub env : Env
env = record {
  hash_of = λ b. b;
  join = λ dir name. dir ++ name;
  base = λ path. path;
  marshal = λ m. some (encode_metadata m);
  unmarshal = decode_metadata;
}

abbrev pub storage : FileStorage
storage = record { chunks_dir = codes "c/"; meta_dir = codes "m/" }

abbrev pub io : Str → Outcome
io path = done

pub storage-IsLawful : IsLawful env storage
unfolding chunk_path meta_path
storage-IsLawful = record {
  unmarshal-marshal = λ m b e. ground (arith, decode_metadata-encode_metadata m);
  paths_differ = λ b w e. ground arith;
}

-- Numbers above the newline, so that a text of them is a line.
pub shift : List ℕ → List ℕ
shift [] = []
shift (c ∷ cs) = (c + 11) ∷ shift cs

pub unshift : List ℕ → List ℕ
unshift [] = []
unshift (c ∷ cs) = if c == newline then unshift cs else (c - 11) ∷ unshift cs

pub shift-line : (s : List ℕ) → All (λ c. c ≢ newline) (shift s)
unfolding shift
shift-line [] = tt
shift-line (c ∷ s) = ((λ e. absurd (omega arith)), shift-line s)

pub unshift-shift : (s : List ℕ) → unshift (shift s ++ newline ∷ []) ≡ s
unfolding shift unshift
unshift-shift [] = refl
unshift-shift (c ∷ s) = ground (arith, unshift-shift s)

put_request : Request → List ℕ
put_request r = put_str r.kind (put_str r.file_hash (put_str r.chunk_hash []))

get_request : List ℕ → Option Request
get_request l =
    let (kind, l1) = get_str l in
    let (file_hash, l2) = get_str l1 in
    let (chunk_hash, l3) = get_str l2 in
    some (record { kind = kind; file_hash = file_hash; chunk_hash = chunk_hash })

get_request-put_request : (r : Request) → get_request (put_request r) ≡ some r
unfolding get_request put_request
get_request-put_request r = ground (
  arith,
  get_str-put_str r.kind (put_str r.file_hash (put_str r.chunk_hash [])),
  get_str-put_str r.file_hash (put_str r.chunk_hash []),
  get_str-put_str r.chunk_hash [],
)

flag_of : Bool → ℕ
flag_of true = 1
flag_of false = 0

put_response : Response → List ℕ
put_response r = flag_of r.success ∷ put_str r.error (put_str r.content [])

get_response : List ℕ → Option Response
unfolding get_num
get_response l =
    let (flag, l1) = get_num l in
    let (error, l2) = get_str l1 in
    let (content, l3) = get_str l2 in
    some (record { success = flag == 1; error = error; content = content })

flag_lem : (b : Bool) → (flag_of b == 1) ≡ b
unfolding flag_of
flag_lem true = refl
flag_lem false = refl

get_response-put_response : (r : Response) → get_response (put_response r) ≡ some r
unfolding get_response put_response get_num
get_response-put_response r = ground (
  arith,
  flag_lem r.success,
  get_str-put_str r.error (put_str r.content []),
  get_str-put_str r.content [],
)

pub codec : Codec
codec = record {
  marshal_request = λ r. shift (put_request r);
  unmarshal_request = λ b. get_request (unshift b);
  marshal_response = λ r. shift (put_response r);
  unmarshal_response = λ b. get_response (unshift b);
  marshal_metadata = encode_metadata;
  marshal_notification = λ n. [];
  unmarshal_notification = λ b. none;
}

pub codec-IsLawful : Serving.IsLawful codec env
unfolding codec
codec-IsLawful = record {
  unmarshal_request-marshal_request =
      λ r. ap get_request (unshift-shift (put_request r)) ∙ get_request-put_request r;
  unmarshal_response-marshal_response =
      λ r. ap get_response (unshift-shift (put_response r)) ∙ get_response-put_response r;
  unmarshal-marshal_metadata = decode_metadata-encode_metadata;
  request_line = λ r. shift-line (put_request r);
  response_line = λ r. shift-line (put_response r);
}
