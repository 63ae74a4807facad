-- ===== src/Wire.antt =====
-- A length-prefixed encoding, with which the tests instantiate the JSON parameters of the modules.
pub mod Samples
use p2papp.Prelude.{
  ℕ, zero, suc, ◌≡◌, refl, ap, Option, none, some, List, [], ◌∷◌, ◌++◌, Str, length, take, drop,
  arith,
}
use p2papp.Assoc.{Assoc}
use p2papp.Queue.{Content, bytes, json, Message}
use p2papp.Consensus.{Command, Data}
use p2papp.Storage.{Chunk, FileMetadata}

unfoldable pub put_str : Str → List ℕ → List ℕ
put_str s rest = length s ∷ (s ++ rest)

unfoldable pub get_str : List ℕ → Str × List ℕ
get_str [] = ([], [])
get_str (n ∷ rest) = (take n rest, drop n rest)

take-append : (s t : Str) → (take (length s) (s ++ t) ≡ s) × (drop (length s) (s ++ t) ≡ t)
take-append [] t = (refl, refl)
take-append (c ∷ s) t = (ap (◌∷◌ c) (take-append s t).0, (take-append s t).1)

pub get_str-put_str : (s : Str) (rest : List ℕ) → get_str (put_str s rest) ≡ (s, rest)
unfolding get_str put_str
get_str-put_str s rest = ground (arith, take-append s rest)

unfoldable pub get_num : List ℕ → ℕ × List ℕ
get_num [] = (0, [])
get_num (n ∷ rest) = (n, rest)

put_content : Content → List ℕ → List ℕ
put_content (bytes b) rest = 0 ∷ put_str b rest
put_content (json b) rest = 1 ∷ put_str b rest

content_of : ℕ → Str → Content
content_of zero b = bytes b
content_of (suc n) b = json b

get_content : List ℕ → Content × List ℕ
unfolding get_num
get_content l = let (t, l1) = get_num l in let (b, l2) = get_str l1 in (content_of t b, l2)

get_content-put_content :
    (c : Content) (rest : List ℕ) → get_content (put_content c rest) ≡ (c, rest)
unfolding get_content put_content content_of
get_content-put_content (bytes b) rest = ground (arith, get_str-put_str b rest)
get_content-put_content (json b) rest = ground (arith, get_str-put_str b rest)

put_message : Message → List ℕ → List ℕ
put_message m rest = put_str m.id (
    put_str m.from (
      put_str m.to (
        put_str m.kind (
          put_content m.content
            (m.created_at ∷ m.expires_at ∷ m.attempts ∷ m.last_attempt ∷ rest)))))

get_message : List ℕ → Message × List ℕ
unfolding get_num
get_message l =
    let (id, l1) = get_str l in
    let (from, l2) = get_str l1 in
    let (to, l3) = get_str l2 in
    let (kind, l4) = get_str l3 in
    let (content, l5) = get_content l4 in
    let (created, l6) = get_num l5 in
    let (expires, l7) = get_num l6 in
    let (attempts, l8) = get_num l7 in
    let (last, l9) = get_num l8 in
    (
      record {
        id = id;
        from = from;
        to = to;
        kind = kind;
        content = content;
        created_at = created;
        expires_at = expires;
        attempts = attempts;
        last_attempt = last;
      },
      l9,
    )

get_message-put_message :
    (m : Message) (rest : List ℕ) → get_message (put_message m rest) ≡ (m, rest)
unfolding get_message put_message
get_message-put_message m rest = simp (get_str-put_str, get_content-put_content)

put_messages : List Message → List ℕ
put_messages [] = []
put_messages (m ∷ ms) = put_message m (put_messages ms)

get_messages : ℕ → List ℕ → List Message
get_messages zero l = []
get_messages (suc n) l = (get_message l).0 ∷ get_messages n (get_message l).1

get_messages-put_messages : (ms : List Message) → get_messages (length ms) (put_messages ms) ≡ ms
unfolding get_messages put_messages
get_messages-put_messages [] = refl
get_messages-put_messages (m ∷ ms) =
    ground (arith, get_message-put_message m (put_messages ms), get_messages-put_messages ms)

pub encode_messages : List Message → List ℕ
encode_messages ms = length ms ∷ put_messages ms

pub decode_messages : List ℕ → Option (List Message)
decode_messages [] = none
decode_messages (n ∷ l) = some (get_messages n l)

pub decode_messages-encode_messages :
    (ms : List Message) → decode_messages (encode_messages ms) ≡ some ms
unfolding decode_messages encode_messages
decode_messages-encode_messages ms = ap some (get_messages-put_messages ms)

-- Commands and maps whose values are numbers.
pub encode_command : Command ℕ → List ℕ
encode_command c = c.value ∷ put_str c.op (put_str c.key [])

pub decode_command : List ℕ → Option (Command ℕ)
decode_command [] = none
decode_command (v ∷ l) =
    let (op, l1) = get_str l in
    let (key, l2) = get_str l1 in some (record { op = op; key = key; value = v })

put_entries : Assoc ℕ → List ℕ
put_entries [] = []
put_entries ((k, v) ∷ m) = put_str k (v ∷ put_entries m)

get_entries : ℕ → List ℕ → Assoc ℕ
unfolding get_num
get_entries zero l = []
get_entries (suc n) l =
    let (k, l1) = get_str l in let (v, l2) = get_num l1 in (k, v) ∷ get_entries n l2

get_entries-put_entries : (m : Assoc ℕ) → get_entries (length m) (put_entries m) ≡ m
unfolding get_entries put_entries
get_entries-put_entries [] = refl
get_entries-put_entries ((k, v) ∷ m) =
    ground (arith, get_str-put_str k (v ∷ put_entries m), get_entries-put_entries m)

pub encode_map : Data ℕ → List ℕ
encode_map none = []
encode_map (some m) = length m ∷ put_entries m

pub decode_map : List ℕ → Option (Data ℕ)
decode_map [] = some none
decode_map (n ∷ l) = some (some (get_entries n l))

pub decode_map-encode_map : (m : Assoc ℕ) → decode_map (encode_map (some m)) ≡ some (some m)
unfolding decode_map encode_map
decode_map-encode_map m = ap (λ x. some (some x)) (get_entries-put_entries m)

unfoldable pub put_chunks : List Chunk → List ℕ
put_chunks [] = []
put_chunks (c ∷ cs) = c.index ∷ c.size ∷ put_str c.hash (put_chunks cs)

unfoldable pub get_chunks : ℕ → List ℕ → List Chunk
unfolding get_num
get_chunks zero l = []
get_chunks (suc n) l =
    let (index, l1) = get_num l in
    let (size, l2) = get_num l1 in
    let (hash, l3) = get_str l2 in
    record { index = index; hash = hash; size = size } ∷ get_chunks n l3

get_chunks-put_chunks : (cs : List Chunk) → get_chunks (length cs) (put_chunks cs) ≡ cs
unfolding get_chunks put_chunks get_num
get_chunks-put_chunks [] = refl
get_chunks-put_chunks (c ∷ cs) =
    ground (arith, get_str-put_str c.hash (put_chunks cs), get_chunks-put_chunks cs)

unfoldable pub encode_metadata : FileMetadata → List ℕ
encode_metadata m =
    put_str m.hash (put_str m.name (m.size ∷ m.chunk_count ∷ length m.chunks ∷ put_chunks m.chunks))

unfoldable pub decode_metadata : List ℕ → Option FileMetadata
unfolding get_num
decode_metadata l =
    let (hash, l1) = get_str l in
    let (name, l2) = get_str l1 in
    let (size, l3) = get_num l2 in
    let (count, l4) = get_num l3 in
    let (n, l5) = get_num l4 in
    some (record {
      hash = hash;
      name = name;
      size = size;
      chunk_count = count;
      chunks = get_chunks n l5;
    })

pub decode_metadata-encode_metadata :
    (m : FileMetadata) → decode_metadata (encode_metadata m) ≡ some m
unfolding encode_metadata decode_metadata get_num
decode_metadata-encode_metadata m = ground (
  arith,
  get_str-put_str m.hash
      (put_str m.name (m.size ∷ m.chunk_count ∷ length m.chunks ∷ put_chunks m.chunks)),
  get_str-put_str m.name (m.size ∷ m.chunk_count ∷ length m.chunks ∷ put_chunks m.chunks),
  get_chunks-put_chunks m.chunks,
)
