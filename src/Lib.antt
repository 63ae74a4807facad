-- ===== src/Lib.antt =====
-- p2papp: the relay network, the replicated map, the cloud service, the chat rooms and the wallet of
-- a peer-to-peer application written in Go.
--
-- The parts and their files. Each operation of the source is a function here from the state, the
-- readings of the clock and the answers of the world outside to the new state and the result; the
-- names are the source's in snake_case (PutWithTTL is `put_with_ttl`). A method holds its mutex from
-- start to end, so that an operation is one step; the delivery loops of the relay node, which take
-- the lock once for each message, are modelled message by message.
--
--   Cache      internal/relay/cache.go. `Cache` is LRUCache: `items` is the container/list, front
--              first, an element's number stands for its pointer, `lookup` maps keys to pointers.
--              Cache/Invariant has the well-formedness, Cache/Recency the abstract recency list, the
--              other children one group of operations each.
--   Queue      internal/relay/queue.go. `Queue` is MessageQueue with its directory: `pending` in
--              memory, `disk` the files; what os.ReadDir and os.ReadFile answer to `load` is a list
--              of entries. Queue/Contents and Queue/Totals are about memory,
--              Queue/Files about the files, Queue/Restart about NewMessageQueue, Queue/Boxes about
--              runs of operations, against a mailbox for each peer.
--   Delivery   internal/relay/node.go, the loops of handleAnnounce and deliveryLoop, in which a
--              range over the slice of Peek goes on while RemoveMessage shifts the slice's array.
--   Limiter    internal/relay/limiter.go: token buckets, and the limits for each peer.
--   Router     internal/relay/router.go: the nodes and the hash ring that is rebuilt from them.
--   Relay      internal/relay/node.go: the handlers; Forward, Cache and Fetch (Relay/Requests); and the
--              ticks of the two background loops (Relay/Ticks); composed of the parts above.
--              Relay/Stats has the statistics of the node, the cache and the queue.
--   Consensus  internal/consensus/raft.go: the state machine (Apply, Snapshot, Persist, Restore), and
--              the requests that Join, Leave, Set and Delete make of Raft, and WaitForLeader.
--   Storage    internal/cloud/storage.go: Store, Retrieve, Delete and the reading operations.
--   Transfer   internal/cloud/transfer.go: the handlers, which map the bytes that a stream brings to
--              the bytes that they answer, and Download with its requests to a peer, any function on
--              bytes. Transfer/Serving joins the two ends.
--   Cloud      internal/cloud/service.go and index.go: the service over Storage and Transfer, and the
--              advertised hashes. The events of a search for providers are an argument.
--   Wallet     internal/wallet: wallet.go and identity.go (Wallet/Files), keystore.go
--              (Wallet/Encrypted). Wallet/Samples has keys and ciphers that keep the laws.
--   App        cmd/p2papp/main.go: the wallet commands, the cloud and chat commands (App/Commands), the
--              directories of the program's files (App/Exposure), and formatBytes (App/Sizes). App/Text
--              is strings.TrimSpace on the bytes of UTF-8, which the chat command calls.
--   Chat       internal/chat/service.go and room.go: joining, leaving and sending, and the members of
--              a room. Chat/Reader has a room's reading loop, its channel and Close as a step relation,
--              Chat/Direct dm.go, Chat/Topics pubsub.go.
--   Config     internal/core/config.go: the configuration file.
--   File       the operations of package os on files, and what they leave of other files.
--   Path       Clean and Join of package path/filepath on Unix.
--   Assoc      Go maps, as association lists; a range visits the entries in the list's order.
--   Prelude    words, strings as lists of bytes, times and durations, and lemmas on lists.
--   Wire       an encoding with which the tests stand in for JSON.
--
-- Numbers: an int or int64 is a word with its wrap-around (`add64`, `lt64`); a bound such as
-- `capacity + length content < half_word` says where nothing wraps. Times are nanoseconds, and
-- `sub_time` saturates as Time.Sub does.
--
-- Fuel: the eviction loop of the cache has one round for each item, which is enough since a round
-- removes an item and the loop stops on the empty list. The delivery loops have one round for each
-- message of the slice, as the range has. The loop of formatBytes has seven rounds: six divisions
-- by 1024 bring an int64 below 1024. Trimming has one round for each byte of the text, and a round
-- takes a rune of at least one byte. All other loops are structural.
--
-- Parameters, for code that is not in the repository: `Float` for float64 in the limiter, `Hashring`
-- for serialx/hashring, `Codec` and `Env` for encoding/json, peer ids, sha256 and filepath
-- (Path is the one that App/Exposure takes), `Transfer.Codec` for the JSON of the transfers, `Crypto`
-- for the keys of libp2p, pbkdf2 and AES-GCM, peers and the search in the DHT, the answers of
-- pubsub to each call (`Chat.Answers`) and of hashicorp/raft (`Consensus.Answers`), the outcome of
-- each file operation (`Outcome`), and the network, a function that says which messages arrive. The
-- laws that a theorem needs of a parameter are its hypotheses, and the tests have instances of them.
--
-- Not modelled: goroutines, tickers and the registration of handlers, but for a room's reading loop,
-- where several rooms on one channel are left; the set-up of Raft and its stores, and of libp2p in
-- internal/core/host.go, which are calls of these libraries with constants; pkg/protocol, whose types
-- nothing uses; flags, terminal and signals of cmd/p2papp.
mod Prelude
pub mod Assoc
pub mod Cache
pub mod File
pub mod Path
pub mod Queue
pub mod Delivery
pub mod Limiter
pub mod Router
pub mod Consensus
pub mod Storage
pub mod Transfer
pub mod Cloud
pub mod Wallet
pub mod Relay
pub mod Chat
pub mod App
pub mod Config
mod Wire
