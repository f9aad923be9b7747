-- ===== src/Lib.antt =====
-- A verification library for World Engine's cardinal, the Go server that runs a game's world: the
-- state of its entities and the commit of a tick to redis, the searches for entities, the pool of
-- transactions, the receipts, the stages of the world, the nonces of its signers, the managers of
-- its messages and components, its tick loop and recovery, the validation of transactions, the
-- query language, and the keeper of the base shard from which a world is recovered.
--
-- The parts and their files:
-- * Gamestate is cardinal/gamestate. Gamestate/Ecb.antt and the files below it are ecb.go: the
--   EntityCommandBuffer is a record with the maps of the source as fields, and a method is a
--   function from a buffer to a result and a buffer (Base/Exec.antt). Ecb/Entities.antt creates and
--   removes entities, Ecb/Components.antt gets, sets, adds and removes components,
--   Ecb/Archetypes.antt finds and makes archetypes, Ecb/Reset.antt is DiscardPending. Active.antt is
--   active.go, MapStorage.antt map.go, and CompSets.antt component.go, where slices share arrays, so
--   that an append within the capacity and a sort in place are seen through other slices.
--   Gamestate/Pipe.antt and Pipe/Reload.antt are redis.go and tick.go: a pipe is a list of commands,
--   and EXEC takes it to a new database. Redis.antt states what is relied on of redis.
--   ReadOnly.antt is read_only.go, the view of what redis has.
-- * Filter is cardinal/filter: the filters are one data type, matches_components their methods.
-- * Search is cardinal/search.go, search_iterator.go, filtercomponent.go and composedsearch.go.
--   Search/Composed.antt has the Or, And and Not searches.
-- * TxPool is cardinal/txpool/pool.go, Receipt cardinal/receipt/receipt.go, Worldstage
--   cardinal/worldstage/worldstage.go, Nonce cardinal/storage/redis/nonce.go and keys.go.
-- * Message is cardinal/message_manager.go with SetID of message.go, and ComponentManager
--   cardinal/component/manager.go with SetID of component.go, over a storage of schemas.
-- * World is cardinal/world.go, world_recovery.go, world_receipt.go, world_context.go, tick_results.go
--   and system.go. World/Types.antt has the world and what it calls, World/Systems.antt the manager of
--   the systems, World/Context.antt what a system reaches, World/Tick.antt doTick, World/Recovery.antt
--   recoverFromChain, World/Loop.antt the game loop and World/Lifecycle.antt StartGame, Shutdown and
--   cleanup. A channel is a number, and the loop runs over a list of inputs: the ticks, the callers
--   that wait, and the end.
-- * Validator is cardinal/server/validator/validator.go, and Validator/Handler.antt PostTransaction of
--   cardinal/server/handler/tx.go. Sign is sign/sign.go. Cql is cardinal/server/handler/cql/cql.go.
-- * Shard is evm/x/shard/keeper and evm/x/shard/types/page.go; Shard/Reader.antt is
--   cardinal/router/iterator/iterator.go, which reads what the keeper holds.
-- * Sequencer is evm/sequencer: the queue and Submit. Sequencer/Router.antt is SubmitTxBlob of
--   cardinal/router/router.go, and Sequencer/Blocks.antt the part of evm/app/app.go that hands what is
--   queued to the keeper.
-- * Base has what they share: tests, lists over the native numbers, Go's maps, the error monad.
--
-- How they interact: a tick copies the pool, runs systems that search and change the entity command
-- buffer, records receipts, and finalizes the tick; the buffer commits to redis all at once. A search
-- reads the buffer through the interface Reader of Search.antt, and filters decide on archetypes. The
-- server validates a transaction before it adds it to the pool, the router submits a tick's
-- transactions to the base shard, and the iterator reads them for the recovery, which
-- World/Recovery/Chain.antt relates to the recorded ticks that the recovery takes as given.
--
-- Numbers are natural; the IDs and ticks of type uint64 keep their wrap-around (% 2 ^ 64), and the
-- theorems that need it say that a counter stays below 2 ^ 64. A Go map is a list of entries with
-- distinct keys, in an order that stands for Go's iteration order. Two models use
-- fuel: the fast forward of the recovery has a round for each tick up to the recorded one
-- (World/Recovery.antt), and the iterator's loop over pages a bound on its rounds, where one round
-- more than there are epochs is enough. Every other loop of the source runs over a list or up to a
-- number.
--
-- Parameters: the values of components, their JSON, go-redis (Env of Gamestate/Types.antt with the
-- laws Lawful of Gamestate/Redis.antt, and SortedSets of Nonce.antt with the laws Documented of
-- Nonce/Invariant.antt), the schema storage and the comparison of schemas (SchemaStorage of
-- ComponentManager.antt with the laws of ComponentManager/Schemas.antt), the hash of a transaction,
-- the store, the router, the server and the systems of a world (Services of World/Types.antt, with the
-- laws CountsTicks and UsesContext of World/Tick), the parser of queries, protobuf, the key-value
-- store of the keeper (Kv of Shard.antt with the laws IsOrderedStore of Shard/Pages.antt), the hash cache (HashCache
-- of Validator.antt with the laws KeepsHashes of Validator/Replay.antt) and the functions of
-- go-ethereum (Crypto of Sign.antt). Gamestate/Store.antt and the files Tests.antt have stores in
-- memory for which those laws hold.
--
-- Not modelled: the manager of queries, plugins and personas, the rest of the router and of the HTTP
-- server, configuration, signals, logging and tracing, the texts of redis keys, and the rest of the
-- repository's programs (the EVM router and the registrations of
-- game shards in evm, relay, rift, assert, e2e).
pub mod Base
pub mod Filter
pub mod Gamestate
pub mod TxPool
pub mod Validator
pub mod Receipt
pub mod Worldstage
pub mod World
pub mod Cql
pub mod Shard
pub mod Nonce
pub mod Search
pub mod Sign
pub mod Message
pub mod ComponentManager
pub mod Sequencer
