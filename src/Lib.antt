-- ===== src/Lib.antt =====
-- Aster, a blockchain emulator: proposers and followers that share a Merkle Patricia trie among them
-- (consensus_shard/subMPT), and sharded chains under PBFT (consensus_shard/pbft_all), with a supervisor that partitions the
-- accounts anew (supervisor, partition), over the packages core, chain, storage, message and utils. This library models that logic and proves what makes it
-- correct.
--
-- The parts and how they work together. A proposer holds transactions in three pools. SchedulingTxs
-- takes a batch from the pending pool and sends every follower the transactions that touch its
-- accounts, which the first hexadecimal digit of an address decides; a follower executes them on its
-- part of the state trie (ProcessTxs) and answers with the hashes; GatherTxs moves the answered
-- transactions to the processed pool; when all followers have answered for an epoch, blockGenerate
-- makes a block and adds it to the chain, whose blocks are kept in a store of three buckets. In the
-- other mode the nodes of a shard agree on blocks by PBFT and keep cross-shard transactions in a relay
-- pool. The supervisor reads transactions from a file and sends each to the shard of its sender; from
-- the blocks that the shards report it builds a graph of the addresses, partitions it by constrained
-- label propagation (CLPA), and sends the addresses that change their shard, whereupon the leaders send
-- each other the accounts and the transactions that wait. Every message is a type in a field of 30 bytes and a JSON text.
--
-- Files:
--   Prelude/      Booleans, lists, Go's maps as association lists, integers, results that may panic.
--   Utils         utils/utils_partition.go: Addr2Shard, ModBytes.
--   Message       message/message.go: MergeMessage, SplitMessage.
--   Core/         core/account.go, core/transaction.go, core/block.go; Core/TxPool is core/txpool.go,
--                 with its theorems on the queue, the relay pool and transfers in the modules below.
--   Storage       storage/storage.go.
--   Chain         chain/blockchain_MemoryMPT.go and chain/blockchain_rollback.go; Growth has AddBlock,
--                 Rollback the choice of forks, Bloom the filter, Status the update of the state trie,
--                 Transfer and Moved the accounts that leave and arrive.
--   Accounts      how an account of the trie is read, made, charged and credited; Tries has the trie
--                 and the encoding as parameters, Reads a trie seen as a ledger of balances, Changes when it has
--                 nodes to commit.
--   SubMpt/       consensus_shard/subMPT: Messages, Routing, Follower (follower.go, followerListen.go)
--                 and Proposer (proposer.go, proposerListen.go). Follower/Ledger is the abstract view:
--                 a balance for every address, and what executing a transaction does to it.
--                 Follower/Writes says when a batch leaves nodes to commit, Idle what becomes of one that
--                 does not.
--   Pbft          consensus_shard/pbft_all/messageHandle.go, with set2DMap of toolFuncs.go and the
--                 message switch of pbft.go; the module behind ExtraOpInConsensus is a parameter.
--                 Pbft/Relay is one such module, for transactions whose recipient is in another shard
--                 (pbftInside_module.go and pbftOutside_module.go). Pbft/Clpa is another, for accounts
--                 that move between shards (pbftInside_moduleCLPA.go, pbftOutside_moduleCLPA.go and
--                 accountTransfer_module.go): Transfer has the functions of the transfer, Inside those
--                 on blocks, Proposal a round of a leader with its waits for the others; Moves,
--                 Sending, Leaving, Conservation, Arrival and Sorting are about them.
--   Partition/    partition: Graph (graph.go), and partition_CLPA.go, with Clpa the state and its
--                 counts, Starting the two initial partitions and the copy of a state, Propagation the
--                 algorithm; Turns is about an initial partition, Members and Building about the
--                 graph edge by edge, the other modules about the counts of edges and vertices.
--   Supervisor/   supervisor: Signal (signal/supervisorStopModule.go), Loading (data2tx), Sending
--                 (txSending) and Committee (committee/committee_clpa.go), whose Sound, Serving and
--                 History are about all that can happen to a committee; Measures has two measures of
--                 supervisor/measure, and its Agreement says that they count alike.
--   Tests/        concrete encodings and values, and the theorems at them.
--
-- How the code is rendered. A struct is a record of the fields that the modelled code uses, a method a
-- function from the state to the new state. A panic, log.Panic and a fatal error of the runtime are
-- the result `panic`. A map is an association list; where the code ranges over a map, the theorems
-- hold for every order of the entries. Goroutines that take one lock after the other are a list in the
-- order in which they take it. A lock that outlives a handler is a field, and a wait that never ends is
-- a result of its own. Time is a number of ticks, read from an argument. Machine integers keep their
-- wrap-around where the code can reach it: heights and sequence numbers are modulo 2^64, epochs modulo
-- 2^32, `int` of a uint64 is negative from 2^63 on. Amounts are big.Int, so integers.
--
-- Parameters are what is not in the repository, or copied from elsewhere: the trie (a copy of
-- go-ethereum's, in package trie), gob, SHA-256, the bitset, the bolt database, the network. The laws
-- asked of them are that what was written is read, that a trie has nodes to commit once a write has changed
-- it, that what was encoded decodes, and that a new bitset is empty and setting a bit sets that one. The
-- commit of a trie without nodes is a panic, as in the code.
--
-- The order in which a range over the vertices of the graph visits them is an argument, one for each
-- iteration, and float64 is a parameter of which no law is asked.
--
-- Fuel: the walk down the chain in JudgeForkValid_RollBack has fuel for two rounds more than the height
-- of the chain, and its theorem shows that this is enough on every linked chain. All other loops are
-- structural.
--
-- Not modelled: the network, logs, CSV files, command-line start-up and reports; the trie itself; the
-- modules of PBFT for brokers, the consistent hash ring with its migration, the broker committees, and
-- of the measures the latencies, the number of transactions and the quotients that are put out; of
-- package chain the variant with a trie on disk, the genesis block and TxOnChainVerify,
-- which answers a client: the modelled nodes are those with which no client waits.
pub mod Prelude
pub mod Utils
pub mod Message
pub mod Core
pub mod Storage
pub mod Accounts
pub mod Chain
pub mod SubMpt
pub mod Pbft
pub mod Partition
pub mod Supervisor
pub mod Tests
