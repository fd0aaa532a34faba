-- ===== src/Lib.antt =====
-- ESetStore: an erasure-coded storage system (C). A metadata server (ECMeta) places block groups on
-- sets of storage servers and directs recovery, storage servers (ECServer) keep blocks, clients
-- (ECClientLib) write and read them. All talk in text commands over TCP.
-- The parts here: commands come in through message buffers (Message) and are taken apart as text
-- (Text); at its start the metadata server reads its configuration (Config) and its servers (Racks)
-- and places them in groups and sets (Placement); a write makes a file (Files), which takes a block
-- group (Blocks) that is placed on a set, by a worker that takes its jobs from queues
-- (WorkerJobs); a failed server has its sets chosen for recovery (Recovery); a storage server passes
-- disk jobs through queues (Jobs). The two kinds of servers talk in commands (Protocol), and a
-- deletion is done when the storage servers have answered (Servers).
--
-- Base.antt and its children: the shared names, lists over native numbers, memory accesses,
--   strncmp on two texts of the size that it is called with.
-- Text.antt: ECMeta/ecUtils.c and hasSubstr of ECServer/ecUtils.c. Text/Number.antt has the printers
--   and parsers of numbers, Text/Search.antt the searches for markers. A text is the list of its
--   characters. uint64_to_str runs on fuel for 20 digits, which every 64-bit number has room in.
-- Message.antt: ECServer/MessageBuffer.c, the buffers that commands are received in and dumped from.
--   The state is the record MessageBuffer; each dump function returns the size and the new state.
--   Message/MetaBuffer.antt is the dumpMsgWithCh of ECMeta/MessageBuffer.c, which the metadata
--   server calls.
-- Placement.antt: ECMeta/ESetPlacement.c. Placement/ESet.antt makes the sets of a group,
--   Placement/Group.antt fills the groups with servers, Placement/Manager.antt has the manager's
--   state and calls. A two-dimensional array is a function of its indices; memory that is not
--   written yet has any contents. The loop that fills a row runs on fuel of one round for each
--   column, since each round fills a column or more.
-- Recovery.antt: ECMeta/ECRecoveryManagement.c. Recovery/Failed.antt is addFailedESets with what it
--   calls, Recovery/Pending.antt addPendingRecoveryESets with the pending list as its values,
--   Recovery/Nodes.antt the choice of the nodes that take part, Recovery/Rounds.antt
--   recoverESet, which answers each report of a head node with the next block group; that the head
--   node reports each block group that it is sent is an assumption of Recovery/Ends.antt, written as
--   its rounds. A pointer to a set is its index, the block groups are a store by address.
-- Blocks.antt: ECMeta/BlockSlab.c (Blocks/Slab.antt) and ECMeta/BlockManagement.c
--   (Blocks/Groups.antt). Requests and returns by the threads are a step relation
--   (Blocks/Unique.antt); an address is a number, realloc is a parameter.
-- Jobs.antt: ECServer/DiskJobQueue.c. The jobs are a store by address, with NULL as `none`.
-- Files.antt: ECMeta/KeyValueEngine.c. Files/Item.antt has the chains of items, which are a store by
--   address. The loop over a chain runs on fuel, more of it than the chain has items; a block group
--   is known by its id in place of its address. itemIncreFileSize and revokeItem are not modelled.
-- WorkerJobs.antt: ECMeta/ECJob.c and the loop of startWorker in ECMeta/KeyValueWorker.c that takes
--   over the pending jobs, on fuel of one round for each job and one more.
-- Coding.antt: ECServer/GCRSMatrix.c, the erasure code (ECClientLib has a copy). Coding/Invert.antt is
--   gcrs_invert_bitmatrix, Coding/Decode.antt and Coding/Vector.antt what makes the decoding matrix. A
--   matrix of bits is a function of its indices. What a device stores is written in Coding/Restore.antt.
-- Protocol.antt: the commands between the metadata server and the storage servers, which
--   Protocol/Commands.antt (ECMeta/ECBlockServerCmd.c, ECServer/metaBlockServerCommand.c,
--   processDeleteFile of ECServer/ECMetaServerHandle.c) and Protocol/Replies.antt
--   (ECMeta/metaServerBlockServerProtocol.c, ECMeta/BlockServersManagement.c) have the functions
--   of. A message is its characters with the NUL; deleteFile is a parameter. processServerCmd runs
--   on fuel of one round for each message and one more.
-- Servers.antt: the deletion jobs of ECMeta/BlockServer.c, from performDeleteBlocksJob to the last
--   reply. The jobs are WorkerJobs' store with their other fields as functions of the address,
--   which is also what the in-process queue is a list of; the number of a job's blocks does not
--   wrap. Servers/Outbox.antt is addWriteMsgToBlockserver, on fuel of one round for each byte and
--   one more.
-- Racks.antt: ECMeta/rackMap.c. The file of the servers is read line by line, on fuel of one round
--   for each of its characters.
-- Config.antt: ECMeta/cfgParser.c and ECMeta/configProperties.c. The loader goes over the characters
--   of the file with a mode for where in a line it is.
--
-- An access outside its memory is `none`; only addFailedESets' flag of a node is left out where the
-- set has no such node. An int is its pattern below 2 ^ 32, a uint64_t or size_t its value below
-- 2 ^ 64; the counters of placement and recovery are small and do not wrap, and the int that runs
-- over a message or a matrix has no bound.
-- Not modelled: sockets, epoll, threads and locks, floating-point times, output; the copies of
-- Jerasure (jerasure.c, galois.c, cauchy.c), of Bob Jenkins' hash and of IOR; the programs that
-- drive experiments.
pub mod Base
pub mod Text
pub mod Message
pub mod Placement
pub mod Recovery
pub mod Coding
pub mod Config
pub mod Blocks
pub mod Jobs
pub mod Protocol
pub mod Racks
pub mod Files
pub mod WorkerJobs
pub mod Servers
