-- ===== src/Lib.antt =====
-- Termite: a distributed compilation system. A master hands the commands of a build to workers; each
-- worker runs them in file systems that show the files of the master, and sends back what changed.
--
-- The parts, with the files of the repository and the modules here:
--
-- * attr/, the attributes of files. A master keeps them in an `AttributeCache` (attr/attrcache.go,
--   Attr/Cache): `update` replays changes, `Get` answers from the cache or asks a getter, `verify` looks
--   for what should not be in it, and `Refresh` for what has changed. Each
--   worker is a client of the cache, with a queue (Attr/Clients): `Queue` appends to it, `Send`
--   empties it.
--   attr/fileattr.go is Attr/FileAttr, with the encoding of an extended attribute in
--   Attr/FileAttr/Encoded; attr/fileset.go, the order in which changes are replayed, is Attr/FileSet.
--   When several tasks of a worker share a file system, the files of all come back with one of them,
--   and the others wait: attr/filesetwaiter.go, Attr/Waiter. What a worker's file system answers
--   (termite/rpcfs.go) is Attr/RpcFs.
-- * cba/, the contents of files, stored under their hashes: the paths of hashes and the database of
--   what is there (cba/store.go, cba/misc.go) are Cba/HashPath; the transfer of a file from another
--   store in chunks (cba/client.go, cba/net.go) is Cba/Fetch, and `FetchOnce`, which several callers
--   share, is Cba/Once; the server that reads a file once for all its chunks (cba/spliceserver.go) is
--   Cba/Splice; cba/lrucache.go is Cba/Lru.
-- * The spreading of jobs. termite/mirrorconnection.go, the choice of a worker by the master, is
--   Sched/Jobs; termite/mirrors.go, the jobs that a worker grants, is Sched/Reserve; termite/mirror.go,
--   the file systems in which they run, is Sched/Fses; termite/coordinator.go, the register of workers,
--   is Sched/Coordinator.
-- * The master (termite/master.go). Master/Run is `run` with its retries, over the connections of
--   Sched/Jobs; Master/Replay is `replay` and `replayFileModifications`, which bring the files of a
--   result to the master's disk, with the calls of package os in Master/Disk; Master/Fetching fetches
--   what a replay needs (termite/mirrorconnection.go); Master/Expose is `uncachedGetAttr`, what the
--   master shows of its own files, and `CheckPrivate`. Master/Commands is termite/masterrun.go: the
--   commands that the master runs itself, whose files it replays as those of a result.
-- * fs/memunionfs.go, the file system in which a worker runs a task, over one that is only read: Union
--   is its nodes and the operations on names, Union/Op makes them one kind of step, Union/Names has the
--   map of names that they change; Union/Rename is `Rename`, Union/Files the open files, Union/Reap is
--   `Reap` and Union/Reset `Reset`.
-- * The worker. Worker/Reply takes what `Reap` left into the worker's store and fills the reply of a
--   task (`reap` of termite/fuse.go, `fillReply` of termite/task.go, `DestructiveSavePath` of
--   cba/store.go); Worker/Log is `Log` of termite/worker.go, a part of the worker's log file.
-- * termite/connection.go, how connections are authenticated and found, is Net.
-- * Command lines: `ParseCommand` and others of termite/misc.go are Shell/Command, termite/getopt.go is
--   Shell/Getopt. Paths: fastpath/path.go, attr/misc.go and `HasDirPrefix` are Paths. stats/timerpc.go
--   and stats/periodicsampler.go are Stats.
--
-- Base has what they share: texts as lists of bytes, maps as lists of pairs, integers over the native
-- numbers. A map's order stands for the order in which `range` happens to visit it.
--
-- How state is modelled: a struct is a record, an operation a function from state to state, and `none`
-- or a constructor of its own is an error or a panic; the comment above each definition says which. An
-- operation that holds its mutex throughout is one function; one that gives it up, as `Send`,
-- `WaitConnection` and `FetchOnce` do, is several, and where their order matters a step relation runs
-- them in every order.
-- What is not the code's own is a parameter: the hash function, HMAC, the getter of attributes, the
-- remote procedure, whether an address answers, the clock, go-fuse's tree of inodes (Union/Tree), the
-- file system below, and what calls of package os and of a worker answer.
--
-- Fuel: the loop of `fetch` is given rounds, since a server that fills no chunk may keep it going for
-- ever; a round for each full chunk and one more are enough for a server that serves the file.
-- `tryConnect` is given the number of workers, and each round connects to one or removes it.
-- `IntToExponent` and `Values` are given the number itself and the number of slots. `unsafeGet` is
-- given the length of the path and one. `Rename` and `Reset` are given the depth of the tree, and
-- `recurseNames` that of the directories; nothing is said of a run out of it. `Reap` is given more
-- than the depth of the tree of nodes, and more than the directories below a deleted path.
--
-- Not modelled: `Update` of fs/memunionfs.go and of termite/fuse.go; `createMirror` of the master; how
-- a worker makes a task, runs it and ends it (termite/task.go, all but the reply); the rules for local
-- runs; the update of the master's attribute cache behind a replay; aliasing between an update and the
-- cache; and what is input and output, printing, FUSE glue, statistics of the system, and start-up.
pub mod Base
pub mod Paths
pub mod Cba
pub mod Attr
pub mod Sched
pub mod Shell
pub mod Net
pub mod Stats
pub mod Master
pub mod Union
pub mod Worker
