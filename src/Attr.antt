-- ===== src/Attr.antt =====
-- File attributes, attr/: the records and their encoding (fileattr.go), the order in which changes
-- are replayed (fileset.go), the cache (attrcache.go), its clients, and the hand-over of results
-- between tasks (filesetwaiter.go).
pub mod FileAttr
pub mod FileSet
pub mod Cache
pub mod Clients
pub mod Waiter
pub mod RpcFs
