-- ===== src/Cba.antt =====
-- The content store of cba/: paths of hashes (store.go, misc.go), the transfer of files in chunks
-- (client.go, net.go, hashwriter.go), fetches that several callers share (client.go), the splicing
-- server (spliceserver.go) and the cache of lrucache.go.
pub mod HashPath
pub mod Fetch
pub mod Lru
pub mod Once
pub mod Splice
