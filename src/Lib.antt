-- ===== src/Lib.antt =====
-- zbackup, a deduplicating backup program. The input is cut at chunks that are already known, found by
-- a rolling hash; new chunks are collected in bundles; the backup is a list of instructions.
--
-- Parts, with the files of the repository that they model:
--   RollingHash    rolling_hash.hh, rolling_hash.cc: the hash of a window, modulo 2^64.
--   ChunkId        chunk_id.hh, chunk_id.cc: the id of a chunk and its blob.
--   ChunkIndex     chunk_index.hh, chunk_index.cc: the in-memory index, a hash table of chains.
--   Bundle         bundle.hh, bundle.cc: `Creator::addChunk`, the map that the reader fills, `get`.
--   ChunkStorage   chunk_storage.hh, chunk_storage.cc and `moveOverTo` of tmp_mgr.cc: the `Writer`,
--                  which fills bundles and commits them; ChunkStorage.Reader the `Reader` with its cache of bundles.
--   BackupCreator  backup_creator.hh, backup_creator.cc: from input bytes to instructions.
--   Backup         zutils.cc: `backupFromFileHandle`, the reading and the shrinking loop.
--   BackupRestorer backup_restorer.hh, backup_restorer.cc and `restoreToStdin` of zutils.cc: back to bytes.
--                  Its children: ToFile is `restoreMap` with `restoreToFile` of zutils.cc, Indexed is
--                  `IndexedRestorer`.
--   ObjectCache    objectcache.hh, objectcache.cc: the cache of the bundle readers, least recently used first out.
--   Encryption     encryption.hh, encryption.cc: cipher block chaining, and padding.
--   EncryptedFile  encrypted_file.hh, encrypted_file.cc, adler32.hh: the two streams and their checksum.
--   BackupCollector backup_collector.hh, backup_collector.cc: garbage collection of bundles.
--   AppendAllocator appendallocator.hh, appendallocator.cc: memory in blocks.
--   Base           the shared names, bytes, machine words and signed integers.
-- The creator asks the index that the storage writer holds for chunks and hands new ones to the writer;
-- the writer registers them in the index and fills the current bundle. `Backup` feeds one creator with
-- the file, and further ones with the serialized instructions until these stop getting shorter.
--
-- Operations keep the names of the code in snake case, and fields those of the members. A function of
-- the code that changes an object is a function from state to state. A loop of the code that is not
-- structural takes fuel: `handle_loop` as many units as bytes were added, since each round takes one
-- byte at least; `copy_loop` and `read_loop` one more than there are bytes, since the buffer is never
-- full; `shrink` one more than the data are long, since each round shortens them; the loops of a
-- stream's `write`, `read` and `Skip` as many units as bytes, since each `Next` gives one at least.
--
-- Numbers are natural numbers. The wrap-around of `uint64_t` and `uint32_t` is written out where a
-- result may pass the width. Bytes are numbers; a `char` is its value as `unsigned char`. A pointer into
-- the ring buffer is its offset from `begin`. A failed CHECK, which ends the program, sets a flag, and in
-- a stream is an error.
--
-- Parameters: `sha1` and `sha256` are OpenSSL's, `random` gives the values of `Random::generatePseudo`,
-- `serialize` and `parse` write and read the stream of protobuf messages, the page size is the
-- system's. A file is its bytes and whether reading ends in an error. A chunk size and a payload size
-- come from the configuration. `aes_encrypt` and `aes_decrypt` are OpenSSL's AES
-- under one key, `adler32` is zlib's, `malloc` tells which calls succeed. For a stream `room` is how many
-- bytes of its file the file system takes, and `readable` tells at which offsets it can be read. The
-- storage's reader and the collector have `read_bundle`, what the `Bundle::Reader` of a bundle holds;
-- the restorer takes the storage's reader as the two functions that it calls, and `isatty` is a flag. `order` is the order in
-- which a hash map lists its entries.
--
-- Not modelled: compression, the file formats on the streams, the compressor threads (a finished bundle
-- is written at once), the index files' contents on disk beyond their records, the walk over the
-- repository around the collector, the encryption key, the configuration and the command line, which
-- are calls of other libraries for the most part or options. A bundle and its file are one value here,
-- so what a commit moves is the bundle itself. A move throws where the name is taken, as in the code;
-- other failures of a rename are not modelled. `fetch` of ChunkStorage.Stock reads a chunk from all
-- bundles of the directory, as an index that was loaded from their index files finds it; the index in
-- memory may name another bundle until then.
pub mod Base
pub mod RollingHash
pub mod ChunkId
pub mod ChunkIndex
pub mod Bundle
pub mod ChunkStorage
pub mod BackupCreator
pub mod AppendAllocator
pub mod Backup
pub mod BackupRestorer
pub mod BackupCollector
pub mod ObjectCache
pub mod EncryptedFile
pub mod Encryption
