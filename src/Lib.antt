-- ===== src/Lib.antt =====
-- Fragmenta (FragDB), a Go library that keeps fragments of data with their metadata in one
-- container file, encodes values as type-length-value items, finds fragments by tags and words,
-- and decides who may access what.
--
-- The parts, and the files that model them:
--   Tlv: tlv.go. Tlv/Wire has the items (EncodeTLV, DecodeTLV and their headers), Tlv/Values the
--   values: Encode has EncodeTLVInt to EncodeTLVMap, Decode has DecodeTLVValue, DecodeTLVArray and
--   DecodeTLVMap. A reader is the list of the bytes left. A Go value is a data type with a case for
--   each type of the source's switch; a float is its bit pattern, and the three conversions of
--   floats are the fields of a parameter.
--   Access: security/acl.go (Access/Acl) and security/rbac.go (Access/Rbac, and Access/Control for
--   AccessControlManager, which asks the list first and then the roles). A manager's methods are
--   functions on a record of its state; `time.Now()` is an argument.
--   Store: the container file. Store/Disk is the io.ReadWriteSeeker below, a list of bytes and a
--   position. Store/Header has the header (format.go, with FragmentaHeader of structs.go and the
--   numbers of types.go), Store/Metadata the metadata manager (metadata.go), with its batches in
--   Store/Metadata/Batch and its queries in Store/Metadata/Query. The manager shares the header
--   with the file: its Flush stores the size of the metadata there, and its load reads it.
--   Store/Block has the block manager (block.go), with its search in the file in
--   Store/Block/Reading, and Store/Container the operations of format.go, which join the three.
--   Index: index/index.go with the types of index/types.go. Index/Tree is the tree of ids by their
--   decimal digits, Index/Manager the manager that keeps lists and trees, with its batches in
--   Index/Manager/Batch and its searches by ranges and conditions in Index/Manager/Query.
--   Index/Inverted is the full-text index (index/inverted_index.go, with types of
--   index/fulltext.go); its tokenizer is an argument. Index/Query is the query executor
--   (index/query.go): Match compares values, Evaluate has evaluateCondition and Execute, Parse has
--   ParseQueryString. The index manager and the metadata that the executor asks are a record of
--   answers; regular expressions and the conversions of the standard library are parameters.
--   Index/Cache is the cache of plans and results (index/query_cache.go), with the addresses of
--   its list's elements.
--   Base: results, lists, byte orders, machine integers and maps for all of them.
-- The modules below a component prove what their names say; the modules Runs hold concrete runs.
--
-- A Go map is an association list whose order stands for the order of a `range` loop; the executor of
-- queries, which may range over one map several times, has an order for each call. A 64-bit length
-- that `make` cannot allocate makes DecodeTLV panic: the limit is the argument `max_alloc`. A slice out
-- of range that makes ParseQueryString panic is a result of its own, apart from its errors.
--
-- Fuel: decoding a value of n bytes has n + 10 units, since each level of nesting and each round of
-- a loop takes bytes away; collectRoles has one unit more than there are roles, since it goes into
-- no role twice; an id's decimal has one unit more than the id, and reads back as the id;
-- a condition that is parsed has one unit more than it has bytes, since each part that is parsed in turn is
-- shorter.
--
-- Not modelled: locks and goroutines, beyond a call that waits for a lock that it holds itself, logging,
-- failures of the operating system, slices and entries that a caller changes after handing them over,
-- storage, config and fuse, the planner of queries and the optimised index, and the ciphers, keys
-- and signatures of security.
pub mod Base
pub mod Tlv
pub mod Access
pub mod Store
pub mod Index
