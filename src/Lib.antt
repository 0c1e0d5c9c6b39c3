-- ===== src/Lib.antt =====
-- A verification library of the K3 engine, which runs a mixture-of-experts model from disk: the
-- routed experts are read from a checkpoint on demand and kept in a cache of fixed slots.
--
-- Parts of the program, and where they are modelled:
--
--   src/cache/k3_cache.c   The expert cache. Cache/State has the structure (`K3Cache`), Cache/Victim
--                          the victim scan (`pick_victim`), Cache/Admit the loading path (`admit`,
--                          `fill_q`), Cache/Batch the batch path (`cache_getmany`, serial), Cache/Api
--                          the entry points (`cache_get`, `cache_resident`, `k3_cache_prefetch`,
--                          `k3_cache_pin`, `k3_cache_reset_stats`), Cache/Init
--                          `k3_cache_init`, Cache/Profile `k3_cache_load_profile` and
--                          `k3_cache_check_profile` with the profile's text format. Cache/Pipe has
--                          the pipelined batch: the functions under the mutex, and in
--                          Cache/Pipe/System the threads as a step relation.
--   src/io/k3_load.c       Where an expert lies in the checkpoint: Load/Geometry has `K3ExpertRef`,
--                          Load/Reference `k3_expert_ref`, Load/Bytes `k3_expert_load` and
--                          `k3_expert_load_direct`.
--   src/io/k3_st.c         The checkpoint's headers, index and reads. Header has the JSON scanner and
--                          `scan_shard`, Header/Print the format that it reads. Index has the bucket table (`fnv1a`,
--                          `k3_st_open` from the scan of the shards on, `k3_st_find`), Read has
--                          `k3_st_read` and `k3_st_read_aligned` on all of their paths.
--   include/k3/k3_cfg.h    The configuration, in Config: `k3_cfg_load` over both shapes of the file.
--   src/model/k3_bind.c    The weights of a layer and of the model, in Bind: what is asked for
--                          (Bind/Requests), where it lies in the blob, and what is loaded; in Bind/Memory
--                          `k3_bind_layer_mem`, which binds a layer to a packed run in memory, and in Bind/Rows the
--                          matrices of the model that are read in chunks of rows.
--
-- The cache asks the loader for the geometry of an expert (`k3_expert_ref`, the parameter `find`) and
-- for its bytes (`k3_expert_load_direct`, the parameter `load`, one function for each call of an
-- operation, so that any read may fail). Of `load` the theorems assume what its documentation says
-- (`IsSound`): where it reports the size of the expert, the slot holds the expert from the reported
-- offset on. What "holds" means is a parameter (`Complete`).
--
-- Load/Bytes/Sound fills that promise for the loader of this repository, and Engine puts the three
-- layers together: the cache over `k3_expert_ref` and `k3_expert_load_direct`, over the reads.
-- `k3_st_find` of a formatted tensor name is there a function of layer, expert, matrix and part.
--
-- Of the threads of a pipelined batch a step is what one of them does while it holds the mutex, or a
-- whole read; a batch may be launched whenever the workers of the one before have been joined. Waiting
-- on the condition variable is the absence of a step of the calling thread, which looks again after each
-- step of a worker, as the broadcast makes it. Thread creation is outside:
-- a launch starts any positive number of threads, or none and falls back to the calling thread.
--
-- Conventions. A C array is a function from its index; its size is a field, and the invariant
-- `IsValid` keeps each index that is used inside it. A text is the list of its bytes from the reading position on, and a `char` is signed. `-1` is `none`; `key_of[]` has its three states
-- as constructors. `uint64_t` counters wrap at 2 ^ 64 and `uint32_t` ones at 2 ^ 32; an `int` argument
-- is an integer of either sign, and a product of layer and expert, which the program keeps within
-- `int32_t`, is exact. `pad` is below 4096, so its cast to `int32_t` is the identity. The arithmetic of a header is that of `int64_t`, which wraps around
-- at 2 ^ 64 (Prelude/Int64); a bucket table is for fewer than 2 ^ 30 tensors, so that its count is an `int`. Loops recur on
-- their list or on the rounds left. Two kinds need fuel: a probe of the bucket table gets as many
-- rounds as there are buckets and the loop that doubles `nbucket` as many as there are tensors
-- (Index/Probe: neither runs out), the loops over a header get a round for each
-- character (Header/Fuel: more change nothing), a loop around `pread` gets a round for each byte (Read/Loop:
-- it stops by itself within them), and the projection by chunks gets one for each row, of which a
-- chunk has at least one (Bind/Rows/Laws: all rows are done).
--
-- Reads rely on `IsMedia`: `pread`, `k3_zread` and `k3_remote_read` give no more than was asked for,
-- and the bytes of the shard. The three are parameters. A slot of the cache
-- is a buffer of its own, and no read writes behind the size that it is given. So is the JSON tree
-- of a configuration, with `json_get` and the casts of a number. A tensor's extent is natural; the reads
-- refuse a negative one, and their guards are in the model.
--
-- Not modelled: `load_seconds` and all other clocks, the messages on stderr, and the files that the
-- reports are written to.
pub mod Prelude
pub mod Index
pub mod Header
pub mod Read
pub mod Load
pub mod Cache
pub mod Config
pub mod Bind
pub mod Engine
