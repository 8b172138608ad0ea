-- ===== src/Cache/Types.antt =====
-- The data of internal/cache/range.go: keys, blocks, shards, the counters, and the hash that picks
-- a shard. Offsets and sizes are non-negative int64 values; `start` wraps in `uint32(start)` only.
use Prim.Native.Nat.{bit_xor}
use torbox_fuse_go.Base.{
  ℕ, ◌*◌, ◌%◌, ◌^◌, ◌<◌, ◌≡◌, refl, Option, List, [], ◌∷◌, arith, ℕ_discrete, Str, Str-discrete,
  str, ℤ, pos, length, replicate,
}

abbrev pub num_shards : ℕ
num_shards = 32

pub record CacheKey : Type 0 where
  pub file_key : Str
  pub start : ℕ

unfoldable pub CacheKey-discrete : Discrete CacheKey
unfolding Str-discrete ℕ_discrete
CacheKey-discrete = hlevel ℕ_discrete

abbrev pub priority_low : ℕ
priority_low = 0

abbrev pub priority_high : ℕ
priority_high = 1

pub record BlockInfo : Type 0 where
  pub start : ℕ
  pub end : ℕ
  pub priority : ℕ

-- `bytes` is the field `data`, and `last_access` the value that the atomic field holds.
pub record RangeBlock : Type 0 where
  pub start : ℕ
  pub end : ℕ
  pub bytes : List ℕ
  pub session_id : ℤ
  pub priority : ℕ
  pub last_access : ℕ

abbrev pub size : RangeBlock → ℕ
size blk = length blk.bytes

abbrev pub Shard : Type 0
Shard = List (CacheKey × RangeBlock)

-- The counters of metrics.Metrics that the cache writes.
pub record CacheMetrics : Type 0 where
  pub bytes_total : ℤ
  pub bytes_active : ℤ
  pub bytes_stale : ℤ
  pub entries : ℤ

-- `used`, and the metrics if there are any: all that the operations change outside the shards.
pub record Counters : Type 0 where
  pub used : ℤ
  pub metrics : Option CacheMetrics

pub record RangeCache : Type 0 where
  pub shards : List Shard
  pub budget : ℤ
  pub counters : Counters
  pub open counters use *

unfoldable pub new_range_cache : ℤ → Option CacheMetrics → RangeCache
new_range_cache budget m = record {
  shards = replicate num_shards [];
  budget = budget;
  counters = record { used = pos 0; metrics = m };
}

-- hash/fnv's New32 over the bytes of the key: multiply by the prime, then xor the byte.
unfoldable pub fnv32_from : ℕ → Str → ℕ
fnv32_from h [] = h
fnv32_from h (c ∷ s) = fnv32_from (bit_xor (h * 16777619 % 2 ^ 32) c) s

unfoldable pub shard_index : Str → ℕ → ℕ
unfolding fnv32_from
shard_index file_key start = bit_xor (fnv32_from 2166136261 file_key) (start % 2 ^ 32) % num_shards

pub shard_index-lt : (file_key : Str) (start : ℕ) → shard_index file_key start < num_shards
unfolding shard_index
shard_index-lt file_key start = omega arith

-- Of the empty key the hash is the offset basis, and of "a" the published value 0x050c5d7e.
fnv32_runs : fnv32_from 2166136261 (str "a") ≡ 0x050c5d7e
unfolding fnv32_from
fnv32_runs = refl
