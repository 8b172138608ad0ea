-- ===== src/Cache/Invariant.antt =====
-- The well-formedness of a RangeCache, and the lemmas by which each operation keeps it.
use torbox_fuse_go.Base.{
  ℕ, zero, suc, ◌+◌, ◌<◌, ◌≡◌, refl, Option, none, some, List, [], ◌∷◌, arith, ℤ, pos, ◌+ℤ◌, ◌-ℤ◌,
  int_laws, length, set, sum_of, sum_of-set, get_or-le-sum_of, All, lookup, insert, delete,
  Distinct, Distinct-insert, Distinct-delete, All-insert, All-delete, weight, weight_at,
  weight-insert,
}
use torbox_fuse_go.Cache.Types.{
  CacheKey, CacheKey-discrete, RangeBlock, Shard, CacheMetrics, RangeCache, num_shards, shard_index,
  shard_index-lt, size,
}
use torbox_fuse_go.Cache.Ops.{shard_at, count_old, count_overwritten, count_inserted, insert_block}
use torbox_fuse_go.Cache.Evict.{store}

-- The bytes of all blocks.
abbrev pub shard_bytes : Shard → ℕ
shard_bytes = weight size

abbrev pub shard_of : RangeCache → CacheKey → Shard
shard_of c key = shard_at c.shards (shard_index key.file_key key.start)

abbrev pub total : List Shard → ℕ
total = sum_of shard_bytes

-- A block stands in the shard of its key, and its offsets agree with its bytes, of which it has some.
pub record EntryOk (i : ℕ) (e : CacheKey × RangeBlock) : Type 0 where
  pub placed : shard_index e.0.file_key e.0.start ≡ i
  pub starts : e.1.start ≡ e.0.start
  pub ends : e.1.end ≡ e.1.start + size e.1
  pub filled : 0 < size e.1

pub record ShardOk (i : ℕ) (sh : Shard) : Type 0 where
  pub entries : All (EntryOk i) sh
  pub distinct : Distinct sh

abbrev pub ShardsOk : ℕ → List Shard → Type 0
ShardsOk i [] = Unit
ShardsOk i (sh ∷ shards) = ShardOk i sh × ShardsOk (suc i) shards

pub record IsValid (c : RangeCache) : Type 0 where
  pub sharded : length c.shards ≡ num_shards
  pub accounted : c.used ≡ pos (total c.shards)
  pub shards_ok : ShardsOk 0 c.shards

-- The gauges of the cache, where it has a collector: they follow the blocks, and the total still
-- holds what EvictStale has freed.
abbrev pub Measures : Option CacheMetrics → ℤ → ℕ → Type 0
Measures none used count = Unit
Measures (some m) used count =
    (m.bytes_active ≡ used)
    × (m.entries ≡ pos count)
    × (m.bytes_total ≡ m.bytes_active +ℤ m.bytes_stale)

pub ShardsOk-at :
    (j i k : ℕ) (shards : List Shard)
    → j + i ≡ k
    → ShardsOk j shards
    → ShardOk k (shard_at shards i)
ShardsOk-at j i k [] e h = record { entries = tt; distinct = tt }
ShardsOk-at j zero k (sh ∷ shards) e h = let e' : j ≡ k = omega arith in rw (← e') h.0
ShardsOk-at j (suc i) k (sh ∷ shards) e h = ShardsOk-at (suc j) i k shards (omega arith) h.1

pub ShardsOk-set :
    (j i k : ℕ) (shards : List Shard) (sh' : Shard)
    → j + i ≡ k
    → ShardsOk j shards
    → ShardOk k sh'
    → ShardsOk j (set shards i sh')
ShardsOk-set j i k [] sh' e h g = tt
ShardsOk-set j zero k (sh ∷ shards) sh' e h g = let e' : j ≡ k = omega arith in (rw e' g, h.1)
ShardsOk-set j (suc i) k (sh ∷ shards) sh' e h g =
    (h.0, ShardsOk-set (suc j) i k shards sh' (omega arith) h.1 g)

pub ShardOk-insert :
    (i : ℕ) (key : CacheKey) (blk : RangeBlock) (sh : Shard)
    → EntryOk i (key, blk)
    → ShardOk i sh
    → ShardOk i (insert CacheKey-discrete key blk sh)
ShardOk-insert i key blk sh e h = record {
  entries = All-insert CacheKey-discrete (EntryOk i) key blk sh e h.entries;
  distinct = Distinct-insert CacheKey-discrete key blk sh h.distinct;
}

pub ShardOk-delete :
    (i : ℕ) (key : CacheKey) (sh : Shard)
    → ShardOk i sh
    → ShardOk i (delete CacheKey-discrete key sh)
ShardOk-delete i key sh h = record {
  entries = All-delete CacheKey-discrete (EntryOk i) key sh h.entries;
  distinct = Distinct-delete CacheKey-discrete key sh h.distinct;
}

pub insert_block-used :
    (c : RangeCache) (key : CacheKey) (blk : RangeBlock)
    → (insert_block c key blk).used
      ≡ c.used -ℤ pos (weight_at size (lookup CacheKey-discrete key (shard_of c key)))
unfolding insert_block count_overwritten
insert_block-used c key blk = go (lookup CacheKey-discrete key (shard_of c key))
  where
    go : (o : Option RangeBlock) → (count_old o c.counters).used ≡ c.used -ℤ pos (weight_at size o)
    go none = omega int_laws
    go (some old) = refl

-- Storing a block keeps the count of bytes, whatever was there before.
pub store-accounted :
    (c : RangeCache) (key : CacheKey) (blk : RangeBlock)
    → length c.shards ≡ num_shards
    → c.used ≡ pos (total c.shards)
    → (store c key blk).used ≡ pos (total (store c key blk).shards)
unfolding store insert_block count_inserted count_overwritten
store-accounted c key blk n e =
    let i = shard_index key.file_key key.start in
    let sh = shard_of c key in
    let bound : i < length c.shards = omega (arith, shard_index-lt key.file_key key.start) in
    let moved = sum_of-set shard_bytes c.shards i (insert CacheKey-discrete key blk sh) [] bound in
    let here = weight-insert CacheKey-discrete size key blk sh in
    let held = get_or-le-sum_of shard_bytes c.shards i [] refl in
    rw (insert_block-used c key blk, e) (omega int_laws)
