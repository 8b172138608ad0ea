-- ===== src/Cache/Ops.antt =====
-- The operations of RangeCache in internal/cache/range.go. Each runs with its locks held, one after
-- the other; `now` is the reading of `nowNano` that the operation makes.
use torbox_fuse_go.Base.{
  ℕ, ◌-◌, Bool, true, false, ◌&&◌, Option, none, some, List, [], ◌∷◌, ◌++◌, Str, str_eq, ℤ, pos,
  ◌+ℤ◌, ◌-ℤ◌, leb_ℤ, if◌then◌else◌, length, set, take, drop, get_or, min, ltb, leb, lookup, insert,
}
use torbox_fuse_go.Cache.Types.{
  CacheKey, CacheKey-discrete, RangeBlock, Shard, CacheMetrics, Counters, RangeCache, shard_index,
  size,
}

-- `if rc.m != nil { … }`
abbrev on_metrics : (CacheMetrics → CacheMetrics) → Counters → Counters
on_metrics f c = record c { metrics = elim c.metrics [ none ↦ none | some m ↦ some (f m) ] }

abbrev pub shard_at : List Shard → ℕ → Shard
shard_at shards i = get_or shards i []

-- The block of the shard that covers the offset, and the shard with the access time stored in it.
unfoldable pub covers : Str → ℕ → CacheKey × RangeBlock → Bool
covers file_key off (key, blk) =
    str_eq key.file_key file_key && leb blk.start off && ltb off blk.end

unfoldable pub touch_shard : Str → ℕ → ℕ → Shard → Option (RangeBlock × Shard)
touch_shard file_key off now [] = none
touch_shard file_key off now ((key, blk) ∷ sh) =
    let rest = touch_shard file_key off now sh in
    if covers file_key off (key, blk)
    then some (blk, (key, record blk { last_access = now }) ∷ sh)
    else elim rest [ none ↦ none | some (hit, sh') ↦ some (hit, (key, blk) ∷ sh') ]

unfoldable pub touch_shards : Str → ℕ → ℕ → List Shard → Option (RangeBlock × List Shard)
touch_shards file_key off now [] = none
touch_shards file_key off now (sh ∷ shards) =
    let rest = touch_shards file_key off now shards in
    elim (touch_shard file_key off now sh) [
      | some (hit, sh') ↦ some (hit, sh' ∷ shards)
      | none ↦ elim rest [ none ↦ none | some (hit, shards') ↦ some (hit, sh ∷ shards') ]
    ]

-- The destination after the call, and the two results.
pub record CopyResult : Type 0 where
  pub dst : List ℕ
  pub n : ℕ
  pub hit : Bool

-- `copy(dst, src)`
unfoldable pub copy : List ℕ → List ℕ → List ℕ × ℕ
copy dst src = let n = min (length dst) (length src) in (take n src ++ drop n dst, n)

-- The two ends of the search: `return n, true` inside the loop, and `return 0, false` behind it.
unfoldable pub finish_copy :
    RangeCache → ℕ → List ℕ → Option (RangeBlock × List Shard) → RangeCache × CopyResult
finish_copy c off dst none = (c, record { dst = dst; n = 0; hit = false })
finish_copy c off dst (some (blk, shards')) =
    let (dst', n) = copy dst (drop (off - blk.start) blk.bytes) in
    (record c { shards = shards' }, record { dst = dst'; n = n; hit = true })

unfoldable pub copy_to : RangeCache → Str → ℕ → List ℕ → ℕ → RangeCache × CopyResult
copy_to c file_key off [] now = (c, record { dst = []; n = 0; hit = false })
copy_to c file_key off (d ∷ ds) now =
    finish_copy c off (d ∷ ds) (touch_shards file_key off now c.shards)

-- `none` stands for `(0, false)`.
unfoldable pub cached_prefix_len : RangeCache → Str → ℕ → Option ℕ
cached_prefix_len c file_key off =
    let key : CacheKey = record { file_key = file_key; start = off } in
    elim (lookup CacheKey-discrete key (shard_at c.shards (shard_index file_key off))) [
      | none ↦ none
      | some blk ↦ some (length blk.bytes)
    ]

-- The size of an overwritten block is taken off the counters.
unfoldable pub count_overwritten : ℕ → Counters → Counters
count_overwritten n c =
    on_metrics
      (λ m. record m {
        bytes_total = m.bytes_total -ℤ pos n;
        bytes_active = m.bytes_active -ℤ pos n;
        entries = m.entries -ℤ pos 1;
      })
      (record c { used = c.used -ℤ pos n })

-- `if old, ok := sh.blocks[key]; ok { … }`
abbrev pub count_old : Option RangeBlock → Counters → Counters
count_old none c = c
count_old (some old) c = count_overwritten (size old) c

unfoldable pub count_inserted : ℕ → Counters → Counters
count_inserted n c =
    on_metrics
      (λ m. record m {
        bytes_total = m.bytes_total +ℤ pos n;
        bytes_active = m.bytes_active +ℤ pos n;
        entries = m.entries +ℤ pos 1;
      })
      (record c { used = c.used +ℤ pos n })

-- `current := rc.used.Load()`, and the subtraction that never goes below zero.
abbrev pub drop_used : ℕ → ℤ → ℤ
drop_used n current = if leb_ℤ (pos n) current then current -ℤ pos n else pos 0

unfoldable pub count_evicted : ℕ → Counters → Counters
count_evicted n c =
    on_metrics
      (λ m. record m {
        bytes_total = m.bytes_total -ℤ pos n;
        bytes_active = m.bytes_active -ℤ pos n;
        entries = m.entries -ℤ pos 1;
      })
      (record c { used = drop_used n c.used })

unfoldable pub count_stale : ℕ → Counters → Counters
count_stale n c =
    on_metrics
      (λ m. record m {
        bytes_stale = m.bytes_stale +ℤ pos n;
        bytes_active = m.bytes_active -ℤ pos n;
        entries = m.entries -ℤ pos 1;
      })
      (record c { used = drop_used n c.used })

-- The critical section of putBlock: the block goes into the map of its shard.
unfoldable pub insert_block : RangeCache → CacheKey → RangeBlock → RangeCache
insert_block c key blk =
    let i = shard_index key.file_key key.start in
    let sh = shard_at c.shards i in
    record c {
      shards = set c.shards i (insert CacheKey-discrete key blk sh);
      counters = count_old (lookup CacheKey-discrete key sh) c.counters;
    }
