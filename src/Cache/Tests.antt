-- ===== src/Cache/Tests.antt =====
-- Runs of the cache on small inputs, and each property at an input that meets its hypotheses.
use mathlib.Core.List.{Perm, Nodup, Mem, filter, flatten}
use torbox_fuse_go.Base.{
  ℕ, ◌≡◌, ◌↔◌, refl, none, some, List, [], ◌∷◌, map, inl, arith, Str, str, Str-discrete, ℕ_discrete,
  pos, negsuc, ◌+ℤ◌, ◌-ℤ◌, ite, lookup, insert, delete, All,
}
use torbox_fuse_go.Cache.Types.{
  CacheKey, CacheKey-discrete, RangeBlock, RangeCache, new_range_cache, shard_index, priority_low,
  priority_high,
}
use torbox_fuse_go.Cache.Ops.{
  copy_to, finish_copy, copy, touch_shards, touch_shard, covers, cached_prefix_len, insert_block,
  count_inserted, count_overwritten, count_evicted,
}
use torbox_fuse_go.Cache.Evict.{
  candidate, Candidate, choose, scan_shards, scan_shard, consider, store, new_block, put_block,
  evict, evict_loop, evict_one, remove_block, evict_stale,
}
use torbox_fuse_go.Cache.Invariant.{IsValid}
use torbox_fuse_go.Cache.Scan.{Stands, Precedes, candidate-Precedes}
use torbox_fuse_go.Cache.Insertion.{store-IsValid, cached_prefix_len-put_block}
use torbox_fuse_go.Cache.Reads.{ReadResult, copy_to_reads}
use torbox_fuse_go.Cache.Stale.{IsStale, evict_stale-Stands}
use torbox_fuse_go.Cache.History.{
  Call, puts, copies, drops_stale, run, Holds, run-Holds, new-IsValid,
}
use torbox_fuse_go.Cache.Blocks.{IsSorted, file_blocks, info, of_file, file_blocks-IsSorted}
use torbox_fuse_go.Cache.Keys.{all_file_keys, keys_of, all_file_keys_exact}
use torbox_fuse_go.Cache.Divergence.{put_block-negative_budget}

-- What a test by evaluation opens.
program : Unit {0}
unfolding new_range_cache shard_index Str-discrete CacheKey-discrete ℕ_discrete lookup insert delete
    copy_to finish_copy copy touch_shards touch_shard covers cached_prefix_len insert_block
    count_inserted count_overwritten count_evicted candidate choose scan_shards scan_shard consider
    store put_block evict evict_loop evict_one remove_block evict_stale ◌+ℤ◌ ◌-ℤ◌
program = tt

abbrev movie : Str
movie = str "m"

abbrev empty : RangeCache
empty = new_range_cache (pos 6) none

abbrev key : CacheKey
key = record { file_key = movie; start = 8 }

abbrev block : RangeBlock
block = new_block 8 (1 ∷ 2 ∷ 3 ∷ 4 ∷ []) (pos 1) priority_low 5

abbrev one_block : RangeCache
one_block = store empty key block

one_block-IsValid : IsValid one_block
one_block-IsValid = store-IsValid empty key block refl refl (omega arith) (new-IsValid (pos 6) none)

-- Bytes 10 and 11 of the file, and two bytes of the buffer that stay.
copy_to_runs : (copy_to one_block movie 10 (9 ∷ 9 ∷ 9 ∷ 9 ∷ []) 7).1.dst ≡ 3 ∷ 4 ∷ 9 ∷ 9 ∷ []
unfolding program
copy_to_runs = refl

prefix_runs : cached_prefix_len one_block movie 8 ≡ some 4
unfolding program
prefix_runs = refl

copy_to_reads_example :
    ReadResult one_block movie 10
      (9 ∷ 9 ∷ 9 ∷ 9 ∷ [])
      (copy_to one_block movie 10 (9 ∷ 9 ∷ 9 ∷ 9 ∷ []) 7)
copy_to_reads_example = copy_to_reads one_block movie 10 9 (9 ∷ 9 ∷ 9 ∷ []) 7 one_block-IsValid

cached_prefix_len-put_block_example :
    (c' : RangeCache) × (put_block one_block movie 0 (7 ∷ 8 ∷ []) (pos 0) priority_high 6 ≡ some c')
    × ((k : CacheKey)
        → cached_prefix_len c' k.file_key k.start
          ≡ ite
              (CacheKey-discrete (record { file_key = movie; start = 0 }) k)
              (some 2)
              (cached_prefix_len one_block k.file_key k.start))
unfolding program
cached_prefix_len-put_block_example =
    cached_prefix_len-put_block one_block movie 0 7 (8 ∷ []) (pos 0) priority_high 6
      one_block-IsValid (omega arith)

abbrev oldest : Candidate
oldest = record { key = key; shard = shard_index movie 8; last_access = 5 }

candidate-Precedes_example :
    (blk : RangeBlock) × Stands one_block.shards oldest.shard (key, blk)
    × All (All (λ x. Precedes blk x.1)) one_block.shards
unfolding program
candidate-Precedes_example = candidate-Precedes one_block oldest one_block-IsValid.shards_ok refl

evict_stale-Stands_example :
    IsValid (evict_stale one_block movie (pos 2))
    × ((evict_stale one_block movie (pos 2)).budget ≡ pos 6)
    × ((i : ℕ) (k : CacheKey) (blk : RangeBlock)
        → Stands (evict_stale one_block movie (pos 2)).shards i (k, blk)
          ↔ (Stands one_block.shards i (k, blk) × (¬ IsStale movie (pos 2) (k, blk))))
unfolding program
evict_stale-Stands_example = evict_stale-Stands movie (pos 2) one_block one_block-IsValid

-- Two blocks of four bytes in a cache of six: the second put evicts the first.
abbrev calls : List Call
calls =
    puts movie 0 (1 ∷ 2 ∷ 3 ∷ 4 ∷ []) (pos 0) priority_high 1
    ∷ copies movie 1 (0 ∷ []) 2
    ∷ puts movie 4 (5 ∷ 6 ∷ 7 ∷ 8 ∷ []) (pos 0) priority_high 3
    ∷ drops_stale movie (pos 2)
    ∷ []

run-Holds_example : (c : RangeCache) × (run empty calls ≡ some c) × Holds (pos 6) c
run-Holds_example = run-Holds (pos 6) none calls (omega arith) (inl refl)

file_blocks-IsSorted_example :
    IsSorted (file_blocks one_block movie)
    × Perm
        (file_blocks one_block movie)
        (map (λ e. info e.1) (filter (of_file movie) (flatten one_block.shards)))
file_blocks-IsSorted_example = file_blocks-IsSorted one_block movie

all_file_keys_exact_example :
    Nodup (all_file_keys one_block)
    × ((k : Str) → Mem k (all_file_keys one_block) ↔ Mem k (keys_of (flatten one_block.shards)))
all_file_keys_exact_example = all_file_keys_exact one_block

abbrev no_room : RangeCache
no_room = new_range_cache (negsuc 0) none

put_block-negative_budget_example :
    (evict_loop 3 (store no_room key block) ≡ none)
    × (put_block no_room movie 8 (1 ∷ 2 ∷ 3 ∷ 4 ∷ []) (pos 1) priority_low 5 ≡ none)
unfolding new_range_cache
put_block-negative_budget_example =
    put_block-negative_budget 3 no_room movie 8 1 (2 ∷ 3 ∷ 4 ∷ []) (pos 1) priority_low 5
      (new-IsValid (negsuc 0) none) refl
