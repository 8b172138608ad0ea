-- ===== src/Cache/Insertion.antt =====
-- putBlock: the stored block, its eviction, and what a read finds at once.
use torbox_fuse_go.Base.{
  ℕ, ◌+◌, ◌<◌, ◌≡◌, refl, sym, ap, ◌∙◌, Option, some, List, [], ◌∷◌, arith, Str, ℤ, pos, ◌+ℤ◌, ◌≤ℤ◌,
  int_laws, length, length-set, lookup, insert, lookup-insert, ite, if_pos, if_neg, get_or-set,
  ℕ_discrete,
}
use torbox_fuse_go.Cache.Types.{
  CacheKey, CacheKey-discrete, RangeBlock, RangeCache, num_shards, shard_index, shard_index-lt,
  size,
}
use torbox_fuse_go.Cache.Ops.{shard_at, count_inserted, insert_block, cached_prefix_len}
use torbox_fuse_go.Cache.Evict.{new_block, store, evict, evict_loop, put_block}
use torbox_fuse_go.Cache.Invariant.{
  total, ShardsOk-at, ShardsOk-set, ShardOk-insert, IsValid, store-accounted, shard_of,
  insert_block-used,
}
use torbox_fuse_go.Cache.Eviction.{evict-ends}

pub store-IsValid :
    (c : RangeCache) (key : CacheKey) (blk : RangeBlock)
    → blk.start ≡ key.start
    → blk.end ≡ blk.start + size blk
    → 0 < size blk
    → IsValid c
    → IsValid (store c key blk)
unfolding store insert_block
store-IsValid c key blk s e f v =
    let i = shard_index key.file_key key.start in
    let sh = shard_of c key in
    record {
      sharded = length-set c.shards i (insert CacheKey-discrete key blk sh) ∙ v.sharded;
      accounted = store-accounted c key blk v.sharded v.accounted;
      shards_ok = ShardsOk-set 0 i i c.shards _ (omega arith) v.shards_ok (
          ShardOk-insert i key blk sh (record { placed = refl; starts = s; ends = e; filled = f })
            (ShardsOk-at 0 i i c.shards (omega arith) v.shards_ok));
    }

-- Each put on a well-formed cache with a budget that is not negative comes to an end; the cache is
-- well formed again, its budget is the same, and the bytes that it holds are within it.
pub put_block-within_budget :
    (c : RangeCache) (file_key : Str) (start : ℕ) (bytes : List ℕ) (session_id : ℤ)
    (priority now : ℕ)
    → IsValid c
    → pos 0 ≤ℤ c.budget
    → c.used ≤ℤ c.budget
    → (c' : RangeCache) × (put_block c file_key start bytes session_id priority now ≡ some c')
      × IsValid c'
      × (c'.budget ≡ c.budget)
      × (c'.used ≤ℤ c'.budget)
      × (c'.used ≡ pos (total c'.shards))
unfolding put_block store insert_block
put_block-within_budget c file_key start [] session_id priority now v b u =
    (c, refl, v, refl, u, v.accounted)
put_block-within_budget c file_key start (x ∷ xs) session_id priority now v b u =
    let (c', e, v', same, within) =
      evict-ends (store c _ (new_block start (x ∷ xs) session_id priority now))
        (store-IsValid c _ (new_block start (x ∷ xs) session_id priority now) refl refl
          (omega arith) v)
        b in
    (c', e, v', same, within, v'.accounted)

-- While the budget is kept there is nothing to evict.
evict_within : (c : RangeCache) → c.used ≤ℤ c.budget → evict c ≡ some c
unfolding evict evict_loop
evict_within c h = ground arith

store-used :
    (c : RangeCache) (key : CacheKey) (blk : RangeBlock)
    → (store c key blk).used ≤ℤ c.used +ℤ pos (size blk)
unfolding store count_inserted
store-used c key blk = rw (insert_block-used c key blk) (omega int_laws)

pub store-budget :
    (c : RangeCache) (key : CacheKey) (blk : RangeBlock) → (store c key blk).budget ≡ c.budget
unfolding store insert_block
store-budget c key blk = refl

abbrev cached : RangeCache → CacheKey → Option RangeBlock
cached c key = lookup CacheKey-discrete key (shard_of c key)

-- A stored block is found under its key, and every other key finds what it found before.
cached-store :
    (c : RangeCache) (key k : CacheKey) (blk : RangeBlock)
    → length c.shards ≡ num_shards
    → cached (store c key blk) k ≡ ite (CacheKey-discrete key k) (some blk) (cached c k)
unfolding store insert_block
cached-store c key k blk n =
    let i = shard_index key.file_key key.start in
    let j = shard_index k.file_key k.start in
    let bound : i < length c.shards = omega (arith, shard_index-lt key.file_key key.start) in
    let moved =
      get_or-set c.shards i j (insert CacheKey-discrete key blk (shard_of c key)) [] bound in
    let found = ap (lookup CacheKey-discrete k) moved in
    elim (CacheKey-discrete key k) [
      | yes same ↦
          ap (lookup CacheKey-discrete k) (
            moved
            ∙ if_pos (ℕ_discrete i j) (ap (λ (x : CacheKey). shard_index x.file_key x.start) same) _
                _)
          ∙ lookup-insert CacheKey-discrete key k blk (shard_of c key)
          ∙ if_pos (CacheKey-discrete key k) same _ _
          ∙ sym (if_pos (CacheKey-discrete key k) same _ _)
      | no other ↦ elim (ℕ_discrete i j) [
        | yes one ↦
            ap (lookup CacheKey-discrete k) (moved ∙ if_pos (ℕ_discrete i j) one _ _)
            ∙ lookup-insert CacheKey-discrete key k blk (shard_of c key)
            ∙ if_neg (CacheKey-discrete key k) other _ _
            ∙ ap (λ t. lookup CacheKey-discrete k (shard_at c.shards t)) one
            ∙ sym (if_neg (CacheKey-discrete key k) other _ _)
        | no two ↦
            ap (lookup CacheKey-discrete k) (moved ∙ if_neg (ℕ_discrete i j) two _ _)
            ∙ sym (if_neg (CacheKey-discrete key k) other _ _)
      ]
    ]

-- On a well-formed cache, a put of at least one byte that fits the budget together with all that is
-- stored returns, and afterwards the cached prefix at (file_key, start) is the whole of the bytes, and at any other key and offset it is what it was.
pub cached_prefix_len-put_block :
    (c : RangeCache) (file_key : Str) (start : ℕ) (b : ℕ) (bs : List ℕ) (session_id : ℤ)
    (priority now : ℕ)
    → IsValid c
    → c.used +ℤ pos (length (b ∷ bs)) ≤ℤ c.budget
    → (c' : RangeCache) × (put_block c file_key start (b ∷ bs) session_id priority now ≡ some c')
      × ((k : CacheKey)
          → cached_prefix_len c' k.file_key k.start
            ≡ ite
                (CacheKey-discrete (record { file_key = file_key; start = start }) k)
                (some (length (b ∷ bs)))
                (cached_prefix_len c k.file_key k.start))
unfolding put_block cached_prefix_len
cached_prefix_len-put_block c file_key start b bs session_id priority now v fits =
    let key : CacheKey = record { file_key = file_key; start = start } in
    let blk = new_block start (b ∷ bs) session_id priority now in
    let c' = store c key blk in
    let kept = store-budget c key blk in
    (
      c',
      evict_within c' (rw kept (omega (int_laws, store-used c key blk))),
      λ k. ground (arith, cached-store c key k blk v.sharded),
    )
