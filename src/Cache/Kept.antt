-- ===== src/Cache/Kept.antt =====
-- A property of all blocks, whatever it is: what the operations of the cache do not break.
use torbox_fuse_go.Base.{
  replicate, ℕ, zero, suc, ◌≡◌, Option, none, some, List, [], ◌∷◌, Str, ℤ, All, All-set, All-insert,
  All-delete, Option-cases, Bool-cases, inl, inr, ltb_ℤ, some-injective, subst, lookup,
}
use torbox_fuse_go.Cache.Types.{
  num_shards, CacheMetrics, new_range_cache, CacheKey, CacheKey-discrete, RangeBlock, Shard,
  RangeCache, shard_index,
}
use torbox_fuse_go.Cache.Ops.{shard_at, copy_to, finish_copy, insert_block}
use torbox_fuse_go.Cache.Evict.{
  Candidate, candidate, remove_block, evict_one, evict_loop, evict, store, new_block, put_block,
}
use torbox_fuse_go.Cache.Touch.{
  Touched, here, there, TouchedIn, in_first, in_later, Result, touch_shards-Result,
}

module _ (P : CacheKey × RangeBlock → Type 0) where
  abbrev pub Throughout : RangeCache → Type 0
  Throughout c = All (All P) c.shards

  pub Throughout-at : (shards : List Shard) (i : ℕ) → All (All P) shards → All P (shard_at shards i)
  Throughout-at [] i h = tt
  Throughout-at (sh ∷ shards) zero h = h.0
  Throughout-at (sh ∷ shards) (suc i) h = Throughout-at shards i h.1

  store-Throughout :
      (c : RangeCache) (key : CacheKey) (blk : RangeBlock)
      → P (key, blk)
      → Throughout c
      → Throughout (store c key blk)
  unfolding store insert_block
  store-Throughout c key blk p h =
      let i = shard_index key.file_key key.start in
      All-set (All P) c.shards i _ h (
        All-insert CacheKey-discrete P key blk (shard_at c.shards i) p (Throughout-at c.shards i h))

  remove_block-Throughout :
      (c : RangeCache) (cand : Candidate) → Throughout c → Throughout (remove_block c cand)
  unfolding remove_block
  remove_block-Throughout c cand h =
      elim (Option-cases (lookup CacheKey-discrete cand.key (shard_at c.shards cand.shard))) [
        | inl e ↦ rw (e, remove_block) h
        | inr (blk, e) ↦
            rw (e, remove_block)
              (All-set (All P) c.shards cand.shard _ h
                (All-delete CacheKey-discrete P cand.key _ (Throughout-at c.shards cand.shard h)))
      ]

  evict_one-Throughout : (c : RangeCache) → Throughout c → Throughout (evict_one c)
  unfolding evict_one
  evict_one-Throughout c h = elim (Option-cases (candidate c)) [
    | inl e ↦ rw (e, evict_one) h
    | inr (cand, e) ↦ rw (e, evict_one) (remove_block-Throughout c cand h)
  ]

  evict_loop-Throughout :
      (fuel : ℕ) (c c' : RangeCache) → evict_loop fuel c ≡ some c' → Throughout c → Throughout c'
  unfolding evict_loop
  evict_loop-Throughout zero c c' e h = absurd (cc)
  evict_loop-Throughout (suc fuel) c c' e h = elim (Bool-cases (ltb_ℤ c.budget c.used)) [
    | inl over ↦
        evict_loop-Throughout fuel (evict_one c) c' (rw over at e) (evict_one-Throughout c h)
    | inr within ↦ subst Throughout (some-injective c c' (rw within at e)) h
  ]

  pub put_block-Throughout :
      (c c' : RangeCache) (file_key : Str) (start : ℕ) (bytes : List ℕ) (session_id : ℤ)
      (priority now : ℕ)
      → P (
        record { file_key = file_key; start = start },
        new_block start bytes session_id priority now,
      )
      → put_block c file_key start bytes session_id priority now ≡ some c'
      → Throughout c
      → Throughout c'
  unfolding put_block evict
  put_block-Throughout c c' file_key start [] session_id priority now p e h =
      subst Throughout (some-injective c c' e) h
  put_block-Throughout c c' file_key start (b ∷ bs) session_id priority now p e h =
      evict_loop-Throughout _ _ c' e (store-Throughout c _ _ p h)

  none-Throughout : (n : ℕ) → All (All P) (replicate n [])
  none-Throughout zero = tt
  none-Throughout (suc n) = (tt, none-Throughout n)

  pub new-Throughout :
      (budget : ℤ) (m : Option CacheMetrics) → Throughout (new_range_cache budget m)
  unfolding new_range_cache
  new-Throughout budget m = none-Throughout num_shards

  module _
      (still : (key : CacheKey) (blk : RangeBlock) (now : ℕ)
        → P (key, blk)
        → P (key, record blk { last_access = now })) where
    Touched-All :
        (file_key : Str) (off now : ℕ) {sh sh' : Shard} {hit : RangeBlock}
        → Touched file_key off now sh hit sh'
        → All P sh
        → All P sh'
    Touched-All file_key off now (here key blk sh c) h = (still key blk now h.0, h.1)
    Touched-All file_key off now (there e t) h = (h.0, Touched-All file_key off now t h.1)

    TouchedIn-All :
        (file_key : Str) (off now : ℕ) {shards shards' : List Shard} {hit : RangeBlock}
        → TouchedIn file_key off now shards hit shards'
        → All (All P) shards
        → All (All P) shards'
    TouchedIn-All file_key off now (in_first shards t) h = (Touched-All file_key off now t h.0, h.1)
    TouchedIn-All file_key off now (in_later sh t) h = (h.0, TouchedIn-All file_key off now t h.1)

    finish_copy-Throughout :
        (c : RangeCache) (file_key : Str) (off : ℕ) (dst : List ℕ) (now : ℕ)
        (o : Option (RangeBlock × List Shard))
        → Result file_key off now c.shards o
        → Throughout c
        → Throughout (finish_copy c off dst o).0
    unfolding finish_copy
    finish_copy-Throughout c file_key off dst now none t h = h
    finish_copy-Throughout c file_key off dst now (some (hit, shards')) t h =
        TouchedIn-All file_key off now t h

    pub copy_to-Throughout :
        (c : RangeCache) (file_key : Str) (off : ℕ) (dst : List ℕ) (now : ℕ)
        → Throughout c
        → Throughout (copy_to c file_key off dst now).0
    unfolding copy_to
    copy_to-Throughout c file_key off [] now h = h
    copy_to-Throughout c file_key off (d ∷ ds) now h =
        finish_copy-Throughout c file_key off (d ∷ ds) now _
          (touch_shards-Result file_key off now c.shards) h
