-- ===== src/Cache/Eviction.antt =====
-- evictOne and evict keep the cache well formed, and the loop of evict ends within the budget.
use torbox_fuse_go.Base.{
  ℕ, zero, suc, ◌+◌, ◌-◌, ◌<◌, ◌≤◌, ◌≡◌, ◌⊎◌, refl, ap, subst, ltb, ◌∙◌, true, some, List, [], ◌∷◌,
  inl, inr, arith, pos, ◌-ℤ◌, ltb_ℤ, ◌≤ℤ◌, length, get_or-out, sum_of-set, get_or-le-sum_of,
  length-set, lookup, delete, weight_at, weight-delete, count_at, length-delete, Option-cases,
  Bool-cases, dec_lt,
}
use torbox_fuse_go.Cache.Types.{CacheKey, CacheKey-discrete, RangeBlock, Shard, RangeCache, size}
use torbox_fuse_go.Cache.Ops.{shard_at, drop_used, count_evicted}
use torbox_fuse_go.Cache.Evict.{
  Candidate, candidate, remove_block, evict_one, evict_loop, evict, block_count,
}
use torbox_fuse_go.Cache.Invariant.{
  shard_bytes, total, ShardsOk-at, ShardsOk-set, ShardOk-delete, IsValid,
}
use torbox_fuse_go.Cache.Scan.{Stands, candidate-Precedes, candidate-none}

pub drop_used_lem : (n t : ℕ) → n ≤ t → drop_used n (pos t) ≡ pos (t - n)
unfolding ◌-ℤ◌
drop_used_lem n t h = ground arith

-- A lookup that finds something is in a shard that exists.
pub Stands-bound :
    (shards : List Shard) (i : ℕ) (e : CacheKey × RangeBlock)
    → Stands shards i e
    → i < length shards
unfolding lookup
Stands-bound shards i e h = elim (Bool-cases (ltb i (length shards))) [
  | inl inside ↦ ground arith
  | inr out ↦
      let gone : shard_at shards i ≡ [] = get_or-out shards i [] (ground arith) in
      let missed : lookup CacheKey-discrete e.0 [] ≡ some e.1 =
        subst (λ sh. lookup CacheKey-discrete e.0 sh ≡ some e.1) gone h in
      absurd (cc missed)
]

-- Removing a block that stands in the cache.
module _ (c : RangeCache) (cand : Candidate) (blk : RangeBlock) where
  pub Stands-fits : Stands c.shards cand.shard (cand.key, blk) → size blk ≤ total c.shards
  Stands-fits h =
      let here = weight-delete CacheKey-discrete size cand.key (shard_at c.shards cand.shard) in
      let held = get_or-le-sum_of shard_bytes c.shards cand.shard [] refl in
      omega (arith, ap (weight_at size) h)

  pub remove_block-counters :
      Stands c.shards cand.shard (cand.key, blk)
      → (remove_block c cand).counters ≡ count_evicted (size blk) c.counters
  unfolding remove_block
  remove_block-counters h = rw (h, remove_block) refl

  remove_block-IsValid :
      Stands c.shards cand.shard (cand.key, blk) → IsValid c → IsValid (remove_block c cand)
  unfolding remove_block count_evicted
  remove_block-IsValid h v =
      let sh = shard_at c.shards cand.shard in
      let bound = Stands-bound c.shards cand.shard (cand.key, blk) h in
      let sh' = delete CacheKey-discrete cand.key sh in
      let moved = sum_of-set shard_bytes c.shards cand.shard sh' [] bound in
      let here = weight-delete CacheKey-discrete size cand.key sh in
      let found : weight_at size (lookup CacheKey-discrete cand.key sh) ≡ size blk =
        ap (weight_at size) h in
      let fits = Stands-fits h in
      rw (h, remove_block)
        (record {
          sharded = length-set c.shards cand.shard sh' ∙ v.sharded;
          accounted =
              ap (drop_used (size blk)) v.accounted
              ∙ drop_used_lem (size blk) (total c.shards) fits
              ∙ ap pos (omega (arith, found));
          shards_ok = ShardsOk-set 0 cand.shard cand.shard c.shards sh' (omega arith) v.shards_ok (
              ShardOk-delete cand.shard cand.key sh
                (ShardsOk-at 0 cand.shard cand.shard c.shards (omega arith) v.shards_ok));
        })

  pub remove_block-count :
      Stands c.shards cand.shard (cand.key, blk)
      → block_count (remove_block c cand).shards + 1 ≡ block_count c.shards
  unfolding remove_block
  remove_block-count h =
      let sh = shard_at c.shards cand.shard in
      let bound = Stands-bound c.shards cand.shard (cand.key, blk) h in
      let sh' = delete CacheKey-discrete cand.key sh in
      let moved = sum_of-set length c.shards cand.shard sh' [] bound in
      let here = length-delete CacheKey-discrete cand.key sh in
      let found : count_at (lookup CacheKey-discrete cand.key sh) ≡ 1 = ap count_at h in
      rw (h, remove_block) (omega (arith, found))

  -- What stood elsewhere still stands.
  remove_block-budget : (remove_block c cand).budget ≡ c.budget
  unfolding remove_block
  remove_block-budget = ground arith

-- One round of evict: on a cache that holds a block it removes one, and keeps the rest in order.
pub evict_one-step :
    (c : RangeCache)
    → IsValid c
    → IsValid (evict_one c)
      × ((evict_one c).budget ≡ c.budget)
      × ((block_count c.shards ≡ 0) ⊎ (block_count (evict_one c).shards + 1 ≡ block_count c.shards))
unfolding evict_one
evict_one-step c v = elim (Option-cases (candidate c)) [
  | inl e ↦ rw (e, evict_one) (v, refl, inl (candidate-none c e))
  | inr (cand, e) ↦
      let (blk, stands, _) = candidate-Precedes c cand v.shards_ok e in
      rw (e, evict_one)
        (
          remove_block-IsValid c cand blk stands v,
          remove_block-budget c cand blk,
          inr (remove_block-count c cand blk stands),
        )
]

sum_of_zero : (shards : List Shard) → block_count shards ≡ 0 → total shards ≡ 0
sum_of_zero [] h = refl
sum_of_zero ([] ∷ shards) h = omega (arith, sum_of_zero shards (omega arith))
sum_of_zero ((x ∷ sh) ∷ shards) h = absurd (omega arith)

over_budget-pos :
    (c : RangeCache)
    → IsValid c
    → pos 0 ≤ℤ c.budget
    → ltb_ℤ c.budget c.used ≡ true
    → 0 < block_count c.shards
over_budget-pos c v b over =
    let used : ltb_ℤ c.budget (pos (total c.shards)) ≡ true = rw v.accounted at over in
    let bytes : 0 < total c.shards = ground arith in
    elim (dec_lt 0 (block_count c.shards)) [
      | yes p ↦ p
      | no n ↦ absurd (omega (arith, sum_of_zero c.shards (omega arith)))
    ]

-- With as many rounds as there are blocks the loop ends, and it ends within the budget.
pub evict_loop-ends :
    (fuel : ℕ) (c : RangeCache)
    → block_count c.shards < fuel
    → IsValid c
    → pos 0 ≤ℤ c.budget
    → (c' : RangeCache) × (evict_loop fuel c ≡ some c')
      × IsValid c'
      × (c'.budget ≡ c.budget)
      × (c'.used ≤ℤ c'.budget)
unfolding evict_loop
evict_loop-ends zero c h v b = elim h [ ]
evict_loop-ends (suc fuel) c h v b = elim (Bool-cases (ltb_ℤ c.budget c.used)) [
  | inr done ↦ (c, rw done, v, refl, ground arith)
  | inl over ↦
      let (v', same, count) = evict_one-step c v in
      let rounds : block_count (evict_one c).shards < fuel =
        omega (arith, over_budget-pos c v b over) in
      let (c', e, valid, kept, within) = evict_loop-ends fuel (evict_one c) rounds v' (rw same b) in
      (c', rw over e, valid, kept ∙ same, within)
]

pub evict-ends :
    (c : RangeCache)
    → IsValid c
    → pos 0 ≤ℤ c.budget
    → (c' : RangeCache) × (evict c ≡ some c')
      × IsValid c'
      × (c'.budget ≡ c.budget)
      × (c'.used ≤ℤ c'.budget)
unfolding evict
evict-ends c v b = evict_loop-ends (suc (block_count c.shards)) c (omega arith) v b
