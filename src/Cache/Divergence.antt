-- ===== src/Cache/Divergence.antt =====
-- The loop of evict has no way out of a cache that is over its budget and holds no block, and none
-- below a negative budget.
use torbox_fuse_go.Base.{ℕ, zero, suc, ◌≡◌, refl, true, none, List, ◌∷◌, arith, ℤ, pos, ltb_ℤ, Str}
use torbox_fuse_go.Cache.Types.{CacheKey, RangeCache}
use torbox_fuse_go.Cache.Evict.{
  candidate, evict_one, evict_loop, store, new_block, evict, put_block,
}
use torbox_fuse_go.Cache.Invariant.{IsValid}
use torbox_fuse_go.Cache.Eviction.{evict_one-step}
use torbox_fuse_go.Cache.Insertion.{store-IsValid, store-budget}

-- Below a negative budget no number of rounds ends the loop: `used` is never negative.
evict_loop-negative :
    (fuel : ℕ) (c : RangeCache)
    → IsValid c
    → ltb_ℤ c.budget (pos 0) ≡ true
    → evict_loop fuel c ≡ none
unfolding evict_loop
evict_loop-negative zero c v neg = refl
evict_loop-negative (suc fuel) c v neg =
    let (v', same, _) = evict_one-step c v in
    let over : ltb_ℤ c.budget c.used ≡ true = rw v.accounted (ground arith) in
    rw over (evict_loop-negative fuel (evict_one c) v' (rw same neg))

-- On a well-formed cache with a negative budget, a put of at least one byte never returns: its eviction
-- does not end in any number of rounds.
pub put_block-negative_budget :
    (fuel : ℕ) (c : RangeCache) (file_key : Str) (start b : ℕ) (bs : List ℕ) (session_id : ℤ)
    (priority now : ℕ)
    → IsValid c
    → ltb_ℤ c.budget (pos 0) ≡ true
    → (evict_loop fuel (
          store c
            (record { file_key = file_key; start = start })
            (new_block start (b ∷ bs) session_id priority now))
        ≡ none)
      × (put_block c file_key start (b ∷ bs) session_id priority now ≡ none)
unfolding put_block evict
put_block-negative_budget fuel c file_key start b bs session_id priority now v neg =
    let key : CacheKey = record { file_key = file_key; start = start } in
    let blk = new_block start (b ∷ bs) session_id priority now in
    let v' = store-IsValid c key blk refl refl (omega arith) v in
    let neg' : ltb_ℤ (store c key blk).budget (pos 0) ≡ true = rw store-budget neg in
    (
      evict_loop-negative fuel (store c key blk) v' neg',
      evict_loop-negative _ (store c key blk) v' neg',
    )

-- Nor does the loop end on a cache that holds no block and whose `used` is over the budget.
pub evict_loop-drifted :
    (fuel : ℕ) (c : RangeCache)
    → candidate c ≡ none
    → ltb_ℤ c.budget c.used ≡ true
    → evict_loop fuel c ≡ none
unfolding evict_loop evict_one
evict_loop-drifted zero c e over = refl
evict_loop-drifted (suc fuel) c e over =
    rw over (rw (e, evict_one) (evict_loop-drifted fuel c e over))
