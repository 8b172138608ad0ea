-- ===== src/Cache/Cover.antt =====
-- The search of evictOne covers every block: the candidate of a block's priority is no younger.
use torbox_fuse_go.Base.{
  ℕ, suc, ◌≤◌, Bool, true, false, Option, none, some, List, [], ◌∷◌, arith, ◌==◌, All, All-map,
}
use torbox_fuse_go.Cache.Types.{CacheKey, RangeBlock, Shard, priority_low}
use torbox_fuse_go.Cache.Evict.{Candidate, Candidates, consider, scan_shard, scan_shards}

abbrev pub is_low : CacheKey × RangeBlock → Bool
is_low e = e.1.priority == priority_low

abbrev slot : Bool → Candidates → Option Candidate
slot true cs = cs.low
slot false cs = cs.high

abbrev AtMost : ℕ → Option Candidate → Type 0
AtMost la none = ⊥
AtMost la (some cand) = cand.last_access ≤ la

-- The candidate of the block's priority is no younger than the block.
abbrev pub Covered : Candidates → CacheKey × RangeBlock → Type 0
Covered cs e = AtMost e.1.last_access (slot (is_low e) cs)

consider-Covered :
    (i : ℕ) (e : CacheKey × RangeBlock) (cs : Candidates) → Covered (consider i e cs) e
unfolding consider
consider-Covered i e cs = ground arith

consider_keeps :
    (i : ℕ) (e x : CacheKey × RangeBlock) (cs : Candidates)
    → Covered cs x
    → Covered (consider i e cs) x
unfolding consider
consider_keeps i e x cs h = ground arith

scan_shard_keeps :
    (i : ℕ) (sh : Shard) (cs : Candidates) (x : CacheKey × RangeBlock)
    → Covered cs x
    → Covered (scan_shard i sh cs) x
unfolding scan_shard
scan_shard_keeps i [] cs x h = h
scan_shard_keeps i (e ∷ sh) cs x h =
    scan_shard_keeps i sh (consider i e cs) x (consider_keeps i e x cs h)

scan_shards_keeps :
    (i : ℕ) (shards : List Shard) (cs : Candidates) (x : CacheKey × RangeBlock)
    → Covered cs x
    → Covered (scan_shards i shards cs) x
unfolding scan_shards
scan_shards_keeps i [] cs x h = h
scan_shards_keeps i (sh ∷ shards) cs x h =
    scan_shards_keeps (suc i) shards (scan_shard i sh cs) x (scan_shard_keeps i sh cs x h)

scan_shard-Covered : (i : ℕ) (sh : Shard) (cs : Candidates) → All (Covered (scan_shard i sh cs)) sh
unfolding scan_shard
scan_shard-Covered i [] cs = tt
scan_shard-Covered i (e ∷ sh) cs = (
  scan_shard_keeps i sh (consider i e cs) e (consider-Covered i e cs),
  scan_shard-Covered i sh (consider i e cs),
)

pub scan_shards-Covered :
    (i : ℕ) (shards : List Shard) (cs : Candidates)
    → All (All (Covered (scan_shards i shards cs))) shards
unfolding scan_shards
scan_shards-Covered i [] cs = tt
scan_shards-Covered i (sh ∷ shards) cs = (
  All-map (Covered (scan_shard i sh cs)) _
      (λ x h. scan_shards_keeps (suc i) shards (scan_shard i sh cs) x h) sh
      (scan_shard-Covered i sh cs),
  scan_shards-Covered (suc i) shards (scan_shard i sh cs),
)
