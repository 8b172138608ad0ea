-- ===== src/Cache/Scan.antt =====
-- The search for a block to evict, in evictOne: what it finds, and what it compares it with.
use torbox_fuse_go.Base.{
  ℕ, suc, ◌+◌, ◌≤◌, ◌≡◌, refl, sym, subst, ◌∙◌, ap, Bool, true, false, Option, none, some, List, [],
  ◌∷◌, arith, ◌==◌, Bool-cases, inl, inr, All, All-map, lookup, Distinct-lookup,
}
use torbox_fuse_go.Cache.Types.{
  CacheKey, CacheKey-discrete, RangeBlock, Shard, RangeCache, priority_low,
}
use torbox_fuse_go.Cache.Ops.{shard_at}
use torbox_fuse_go.Cache.Evict.{
  Candidate, Candidates, better, consider, scan_shard, scan_shards, choose, candidate, block_count,
}
use torbox_fuse_go.Cache.Invariant.{ShardsOk}
use torbox_fuse_go.Cache.Cover.{is_low, Covered, scan_shards-Covered}

module _ (P : ℕ → CacheKey × RangeBlock → Type 0) where
  -- The candidate stands for a block of its priority, with its access time.
  abbrev FoundAt : Bool → Option Candidate → Type 0
  FoundAt class none = Unit
  FoundAt class (some cand) =
      (blk : RangeBlock) × P cand.shard (cand.key, blk)
      × (blk.last_access ≡ cand.last_access)
      × ((blk.priority == priority_low) ≡ class)

  abbrev Found : Candidates → Type 0
  Found cs = FoundAt true cs.low × FoundAt false cs.high

  abbrev Everywhere : ℕ → List Shard → Type 0
  Everywhere i [] = Unit
  Everywhere i (sh ∷ shards) = All (P i) sh × Everywhere (suc i) shards

  consider-Found :
      (i : ℕ) (e : CacheKey × RangeBlock) (cs : Candidates)
      → P i e
      → Found cs
      → Found (consider i e cs)
  unfolding consider
  consider-Found i e cs p h = elim (Bool-cases (is_low e)) [
    | inl low ↦ elim (Bool-cases (better e.1.last_access cs.low)) [
      | inl newer ↦ rw (low, consider) (rw newer ((e.1, p, refl, low), h.1))
      | inr kept ↦ rw (low, consider) (rw kept h)
    ]
    | inr high ↦ elim (Bool-cases (better e.1.last_access cs.high)) [
      | inl newer ↦ rw (high, consider) (rw newer (h.0, (e.1, p, refl, high)))
      | inr kept ↦ rw (high, consider) (rw kept h)
    ]
  ]

  scan_shard-Found :
      (i : ℕ) (sh : Shard) (cs : Candidates) → All (P i) sh → Found cs → Found (scan_shard i sh cs)
  unfolding scan_shard
  scan_shard-Found i [] cs p h = h
  scan_shard-Found i (e ∷ sh) cs p h =
      scan_shard-Found i sh (consider i e cs) p.1 (consider-Found i e cs p.0 h)

  scan_shards-Found :
      (i : ℕ) (shards : List Shard) (cs : Candidates)
      → Everywhere i shards
      → Found cs
      → Found (scan_shards i shards cs)
  unfolding scan_shards
  scan_shards-Found i [] cs p h = h
  scan_shards-Found i (sh ∷ shards) cs p h =
      scan_shards-Found (suc i) shards (scan_shard i sh cs) p.1 (scan_shard-Found i sh cs p.0 h)

-- What the cache finds at the key of a block, in the shard where it visits the block.
abbrev pub Stands : List Shard → ℕ → CacheKey × RangeBlock → Type 0
Stands shards i e = lookup CacheKey-discrete e.0 (shard_at shards i) ≡ some e.1

ShardsOk-Stands :
    (all : List Shard) (j : ℕ) (shards : List Shard)
    → ((i : ℕ) → shard_at all (j + i) ≡ shard_at shards i)
    → ShardsOk j shards
    → Everywhere (Stands all) j shards
ShardsOk-Stands all j [] h v = tt
ShardsOk-Stands all j (sh ∷ shards) h v =
    let here : shard_at all j ≡ sh = ap (shard_at all) (omega arith) ∙ h 0 in
    (
      subst (λ s. All (λ e. lookup CacheKey-discrete e.0 s ≡ some e.1) sh) (sym here)
          (Distinct-lookup CacheKey-discrete sh v.0.distinct),
      ShardsOk-Stands all (suc j) shards (λ i. ap (shard_at all) (omega arith) ∙ h (suc i)) v.1,
    )

-- The order of eviction: low priority before high, and the oldest access first within a priority.
abbrev ByPriority : Bool → Bool → Type 0 → Type 0
ByPriority true true older = older
ByPriority true false older = Unit
ByPriority false true older = ⊥
ByPriority false false older = older

abbrev pub Precedes : RangeBlock → RangeBlock → Type 0
Precedes a x =
    ByPriority (a.priority == priority_low) (x.priority == priority_low)
      (a.last_access ≤ x.last_access)

choose-low :
    (cand : Candidate) (high : Option Candidate) (blk : RangeBlock) (x : CacheKey × RangeBlock)
    → blk.last_access ≡ cand.last_access
    → (blk.priority == priority_low) ≡ true
    → Covered (record { low = some cand; high = high }) x
    → Precedes blk x.1
choose-low cand high blk x la low h = elim (Bool-cases (is_low x)) [
  | inl xlow ↦
      let older : cand.last_access ≤ x.1.last_access = rw xlow at h in rw (low, xlow) (omega arith)
  | inr xhigh ↦ rw (low, xhigh) tt
]

choose-high :
    (cand : Candidate) (blk : RangeBlock) (x : CacheKey × RangeBlock)
    → blk.last_access ≡ cand.last_access
    → (blk.priority == priority_low) ≡ false
    → Covered (record { low = none; high = some cand }) x
    → Precedes blk x.1
choose-high cand blk x la high h = elim (Bool-cases (is_low x)) [
  | inl xlow ↦ let missed : ⊥ = rw xlow at h in absurd missed
  | inr xhigh ↦
      let older : cand.last_access ≤ x.1.last_access = rw xhigh at h in
      rw (high, xhigh) (omega arith)
]

-- The three outcomes of the search: nothing, a candidate of low priority, one of high priority.
choose-Found :
    (P : ℕ → CacheKey × RangeBlock → Type 0) (low high : Option Candidate) (cand : Candidate)
    → Found P (record { low = low; high = high })
    → choose (record { low = low; high = high }) ≡ some cand
    → (blk : RangeBlock) × P cand.shard (cand.key, blk)
      × ((x : CacheKey × RangeBlock)
          → Covered (record { low = low; high = high }) x
          → Precedes blk x.1)
unfolding choose
choose-Found P (some l) high cand (f, _) e =
    let same : l ≡ cand = ground arith in
    (
      f.0,
      subst (λ (k : Candidate). P k.shard (k.key, f.0)) same f.1,
      λ x. choose-low l high f.0 x f.2 f.3,
    )
choose-Found P none (some h) cand (_, f) e =
    let same : h ≡ cand = ground arith in
    (
      f.0,
      subst (λ (k : Candidate). P k.shard (k.key, f.0)) same f.1,
      λ x. choose-high h f.0 x f.2 f.3,
    )
choose-Found P none none cand f e = absurd (cc)

-- In a cache with well-formed shards, what evictOne chooses, if it chooses any, is a block of the cache,
-- and it precedes every block of the cache: low priority before high, then the older access.
pub candidate-Precedes :
    (c : RangeCache) (cand : Candidate)
    → ShardsOk 0 c.shards
    → candidate c ≡ some cand
    → (blk : RangeBlock) × Stands c.shards cand.shard (cand.key, blk)
      × All (All (λ x. Precedes blk x.1)) c.shards
unfolding candidate
candidate-Precedes c cand v e =
    let cs = scan_shards 0 c.shards (record { low = none; high = none }) in
    let found =
      scan_shards-Found (Stands c.shards) 0 c.shards (record { low = none; high = none })
        (ShardsOk-Stands c.shards 0 c.shards (λ i. ap (shard_at c.shards) (omega arith)) v)
        (tt, tt) in
    let (blk, stands, before) = choose-Found (Stands c.shards) cs.low cs.high cand found e in
    (
      blk,
      stands,
      All-map _ _ (λ sh. All-map _ _ before sh) c.shards (scan_shards-Covered 0 c.shards _),
    )

-- It chooses none only in an empty cache.
choose-none :
    (low high : Option Candidate) (x : CacheKey × RangeBlock)
    → choose (record { low = low; high = high }) ≡ none
    → Covered (record { low = low; high = high }) x
    → ⊥
unfolding choose
choose-none low high x e h = ground arith

pub candidate-none : (c : RangeCache) → candidate c ≡ none → block_count c.shards ≡ 0
unfolding candidate
candidate-none c e = go c.shards (scan_shards-Covered 0 c.shards _)
  where
    go :
        (shards : List Shard)
        → All (All (Covered (scan_shards 0 c.shards (record { low = none; high = none })))) shards
        → block_count shards ≡ 0
    go [] h = refl
    go ([] ∷ shards) h = omega (arith, go shards h.1)
    go ((x ∷ sh) ∷ shards) h = absurd (choose-none _ _ x e h.0.0)
