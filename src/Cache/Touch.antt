-- ===== src/Cache/Touch.antt =====
-- What the search of CopyTo does to the shards: it stores an access time in one block, or finds none.
use torbox_fuse_go.Base.{
  ℕ, suc, ◌≡◌, ◌≢◌, refl, ap, true, false, Option, none, some, List, [], ◌∷◌, inl, inr, arith, Str,
  length, All, Distinct, Bool-cases,
}
use torbox_fuse_go.Cache.Types.{CacheKey, RangeBlock, Shard}
use torbox_fuse_go.Cache.Ops.{covers, touch_shard, touch_shards}
use torbox_fuse_go.Cache.Evict.{block_count}
use torbox_fuse_go.Cache.Invariant.{shard_bytes, total, EntryOk, ShardsOk}

module _ (file_key : Str) (off now : ℕ) where
  -- One block of the shard that covers the offset has the new access time, and is the one returned.
  pub data Touched : Shard → RangeBlock → Shard → Type 0 where
    here :
        (key : CacheKey) (blk : RangeBlock) (sh : Shard)
        → covers file_key off (key, blk) ≡ true
        → Touched ((key, blk) ∷ sh) blk ((key, record blk { last_access = now }) ∷ sh)
    there :
        {sh sh' : Shard} {hit : RangeBlock} (e : CacheKey × RangeBlock)
        → Touched sh hit sh'
        → Touched (e ∷ sh) hit (e ∷ sh')

  pub data TouchedIn : List Shard → RangeBlock → List Shard → Type 0 where
    in_first :
        {sh sh' : Shard} {hit : RangeBlock} (shards : List Shard)
        → Touched sh hit sh'
        → TouchedIn (sh ∷ shards) hit (sh' ∷ shards)
    in_later :
        {shards shards' : List Shard} {hit : RangeBlock} (sh : Shard)
        → TouchedIn shards hit shards'
        → TouchedIn (sh ∷ shards) hit (sh ∷ shards')

  abbrev Misses : Shard → Type 0
  Misses = All (λ e. covers file_key off e ≡ false)

  abbrev ShardResult : Shard → Option (RangeBlock × Shard) → Type 0
  ShardResult sh none = Misses sh
  ShardResult sh (some (hit, sh')) = Touched sh hit sh'

  abbrev pub Result : List Shard → Option (RangeBlock × List Shard) → Type 0
  Result shards none = All Misses shards
  Result shards (some (hit, shards')) = TouchedIn shards hit shards'

  touch_later :
      (e : CacheKey × RangeBlock) (sh : Shard) (o : Option (RangeBlock × Shard))
      → covers file_key off e ≡ false
      → ShardResult sh o
      → ShardResult (e ∷ sh) (elim o [ none ↦ none | some (hit, sh') ↦ some (hit, e ∷ sh') ])
  touch_later e sh none miss h = (miss, h)
  touch_later e sh (some (hit, sh')) miss h = there e h

  touch_shard-Result : (sh : Shard) → ShardResult sh (touch_shard file_key off now sh)
  unfolding touch_shard
  touch_shard-Result [] = tt
  touch_shard-Result ((key, blk) ∷ sh) = elim (Bool-cases (covers file_key off (key, blk))) [
    | inl hit ↦ rw hit (here key blk sh hit)
    | inr miss ↦ rw miss (touch_later (key, blk) sh _ miss (touch_shard-Result sh))
  ]

  search_later :
      (sh : Shard) (shards : List Shard) (o : Option (RangeBlock × Shard))
      (rest : Option (RangeBlock × List Shard))
      → ShardResult sh o
      → Result shards rest
      → Result (sh ∷ shards) (elim o [
        | some (hit, sh') ↦ some (hit, sh' ∷ shards)
        | none ↦ elim rest [ none ↦ none | some (hit, shards') ↦ some (hit, sh ∷ shards') ]
      ])
  search_later sh shards (some (hit, sh')) rest h k = in_first shards h
  search_later sh shards none none h k = (h, k)
  search_later sh shards none (some (hit, shards')) h k = in_later sh k

  pub touch_shards-Result :
      (shards : List Shard) → Result shards (touch_shards file_key off now shards)
  unfolding touch_shards
  touch_shards-Result [] = tt
  touch_shards-Result (sh ∷ shards) =
      search_later sh shards _ _ (touch_shard-Result sh) (touch_shards-Result shards)

  -- The keys stay, and so do the bytes and the offsets.
  Touched-keys :
      (P : CacheKey → Type 0) {sh sh' : Shard} {hit : RangeBlock}
      → Touched sh hit sh'
      → All (λ e. P e.0) sh
      → All (λ e. P e.0) sh'
  Touched-keys P (here key blk sh c) h = h
  Touched-keys P (there e t) h = (h.0, Touched-keys P t h.1)

  Touched-Distinct :
      {sh sh' : Shard} {hit : RangeBlock} → Touched sh hit sh' → Distinct sh → Distinct sh'
  Touched-Distinct (here key blk sh c) h = h
  Touched-Distinct (there e t) h = (Touched-keys (λ k. k ≢ e.0) t h.0, Touched-Distinct t h.1)

  Touched-entries :
      (i : ℕ) {sh sh' : Shard} {hit : RangeBlock}
      → Touched sh hit sh'
      → All (EntryOk i) sh
      → All (EntryOk i) sh'
  Touched-entries i (here key blk sh c) h = (
    record { placed = h.0.placed; starts = h.0.starts; ends = h.0.ends; filled = h.0.filled },
    h.1,
  )
  Touched-entries i (there e t) h = (h.0, Touched-entries i t h.1)

  Touched-sums :
      {sh sh' : Shard} {hit : RangeBlock}
      → Touched sh hit sh'
      → (shard_bytes sh' ≡ shard_bytes sh) × (length sh' ≡ length sh)
  Touched-sums (here key blk sh c) = (refl, refl)
  Touched-sums (there e t) = let (b, n) = Touched-sums t in (omega arith, omega arith)

  pub TouchedIn-ok :
      (i : ℕ) {shards shards' : List Shard} {hit : RangeBlock}
      → TouchedIn shards hit shards'
      → ShardsOk i shards
      → ShardsOk i shards'
        × (total shards' ≡ total shards)
        × (length shards' ≡ length shards)
        × (block_count shards' ≡ block_count shards)
  TouchedIn-ok i (in_first shards t) h =
      let (b, n) = Touched-sums t in
      (
        (
          record {
            entries = Touched-entries i t h.0.entries;
            distinct = Touched-Distinct t h.0.distinct;
          },
          h.1,
        ),
        omega arith,
        refl,
        omega arith,
      )
  TouchedIn-ok i (in_later sh t) h =
      let (ok, b, n, k) = TouchedIn-ok (suc i) t h.1 in
      ((h.0, ok), omega arith, ap suc n, omega arith)
