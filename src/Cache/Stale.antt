-- ===== src/Cache/Stale.antt =====
-- EvictStale: which blocks go, which stay, and what is counted.
use mathlib.Core.Bool.{false≢true}
use torbox_fuse_go.Base.{
  ◌≤◌, ℕ, zero, suc, ◌+◌, ◌≡◌, ◌≢◌, ◌↔◌, refl, sym, ap, subst, ◌∙◌, true, Option, none, some, List,
  [], ◌∷◌, inl, inr, arith, Str, ℤ, pos, ltb_ℤ, if◌then◌else◌, length, All, lookup, lookup_absent,
  Distinct, some-injective, Bool-cases,
}
use torbox_fuse_go.Cache.Types.{
  CacheKey, CacheKey-discrete, RangeBlock, Shard, Counters, RangeCache, size,
}
use torbox_fuse_go.Cache.Ops.{shard_at, count_stale, drop_used}
use torbox_fuse_go.Cache.Evict.{is_stale, evict_stale_shard, evict_stale_shards, evict_stale}
use torbox_fuse_go.Cache.Invariant.{shard_bytes, total, EntryOk, ShardOk, ShardsOk, IsValid}
use torbox_fuse_go.Cache.Scan.{Stands}
use torbox_fuse_go.Cache.Eviction.{drop_used_lem}

-- With enough in `used` nothing is clamped.
pub count_stale-used :
    (n : ℕ) (c : Counters) (t : ℕ) → c.used ≡ pos (n + t) → (count_stale n c).used ≡ pos t
unfolding count_stale
count_stale-used n c t e =
    ap (drop_used n) e ∙ drop_used_lem n (n + t) (omega arith) ∙ ap pos (omega arith)

module _ (file_key : Str) (current : ℤ) where
  -- The file's blocks of earlier sessions go, all others stay.
  abbrev pub survivor : CacheKey → Option RangeBlock → Option RangeBlock
  survivor key none = none
  survivor key (some blk) = if is_stale file_key current (key, blk) then none else some blk

  stale_shard-keys :
      (P : CacheKey × RangeBlock → Type 0) (sh : Shard) (n : Counters)
      → All P sh
      → All P (evict_stale_shard file_key current sh n).0
  unfolding evict_stale_shard
  stale_shard-keys P [] n h = tt
  stale_shard-keys P (e ∷ sh) n h = elim (Bool-cases (is_stale file_key current e)) [
    | inl old ↦ rw old (stale_shard-keys P sh _ h.1)
    | inr new ↦ rw new (h.0, stale_shard-keys P sh _ h.1)
  ]

  stale_shard-Distinct :
      (sh : Shard) (n : Counters)
      → Distinct sh
      → Distinct (evict_stale_shard file_key current sh n).0
  unfolding evict_stale_shard
  stale_shard-Distinct [] n h = tt
  stale_shard-Distinct (e ∷ sh) n h = elim (Bool-cases (is_stale file_key current e)) [
    | inl old ↦ rw old (stale_shard-Distinct sh _ h.1)
    | inr new ↦ rw new (stale_shard-keys (λ x. x.0 ≢ e.0) sh _ h.0, stale_shard-Distinct sh _ h.1)
  ]

  stale_shard-lookup :
      (k : CacheKey) (sh : Shard) (n : Counters)
      → Distinct sh
      → lookup CacheKey-discrete k (evict_stale_shard file_key current sh n).0
        ≡ survivor k (lookup CacheKey-discrete k sh)
  unfolding evict_stale_shard lookup
  stale_shard-lookup k [] n h = refl
  stale_shard-lookup k ((i, w) ∷ sh) n h = elim (Bool-cases (is_stale file_key current (i, w))) [
    | inl old ↦
        let ih = stale_shard-lookup k sh (count_stale (size w) n) h.1 in
        ground (arith, ih, lookup_absent CacheKey-discrete i sh h.0)
    | inr new ↦ let ih = stale_shard-lookup k sh n h.1 in ground (arith, ih)
  ]

  pub stale_shard-used :
      (t : ℕ) (sh : Shard) (n : Counters)
      → n.used ≡ pos (shard_bytes sh + t)
      → (evict_stale_shard file_key current sh n).1.used
        ≡ pos (shard_bytes (evict_stale_shard file_key current sh n).0 + t)
  unfolding evict_stale_shard
  stale_shard-used t [] n h = h
  stale_shard-used t (e ∷ sh) n h = elim (Bool-cases (is_stale file_key current e)) [
    | inl old ↦ rw old (
        stale_shard-used t sh (count_stale (size e.1) n)
          (count_stale-used (size e.1) n (shard_bytes sh + t) (h ∙ ap pos (omega arith))))
    | inr new ↦
        rw new
          (stale_shard-used (size e.1 + t) sh n (h ∙ ap pos (omega arith)) ∙ ap pos (omega arith))
  ]

  stale_shard-ok :
      (i : ℕ) (sh : Shard) (n : Counters)
      → ShardOk i sh
      → ShardOk i (evict_stale_shard file_key current sh n).0
  stale_shard-ok i sh n h = record {
    entries = stale_shard-keys (EntryOk i) sh n h.entries;
    distinct = stale_shard-Distinct sh n h.distinct;
  }

  stale_shards-ok :
      (i t : ℕ) (shards : List Shard) (n : Counters)
      → n.used ≡ pos (total shards + t)
      → ShardsOk i shards
      → let p = evict_stale_shards file_key current shards n in
        ShardsOk i p.0
        × (p.1.used ≡ pos (total p.0 + t))
        × (length p.0 ≡ length shards)
        × ((k : CacheKey) (j : ℕ)
            → lookup CacheKey-discrete k (shard_at p.0 j)
              ≡ survivor k (lookup CacheKey-discrete k (shard_at shards j)))
  unfolding evict_stale_shards lookup
  stale_shards-ok i t [] n u h = (tt, u, refl, λ k j. refl)
  stale_shards-ok i t (sh ∷ shards) n u h =
      let sh' = (evict_stale_shard file_key current sh n).0 in
      let n' = (evict_stale_shard file_key current sh n).1 in
      let here = stale_shard-used (total shards + t) sh n (u ∙ ap pos (omega arith)) in
      let (ok, used, len, found) =
        stale_shards-ok (suc i) (shard_bytes sh' + t) shards n' (here ∙ ap pos (omega arith)) h.1 in
      (
        (stale_shard-ok i sh n h.0, ok),
        used ∙ ap pos (omega arith),
        ap suc len,
        λ k. elim [ zero ↦ stale_shard-lookup k sh n h.0.distinct | suc j ↦ found k j ],
      )

  -- A block of the file that an earlier session, with a positive number, has left.
  abbrev pub IsStale : CacheKey × RangeBlock → Type 0
  IsStale e =
      (e.0.file_key ≡ file_key)
      × (ltb_ℤ (pos 0) e.1.session_id ≡ true)
      × (ltb_ℤ e.1.session_id current ≡ true)

  is_stale-IsStale : (e : CacheKey × RangeBlock) → is_stale file_key current e ≡ true → IsStale e
  unfolding is_stale
  is_stale-IsStale e h = ground arith

  IsStale-is_stale : (e : CacheKey × RangeBlock) → IsStale e → is_stale file_key current e ≡ true
  unfolding is_stale
  IsStale-is_stale e h = ground (arith, h.0, h.1, h.2)

  survivor_iff :
      (key : CacheKey) (o : Option RangeBlock) (blk : RangeBlock)
      → (survivor key o ≡ some blk) ↔ ((o ≡ some blk) × (¬ IsStale (key, blk)))
  survivor_iff key none blk = (λ e. absurd (cc), λ e. absurd (cc e.0))
  survivor_iff key (some b) blk = elim (Bool-cases (is_stale file_key current (key, b))) [
    | inl old ↦ (
      λ e. absurd (cc (rw old at e)),
      λ e.
          absurd (
            e.1
              (subst (λ x. IsStale (key, x)) (some-injective b blk e.0) (is_stale-IsStale _ old))),
    )
    | inr new ↦ (
      λ e.
          let same : ◌≡◌ {A = Option RangeBlock} (some b) (some blk) = rw new at e in
          (
            same,
            λ s. false≢true (
                sym new
                ∙ IsStale-is_stale (key, b)
                    (subst (λ x. IsStale (key, x)) (sym (some-injective b blk same)) s)),
          ),
      λ e. rw new e.0,
    )
  ]

  -- EvictStale, on a well-formed cache, keeps it well formed and its budget as it is; afterwards exactly
  -- those blocks are left that were there and are not stale.
  pub evict_stale-Stands :
      (c : RangeCache)
      → IsValid c
      → IsValid (evict_stale c file_key current)
        × ((evict_stale c file_key current).budget ≡ c.budget)
        × ((i : ℕ) (key : CacheKey) (blk : RangeBlock)
            → Stands (evict_stale c file_key current).shards i (key, blk)
              ↔ (Stands c.shards i (key, blk) × (¬ IsStale (key, blk))))
  unfolding evict_stale
  evict_stale-Stands c v =
      let (ok, used, len, found) =
        stale_shards-ok 0 0 c.shards c.counters (v.accounted ∙ ap pos (omega arith)) v.shards_ok in
      (
        record {
          sharded = len ∙ v.sharded;
          accounted = used ∙ ap pos (omega arith);
          shards_ok = ok;
        },
        refl,
        λ i key blk.
            let iff = survivor_iff key (lookup CacheKey-discrete key (shard_at c.shards i)) blk in
            (λ h. iff.0 (sym (found key i) ∙ h), λ h. found key i ∙ iff.1 h),
      )

  stale_shard-le :
      (sh : Shard) (n : Counters)
      → shard_bytes (evict_stale_shard file_key current sh n).0 ≤ shard_bytes sh
  unfolding evict_stale_shard
  stale_shard-le [] n = omega arith
  stale_shard-le (e ∷ sh) n = elim (Bool-cases (is_stale file_key current e)) [
    | inl old ↦ rw old (omega (arith, stale_shard-le sh (count_stale (size e.1) n)))
    | inr new ↦ rw new (omega (arith, stale_shard-le sh n))
  ]

  stale_shards-le :
      (shards : List Shard) (n : Counters)
      → total (evict_stale_shards file_key current shards n).0 ≤ total shards
  unfolding evict_stale_shards
  stale_shards-le [] n = omega arith
  stale_shards-le (sh ∷ shards) n = omega (
    arith,
    stale_shard-le sh n,
    stale_shards-le shards (evict_stale_shard file_key current sh n).1,
  )

  pub evict_stale-total-le :
      (c : RangeCache) → total (evict_stale c file_key current).shards ≤ total c.shards
  unfolding evict_stale
  evict_stale-total-le c = stale_shards-le c.shards c.counters
