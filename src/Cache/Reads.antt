-- ===== src/Cache/Reads.antt =====
-- CopyTo: what it returns on a hit and on a miss, and what it leaves of the cache.
use torbox_fuse_go.Base.{
  Option-cases, ℕ, suc, ◌-◌, ◌<◌, ◌≤◌, ◌≡◌, ◌≢◌, ◌⊎◌, refl, sym, ap, ◌∙◌, true, false, Option, none,
  some, List, [], ◌∷◌, ◌++◌, inl, inr, arith, min, Str, str_eq→eq, length, take, drop, length-drop,
  All, All-map, All-lookup, lookup, Distinct, if_neg, if_pos, pos,
}
use torbox_fuse_go.Cache.Types.{CacheKey, CacheKey-discrete, RangeBlock, Shard, RangeCache}
use torbox_fuse_go.Cache.Ops.{touch_shards, covers, copy, finish_copy, CopyResult, copy_to}
use torbox_fuse_go.Cache.Invariant.{EntryOk, ShardsOk, ShardsOk-at, IsValid}
use torbox_fuse_go.Cache.Scan.{Stands}
use torbox_fuse_go.Cache.Touch.{
  Touched, here, there, TouchedIn, in_first, in_later, Result, touch_shards-Result, TouchedIn-ok,
}

module _ (file_key : Str) (off now : ℕ) where
  Touched-lookup :
      {sh sh' : Shard} {hit : RangeBlock}
      → Touched file_key off now sh hit sh'
      → Distinct sh
      → (key : CacheKey) × (lookup CacheKey-discrete key sh ≡ some hit)
        × (covers file_key off (key, hit) ≡ true)
  unfolding lookup
  Touched-lookup (here key blk sh c) h = (key, if_pos (CacheKey-discrete key key) refl _ _, c)
  Touched-lookup (there {sh = sh} (k, b) t) h =
      let (key, found, c) = Touched-lookup t h.1 in
      let ne = All-lookup CacheKey-discrete (λ e. e.0 ≢ k) key sh h.0 found in
      (key, if_neg (CacheKey-discrete k key) (λ e. ne (sym e)) _ _ ∙ found, c)

  TouchedIn-Stands :
      (j : ℕ) {shards shards' : List Shard} {hit : RangeBlock}
      → TouchedIn file_key off now shards hit shards'
      → ShardsOk j shards
      → (i : ℕ) × (key : CacheKey) × Stands shards i (key, hit)
        × (covers file_key off (key, hit) ≡ true)
  TouchedIn-Stands j (in_first shards t) h =
      let (key, found, c) = Touched-lookup t h.0.distinct in (0, key, found, c)
  TouchedIn-Stands j (in_later sh t) h =
      let (i, key, found, c) = TouchedIn-Stands (suc j) t h.1 in (suc i, key, found, c)

covers_iff :
    (file_key : Str) (off : ℕ) (e : CacheKey × RangeBlock)
    → covers file_key off e ≡ true
    → (e.0.file_key ≡ file_key) × (e.1.start ≤ off) × (off < e.1.end)
unfolding covers
covers_iff file_key off e h = ground (arith, str_eq→eq e.0.file_key file_key)

-- No block of the file covers the offset.
abbrev pub Uncovered : Str → ℕ → CacheKey × RangeBlock → Type 0
Uncovered file_key off e = e.0.file_key ≡ file_key → e.1.start ≤ off → e.1.end ≤ off

covers_not :
    (file_key : Str) (off : ℕ) (e : CacheKey × RangeBlock)
    → covers file_key off e ≡ false
    → Uncovered file_key off e
unfolding covers
covers_not file_key off e h same above = ground arith

-- What a read of `dst` at `off` may return: nothing, and then no block covers the offset, or the
-- bytes of a block of the file that covers it, as many as fit.
abbrev pub ReadResult : RangeCache → Str → ℕ → List ℕ → RangeCache × CopyResult → Type 0
ReadResult c file_key off dst p =
    ((p.1.hit ≡ false)
      × (p.1.n ≡ 0)
      × (p.1.dst ≡ dst)
      × (p.0 ≡ c)
      × All (All (Uncovered file_key off)) c.shards)
    ⊎ ((i : ℕ) × (key : CacheKey) × (blk : RangeBlock) × Stands c.shards i (key, blk)
        × (key.file_key ≡ file_key)
        × (blk.start ≤ off)
        × (off < blk.end)
        × (p.1.hit ≡ true)
        × (p.1.n ≡ min (length dst) (blk.end - off))
        × (0 < p.1.n)
        × (p.1.dst ≡ take p.1.n (drop (off - blk.start) blk.bytes) ++ drop p.1.n dst))

finish_copy-ReadResult :
    (c : RangeCache) (file_key : Str) (off d : ℕ) (ds : List ℕ) (now : ℕ)
    (o : Option (RangeBlock × List Shard))
    → ShardsOk 0 c.shards
    → Result file_key off now c.shards o
    → ReadResult c file_key off (d ∷ ds) (finish_copy c off (d ∷ ds) o)
unfolding finish_copy copy
finish_copy-ReadResult c file_key off d ds now none v h = inl (
  refl,
  refl,
  refl,
  refl,
  All-map _ _ (λ sh. All-map _ _ (covers_not file_key off) sh) c.shards h,
)
finish_copy-ReadResult c file_key off d ds now (some (blk, shards')) v h =
    let (i, key, stands, cov) = TouchedIn-Stands file_key off now 0 h v in
    let (same, above, below) = covers_iff file_key off (key, blk) cov in
    let shard_ok = ShardsOk-at 0 i i c.shards (omega arith) v in
    let entry = All-lookup CacheKey-discrete (EntryOk i) key _ shard_ok.entries stands in
    let rest = length-drop (off - blk.start) blk.bytes in
    let size_rest : length (drop (off - blk.start) blk.bytes) ≡ blk.end - off =
      omega (arith, entry.ends) in
    inr (
      i,
      key,
      blk,
      stands,
      same,
      above,
      below,
      refl,
      ap (min (suc (length ds))) size_rest,
      omega arith,
      refl,
    )

-- A read from a well-formed cache into a buffer that is not empty: on a miss nothing changes, and no
-- block of the file covers the offset; on a hit the buffer begins with the bytes of a block of the file that covers the
-- offset, from that offset on, as many as both hold and at least one, and ends as it was.
pub copy_to_reads :
    (c : RangeCache) (file_key : Str) (off d : ℕ) (ds : List ℕ) (now : ℕ)
    → IsValid c
    → ReadResult c file_key off (d ∷ ds) (copy_to c file_key off (d ∷ ds) now)
unfolding copy_to
copy_to_reads c file_key off d ds now v =
    finish_copy-ReadResult c file_key off d ds now _ v.shards_ok
      (touch_shards-Result file_key off now c.shards)

finish_copy-IsValid :
    (c : RangeCache) (file_key : Str) (off : ℕ) (dst : List ℕ) (now : ℕ)
    (o : Option (RangeBlock × List Shard))
    → IsValid c
    → Result file_key off now c.shards o
    → IsValid (finish_copy c off dst o).0
unfolding finish_copy
finish_copy-IsValid c file_key off dst now none v h = v
finish_copy-IsValid c file_key off dst now (some (blk, shards')) v h =
    let (ok, bytes, n, count) = TouchedIn-ok file_key off now 0 h v.shards_ok in
    record { sharded = n ∙ v.sharded; accounted = v.accounted ∙ ap pos (sym bytes); shards_ok = ok }

pub copy_to-IsValid :
    (c : RangeCache) (file_key : Str) (off : ℕ) (dst : List ℕ) (now : ℕ)
    → IsValid c
    → IsValid (copy_to c file_key off dst now).0
unfolding copy_to
copy_to-IsValid c file_key off [] now v = v
copy_to-IsValid c file_key off (d ∷ ds) now v =
    finish_copy-IsValid c file_key off (d ∷ ds) now _ v
      (touch_shards-Result file_key off now c.shards)

-- A read changes neither the budget nor a counter of the cache.
pub copy_to-kept :
    (c : RangeCache) (file_key : Str) (off : ℕ) (dst : List ℕ) (now : ℕ)
    → ((copy_to c file_key off dst now).0.budget ≡ c.budget)
      × ((copy_to c file_key off dst now).0.counters ≡ c.counters)
unfolding copy_to finish_copy
copy_to-kept c file_key off [] now = (refl, refl)
copy_to-kept c file_key off (d ∷ ds) now =
    elim (Option-cases (touch_shards file_key off now c.shards)) [
      | inl e ↦ rw (e, finish_copy) (refl, refl)
      | inr (r, e) ↦ rw (e, finish_copy) (refl, refl)
    ]
