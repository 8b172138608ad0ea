-- ===== src/Cache/Gauges.antt =====
-- The gauges that the cache keeps in metrics.Metrics follow its blocks.
use torbox_fuse_go.Base.{
  ℕ, zero, suc, ◌+◌, ◌-◌, ◌<◌, ◌≤◌, ◌≡◌, refl, sym, ap, subst, ◌∙◌, Option, none, some, List, [],
  ◌∷◌, inl, inr, arith, Str, ℤ, pos, ltb_ℤ, length, sum_of-set, get_or-le-sum_of, lookup, insert,
  length-insert, length-delete, count_at, some-injective, Option-cases, Bool-cases,
}
use torbox_fuse_go.Cache.Types.{
  CacheKey, CacheKey-discrete, RangeBlock, Shard, Counters, RangeCache, shard_index, shard_index-lt,
  size,
}
use torbox_fuse_go.Cache.Ops.{
  count_old, count_overwritten, count_inserted, count_stale, insert_block, finish_copy, copy_to,
}
use torbox_fuse_go.Cache.Evict.{
  Candidate, candidate, block_count, store, remove_block, evict_one, evict_loop, evict, put_block,
  new_block, is_stale, evict_stale_shard, evict_stale_shards, evict_stale,
}
use torbox_fuse_go.Cache.Invariant.{shard_bytes, total, IsValid, shard_of}
use torbox_fuse_go.Cache.Insertion.{store-IsValid}
use torbox_fuse_go.Cache.Touch.{Result, touch_shards-Result, TouchedIn-ok}
use torbox_fuse_go.Cache.Stale.{count_stale-used, stale_shard-used}
use torbox_fuse_go.Cache.Scan.{Stands, candidate-Precedes}
use torbox_fuse_go.Cache.Eviction.{
  remove_block-count, evict_one-step, Stands-fits, remove_block-counters,
}
use torbox_fuse_go.Cache.Measures.{
  Gauged, overwritten-Measures, inserted-Measures, evicted-Measures, stale-Measures,
}

stored-Measures :
    (n : ℕ) (o : Option RangeBlock) (c : Counters) (count count' : ℕ)
    → count' + count_at o ≡ suc count
    → count_at o ≤ count
    → Gauged c count
    → Gauged (count_inserted n (count_old o c)) count'
stored-Measures n none c count count' e le h =
    let e' : suc count ≡ count' = omega arith in
    subst (Gauged (count_inserted n c)) e' (inserted-Measures n c.metrics c.used count h)
stored-Measures n (some old) c count count' e le h =
    let one : count ≡ suc (count - 1) = omega arith in
    let e' : suc (count - 1) ≡ count' = omega arith in
    let c' = count_overwritten (size old) c in
    subst (Gauged (count_inserted n c')) e' (
      inserted-Measures n c'.metrics c'.used (count - 1)
        (overwritten-Measures (size old) c.metrics c.used (count - 1) (subst (Gauged c) one h)))

store-Gauged :
    (c : RangeCache) (key : CacheKey) (blk : RangeBlock)
    → IsValid c
    → Gauged c.counters (block_count c.shards)
    → Gauged (store c key blk).counters (block_count (store c key blk).shards)
unfolding store insert_block
store-Gauged c key blk v h =
    let i = shard_index key.file_key key.start in
    let sh = shard_of c key in
    let bound : i < length c.shards =
      omega (arith, shard_index-lt key.file_key key.start, v.sharded) in
    let moved = sum_of-set length c.shards i (insert CacheKey-discrete key blk sh) [] bound in
    let here = length-insert CacheKey-discrete key blk sh in
    let held = get_or-le-sum_of length c.shards i [] refl in
    let there = length-delete CacheKey-discrete key sh in
    stored-Measures (size blk) (lookup CacheKey-discrete key sh) c.counters (block_count c.shards) _
      (omega arith) (omega arith) h

remove_block-Gauged :
    (c : RangeCache) (cand : Candidate) (blk : RangeBlock)
    → Stands c.shards cand.shard (cand.key, blk)
    → IsValid c
    → Gauged c.counters (block_count c.shards)
    → Gauged (remove_block c cand).counters (block_count (remove_block c cand).shards)
remove_block-Gauged c cand blk stands v h =
    let fits = Stands-fits c cand blk stands in
    let less = remove_block-count c cand blk stands in
    let counted : block_count c.shards ≡ suc (block_count (remove_block c cand).shards) =
      omega arith in
    subst (λ n. Gauged n (block_count (remove_block c cand).shards))
      (sym (remove_block-counters c cand blk stands))
      (evicted-Measures (size blk) c.metrics c.used _ (total c.shards) v.accounted fits
        (subst (Gauged c.counters) counted h))

evict_one-Gauged :
    (c : RangeCache)
    → IsValid c
    → Gauged c.counters (block_count c.shards)
    → Gauged (evict_one c).counters (block_count (evict_one c).shards)
unfolding evict_one
evict_one-Gauged c v h = elim (Option-cases (candidate c)) [
  | inl e ↦ rw (e, evict_one) h
  | inr (cand, e) ↦
      let (blk, stands, _) = candidate-Precedes c cand v.shards_ok e in
      rw (e, evict_one) (remove_block-Gauged c cand blk stands v h)
]

evict_loop-Gauged :
    (fuel : ℕ) (c : RangeCache) {c' : RangeCache}
    → IsValid c
    → Gauged c.counters (block_count c.shards)
    → evict_loop fuel c ≡ some c'
    → Gauged c'.counters (block_count c'.shards)
unfolding evict_loop
evict_loop-Gauged zero c v h e = absurd (cc)
evict_loop-Gauged (suc fuel) c {c'} v h e = elim (Bool-cases (ltb_ℤ c.budget c.used)) [
  | inl over ↦
      evict_loop-Gauged fuel (evict_one c) (evict_one-step c v).0 (evict_one-Gauged c v h)
        (rw over at e)
  | inr done ↦
      subst (λ (x : RangeCache). Gauged x.counters (block_count x.shards))
        (some-injective c c' (rw done at e)) h
]

module _ (file_key : Str) (current : ℤ) where
  stale_shard-Gauged :
      (t u : ℕ) (sh : Shard) (n : Counters)
      → n.used ≡ pos (shard_bytes sh + t)
      → Gauged n (length sh + u)
      → Gauged
          (evict_stale_shard file_key current sh n).1
          (length (evict_stale_shard file_key current sh n).0 + u)
  unfolding evict_stale_shard
  stale_shard-Gauged t u [] n e h = h
  stale_shard-Gauged t u (x ∷ sh) n e h = elim (Bool-cases (is_stale file_key current x)) [
    | inl old ↦ rw old (
        stale_shard-Gauged t u sh (count_stale (size x.1) n)
          (count_stale-used (size x.1) n (shard_bytes sh + t) (e ∙ ap pos (omega arith)))
          (stale-Measures (size x.1) n.metrics n.used (length sh + u) _ e (omega arith)
            (subst (Gauged n) (omega arith) h)))
    | inr new ↦ rw new (
        subst (Gauged _) (omega arith) (
          stale_shard-Gauged (size x.1 + t) (suc u) sh n (e ∙ ap pos (omega arith))
            (subst (Gauged n) (omega arith) h)))
  ]

  stale_shards-Gauged :
      (t u : ℕ) (shards : List Shard) (n : Counters)
      → n.used ≡ pos (total shards + t)
      → Gauged n (block_count shards + u)
      → Gauged
          (evict_stale_shards file_key current shards n).1
          (block_count (evict_stale_shards file_key current shards n).0 + u)
  unfolding evict_stale_shards
  stale_shards-Gauged t u [] n e h = h
  stale_shards-Gauged t u (sh ∷ shards) n e h =
      let p = evict_stale_shard file_key current sh n in
      let here =
        stale_shard-used file_key current (total shards + t) sh n (e ∙ ap pos (omega arith)) in
      let gauged =
        stale_shard-Gauged (total shards + t) (block_count shards + u) sh n
          (e ∙ ap pos (omega arith)) (subst (Gauged n) (omega arith) h) in
      subst (Gauged _) (omega arith) (
        stale_shards-Gauged (shard_bytes p.0 + t) (length p.0 + u) shards p.1
          (here ∙ ap pos (omega arith)) (subst (Gauged p.1) (omega arith) gauged))

  pub evict_stale-Gauged :
      (c : RangeCache)
      → IsValid c
      → Gauged c.counters (block_count c.shards)
      → Gauged
          (evict_stale c file_key current).counters
          (block_count (evict_stale c file_key current).shards)
  unfolding evict_stale
  evict_stale-Gauged c v h = subst (Gauged _) (omega arith) (
      stale_shards-Gauged 0 0 c.shards c.counters (v.accounted ∙ ap pos (omega arith))
        (subst (Gauged c.counters) (omega arith) h))

pub put_block-Gauged :
    (c : RangeCache) (file_key : Str) (start : ℕ) (bytes : List ℕ) (session_id : ℤ)
    (priority now : ℕ) {c' : RangeCache}
    → IsValid c
    → Gauged c.counters (block_count c.shards)
    → put_block c file_key start bytes session_id priority now ≡ some c'
    → Gauged c'.counters (block_count c'.shards)
unfolding put_block evict
put_block-Gauged c file_key start [] session_id priority now {c'} v h e =
    subst (λ (x : RangeCache). Gauged x.counters (block_count x.shards)) (some-injective c c' e) h
put_block-Gauged c file_key start (x ∷ xs) session_id priority now v h e =
    let key : CacheKey = record { file_key = file_key; start = start } in
    let blk = new_block start (x ∷ xs) session_id priority now in
    evict_loop-Gauged _ (store c key blk) (store-IsValid c key blk refl refl (omega arith) v)
      (store-Gauged c key blk v h) e

copy-Gauged :
    (c : RangeCache) (file_key : Str) (off : ℕ) (dst : List ℕ) (now : ℕ)
    (o : Option (RangeBlock × List Shard))
    → IsValid c
    → Result file_key off now c.shards o
    → Gauged c.counters (block_count c.shards)
    → Gauged (finish_copy c off dst o).0.counters (block_count (finish_copy c off dst o).0.shards)
unfolding finish_copy
copy-Gauged c file_key off dst now none v r h = h
copy-Gauged c file_key off dst now (some (blk, shards')) v r h =
    let (_, _, _, count) = TouchedIn-ok file_key off now 0 r v.shards_ok in
    subst (Gauged c.counters) (sym count) h

pub copy_to-Gauged :
    (c : RangeCache) (file_key : Str) (off : ℕ) (dst : List ℕ) (now : ℕ)
    → IsValid c
    → Gauged c.counters (block_count c.shards)
    → Gauged
        (copy_to c file_key off dst now).0.counters
        (block_count (copy_to c file_key off dst now).0.shards)
unfolding copy_to
copy_to-Gauged c file_key off [] now v h = h
copy_to-Gauged c file_key off (d ∷ ds) now v h =
    copy-Gauged c file_key off (d ∷ ds) now _ v (touch_shards-Result file_key off now c.shards) h
