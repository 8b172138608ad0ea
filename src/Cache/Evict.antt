-- ===== src/Cache/Evict.antt =====
-- Eviction and insertion in internal/cache/range.go. The order of the shards, and of a map inside
-- its shard, is the order in which the loops visit the blocks.
use torbox_fuse_go.Base.{
  ℕ, zero, suc, ◌+◌, Bool, true, ◌&&◌, Option, none, some, List, [], ◌∷◌, Str, str_eq, ℤ, pos,
  ltb_ℤ, if◌then◌else◌, length, sum_of, set, ltb, ◌==◌, lookup, delete,
}
use torbox_fuse_go.Cache.Types.{
  CacheKey, CacheKey-discrete, RangeBlock, Shard, Counters, RangeCache, priority_low, size,
}
use torbox_fuse_go.Cache.Ops.{shard_at, count_inserted, count_evicted, count_stale, insert_block}

pub record Candidate : Type 0 where
  pub key : CacheKey
  pub shard : ℕ
  pub last_access : ℕ

-- `lowCand` and `highCand`.
pub record Candidates : Type 0 where
  pub low : Option Candidate
  pub high : Option Candidate

-- `best == nil || la < best.lastAccess`
abbrev pub better : ℕ → Option Candidate → Bool
better la none = true
better la (some best) = ltb la best.last_access

unfoldable pub consider : ℕ → CacheKey × RangeBlock → Candidates → Candidates
consider i (key, blk) cs =
    let la = blk.last_access in
    let cand : Candidate = record { key = key; shard = i; last_access = la } in
    if blk.priority == priority_low
    then (if better la cs.low then record cs { low = some cand } else cs)
    else (if better la cs.high then record cs { high = some cand } else cs)

unfoldable pub scan_shard : ℕ → Shard → Candidates → Candidates
scan_shard i [] cs = cs
scan_shard i (e ∷ sh) cs = scan_shard i sh (consider i e cs)

unfoldable pub scan_shards : ℕ → List Shard → Candidates → Candidates
scan_shards i [] cs = cs
scan_shards i (sh ∷ shards) cs = scan_shards (suc i) shards (scan_shard i sh cs)

-- `evict := lowCand; if evict == nil { evict = highCand }`
unfoldable pub choose : Candidates → Option Candidate
choose cs = elim cs.low [ some cand ↦ some cand | none ↦ cs.high ]

unfoldable pub candidate : RangeCache → Option Candidate
candidate c = choose (scan_shards 0 c.shards (record { low = none; high = none }))

-- The critical section at the end of evictOne.
unfoldable pub remove_block : RangeCache → Candidate → RangeCache
remove_block c cand =
    let sh = shard_at c.shards cand.shard in
    elim (lookup CacheKey-discrete cand.key sh) [
      | none ↦ c
      | some blk ↦ record c {
        shards = set c.shards cand.shard (delete CacheKey-discrete cand.key sh);
        counters = count_evicted (size blk) c.counters;
      }
    ]

unfoldable pub evict_one : RangeCache → RangeCache
evict_one c = elim (candidate c) [ none ↦ c | some cand ↦ remove_block c cand ]

-- The loop of evict, with fuel: `none` means that it has not come to its end.
unfoldable pub evict_loop : ℕ → RangeCache → Option RangeCache
evict_loop zero c = none
evict_loop (suc fuel) c =
    let rest = evict_loop fuel (evict_one c) in if ltb_ℤ c.budget c.used then rest else some c

abbrev pub block_count : List Shard → ℕ
block_count = sum_of length

-- One round for each block, and one for the test that ends the loop.
unfoldable pub evict : RangeCache → Option RangeCache
evict c = evict_loop (suc (block_count c.shards)) c

-- putBlock up to its call of evict: the block is stored, and then counted.
unfoldable pub store : RangeCache → CacheKey → RangeBlock → RangeCache
store c key blk =
    let stored = insert_block c key blk in
    record stored { counters = count_inserted (size blk) stored.counters }

-- `buf` is a copy of the caller's bytes.
abbrev pub new_block : ℕ → List ℕ → ℤ → ℕ → ℕ → RangeBlock
new_block start bytes session_id priority now = record {
  start = start;
  end = start + length bytes;
  bytes = bytes;
  session_id = session_id;
  priority = priority;
  last_access = now;
}

-- putBlock: `none` if its eviction does not come to an end.
unfoldable pub put_block : RangeCache → Str → ℕ → List ℕ → ℤ → ℕ → ℕ → Option RangeCache
put_block c file_key start [] session_id priority now = some c
put_block c file_key start (b ∷ bs) session_id priority now =
    let key : CacheKey = record { file_key = file_key; start = start } in
    evict (store c key (new_block start (b ∷ bs) session_id priority now))

unfoldable pub put : RangeCache → Str → ℕ → List ℕ → ℕ → Option RangeCache
put c file_key start bytes now = put_block c file_key start bytes (pos 0) priority_low now

unfoldable pub put_with_priority : RangeCache → Str → ℕ → List ℕ → ℕ → ℕ → Option RangeCache
put_with_priority c file_key start bytes priority now =
    put_block c file_key start bytes (pos 0) priority now

unfoldable pub put_with_session : RangeCache → Str → ℕ → List ℕ → ℤ → ℕ → Option RangeCache
put_with_session c file_key start bytes session_id now =
    put_block c file_key start bytes session_id priority_low now

unfoldable pub is_stale : Str → ℤ → CacheKey × RangeBlock → Bool
is_stale file_key current_session (key, blk) =
    str_eq key.file_key file_key
    && ltb_ℤ (pos 0) blk.session_id
    && ltb_ℤ blk.session_id current_session

unfoldable pub evict_stale_shard : Str → ℤ → Shard → Counters → Shard × Counters
evict_stale_shard file_key current_session [] n = ([], n)
evict_stale_shard file_key current_session (e ∷ sh) n =
    let old = is_stale file_key current_session e in
    let (sh', n') =
      evict_stale_shard file_key current_session sh (if old then count_stale (size e.1) n else n) in
    (if old then sh' else e ∷ sh', n')

unfoldable pub evict_stale_shards : Str → ℤ → List Shard → Counters → List Shard × Counters
evict_stale_shards file_key current_session [] n = ([], n)
evict_stale_shards file_key current_session (sh ∷ shards) n =
    let (sh', n') = evict_stale_shard file_key current_session sh n in
    let (shards', n'') = evict_stale_shards file_key current_session shards n' in
    (sh' ∷ shards', n'')

unfoldable pub evict_stale : RangeCache → Str → ℤ → RangeCache
evict_stale c file_key current_session =
    let (shards', n) = evict_stale_shards file_key current_session c.shards c.counters in
    record c { shards = shards'; counters = n }
