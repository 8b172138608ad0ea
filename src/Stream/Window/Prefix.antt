-- ===== src/Stream/Window/Prefix.antt =====
-- What fetchWindow takes out of the cache: the bytes of the block that begins where the window does.
use torbox_fuse_go.Base.{
  ℕ, zero, suc, ◌-◌, ◌<◌, ◌≤◌, ◌≡◌, refl, ap, sym, ◌∙◌, subst, List, [], ◌∷◌, ◌++◌, arith, length,
  length-take, inl, inr, some, Str, All-lookup, lookup, Option-cases, some-injective, take, drop,
  replicate, min,
}
use torbox_fuse_go.Cache.Types.{CacheKey, CacheKey-discrete, RangeBlock, RangeCache, shard_index}
use torbox_fuse_go.Cache.Ops.{copy_to, cached_prefix_len, shard_at}
use torbox_fuse_go.Cache.Invariant.{IsValid, EntryOk, ShardsOk-at, shard_of}
use torbox_fuse_go.Cache.Reads.{copy_to_reads, Uncovered}
use torbox_fuse_go.Cache.Kept.{Throughout, Throughout-at}
use torbox_fuse_go.Stream.Window.{Fetch, prefill, prefix_or_zero}
use torbox_fuse_go.Stream.Window.Content.{Matches, Matches-take}
use torbox_fuse_go.Stream.Window.Fill.{Faithful}

pub length-replicate : (k a : ℕ) → length (replicate k a) ≡ k
length-replicate zero a = refl
length-replicate (suc k) a = ap suc (length-replicate k a)

pub take-take : (n : ℕ) (xs ys : List ℕ) → n ≤ length xs → take n (take n xs ++ ys) ≡ take n xs
take-take zero xs ys h = refl
take-take (suc n) [] ys h = absurd (omega arith)
take-take (suc n) (x ∷ xs) ys h = ap (λ zs. x ∷ zs) (take-take n xs ys (omega arith))

module _ (content : ℕ → ℕ) (file_key : Str) (start : ℕ) where
  -- The file's blocks hold its bytes, and of them only one that begins at `start` covers `start`.
  abbrev pub Sole : CacheKey × RangeBlock → Type 0
  Sole e =
      e.0.file_key ≡ file_key
      → Matches content e.0.start e.1.bytes
        × (e.1.start ≤ start → start < e.1.end → e.0.start ≡ start)

  pub Sole-touched :
      (key : CacheKey) (blk : RangeBlock) (now : ℕ)
      → Sole (key, blk)
      → Sole (key, record blk { last_access = now })
  Sole-touched key blk now h = h

  same_key :
      (key : CacheKey)
      → key.file_key ≡ file_key
      → key.start ≡ start
      → key ≡ record { file_key = file_key; start = start }
  same_key key e f = rw (← e, ← f) refl

  abbrev pub own_key : CacheKey
  own_key = record { file_key = file_key; start = start }

  -- A read at the start of a cached block copies that block.
  pub cached_hit :
      (c : RangeCache) (blk : RangeBlock) (d : ℕ) (ds : List ℕ) (now : ℕ)
      → IsValid c
      → Throughout Sole c
      → lookup CacheKey-discrete own_key (shard_of c own_key) ≡ some blk
      → let r = (copy_to c file_key start (d ∷ ds) now).1 in
        (r.n ≡ min (length (d ∷ ds)) (length blk.bytes))
        × (r.dst ≡ take r.n blk.bytes ++ drop r.n (d ∷ ds))
        × Matches content start blk.bytes
        × (0 < length blk.bytes)
  cached_hit c blk d ds now v sole found =
      let i = shard_index file_key start in
      let entries = (ShardsOk-at 0 i i c.shards (omega arith) v.shards_ok).entries in
      let entry = All-lookup CacheKey-discrete (EntryOk i) own_key _ entries found in
      let (matches, _) =
        All-lookup CacheKey-discrete Sole own_key _ (Throughout-at Sole c.shards i sole) found
          refl in
      elim (copy_to_reads c file_key start d ds now v) [
        | inl (_, _, _, _, uncovered) ↦
            let gap =
              All-lookup CacheKey-discrete (Uncovered file_key start) own_key _
                (Throughout-at (Uncovered file_key start) c.shards i uncovered) found refl in
            let out : blk.end ≤ start = gap (omega (arith, entry.starts)) in
            absurd (omega (arith, out, entry.starts, entry.ends, entry.filled))
        | inr (j, key, hit, stands, own, above, inside, _, n, _, dst) ↦
            let entry' =
              All-lookup CacheKey-discrete (EntryOk j) key _
                (ShardsOk-at 0 j j c.shards (omega arith) v.shards_ok).entries stands in
            let (_, alone) =
              All-lookup CacheKey-discrete Sole key _ (Throughout-at Sole c.shards j sole) stands
                own in
            let same = same_key key own (alone above inside) in
            let shard : j ≡ i =
              sym entry'.placed ∙ ap (λ (k : CacheKey). shard_index k.file_key k.start) same in
            let here : lookup CacheKey-discrete own_key (shard_at c.shards i) ≡ some hit =
              subst (λ k. lookup CacheKey-discrete own_key (shard_at c.shards k) ≡ some hit) shard
                (subst (λ k. lookup CacheKey-discrete k (shard_at c.shards j) ≡ some hit) same
                  stands) in
            let bytes : hit.bytes ≡ blk.bytes =
              ap (λ (b : RangeBlock). b.bytes) (some-injective hit blk (sym here ∙ found)) in
            let size = ap length bytes in
            let begins : start - hit.start ≡ 0 = omega (arith, entry'.starts, alone above inside) in
            let all : drop (start - hit.start) hit.bytes ≡ blk.bytes =
              ap (λ k. drop k hit.bytes) begins ∙ bytes in
            let ends : hit.end - start ≡ length blk.bytes =
              omega (arith, entry'.starts, entry'.ends, alone above inside) in
            let r = (copy_to c file_key start (d ∷ ds) now).1 in
            (
              n ∙ ap (min (length (d ∷ ds))) ends,
              dst ∙ ap (λ xs. take r.n xs ++ drop r.n (d ∷ ds)) all,
              matches,
              entry.filled,
            )
      ]

  -- The first `k` bytes of the window stand in its buffer.
  abbrev pub PrefillOk : ℕ → ℕ → Fetch → Type 0
  PrefillOk k now f =
      let f' = prefill file_key k now f in
      Faithful content f'.window × (length f'.window.buf ≡ k) × (f'.window.start ≡ start)

  prefill-hit :
      (f : Fetch) (now : ℕ) (blk : RangeBlock) (k : ℕ)
      → IsValid f.cache
      → Throughout Sole f.cache
      → f.window.start ≡ start
      → f.window.ready_to ≡ 0
      → lookup CacheKey-discrete own_key (shard_of f.cache own_key) ≡ some blk
      → length blk.bytes ≡ k
      → PrefillOk k now f
  unfolding prefill
  prefill-hit f now blk zero v sole s r e len = (record { matches = tt; ready = r }, refl, s)
  prefill-hit f now blk (suc k) v sole s r e len =
      let (n, dst, matches, _) = cached_hit f.cache blk 0 (replicate k 0) now v sole e in
      let res = (copy_to f.cache file_key start (0 ∷ replicate k 0) now).1 in
      let count : res.n ≡ suc k = omega (arith, n, length-replicate k 0, len) in
      let taken : take res.n res.dst ≡ take res.n blk.bytes =
        ap (take res.n) dst ∙ take-take res.n blk.bytes _ (omega (arith, count, len)) in
      let size : length (take res.n res.dst) ≡ suc k =
        ap length taken ∙ length-take res.n blk.bytes ∙ omega (arith, count, len) in
      let bytes : Matches content start (take res.n res.dst) =
        rw taken (Matches-take content res.n start blk.bytes matches) in
      (record { matches = rw s bytes; ready = ap length (rw s refl) }, rw s size, s)

  -- The prefix that fetchWindow puts into the buffer is as long as the cache said.
  pub prefill-Faithful :
      (f : Fetch) (now : ℕ)
      → IsValid f.cache
      → Throughout Sole f.cache
      → f.window.start ≡ start
      → f.window.ready_to ≡ 0
      → PrefillOk (prefix_or_zero (cached_prefix_len f.cache file_key f.window.start)) now f
  unfolding prefill cached_prefix_len
  prefill-Faithful f now v sole s r =
      let at = ap (λ k. prefix_or_zero (cached_prefix_len f.cache file_key k)) s in
      subst (λ k. PrefillOk k now f) (sym at)
        (elim (Option-cases (lookup CacheKey-discrete own_key (shard_of f.cache own_key))) [
          | inl e ↦ rw (e, prefix_or_zero) (record { matches = tt; ready = r }, refl, s)
          | inr (blk, e) ↦ rw (e, prefix_or_zero) (prefill-hit f now blk _ v sole s r e refl)
        ])
