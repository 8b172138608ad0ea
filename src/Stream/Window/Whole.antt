-- ===== src/Stream/Window/Whole.antt =====
-- A window that lies in the cache as a whole.
use torbox_fuse_go.Base.{
  length-take, ℕ, zero, suc, ◌<◌, ◌≤◌, ◌≡◌, refl, ap, sym, ◌∙◌, subst, List, [], ◌∷◌, ◌++◌, true,
  arith, length, inl, inr, Option, none, some, Str, lookup, Option-cases, take, drop, replicate,
  min,
}
use mathlib.Core.List.{append-nil}
use torbox_fuse_go.Cache.Types.{CacheKey-discrete, RangeBlock, RangeCache}
use torbox_fuse_go.Cache.Ops.{copy_to, cached_prefix_len}
use torbox_fuse_go.Cache.Invariant.{shard_of}
use torbox_fuse_go.Stream.Window.{Fetch, prefix_or_zero, fill_from_cache}
use torbox_fuse_go.Stream.Window.Content.{Matches, Matches-take}
use torbox_fuse_go.Stream.Window.Prefix.{length-replicate, own_key, cached_hit}
use torbox_fuse_go.Stream.Window.Sane.{CacheOk, copy-CacheOk, put-CacheOk, Sane}

drop_all : (n : ℕ) (xs : List ℕ) → length xs ≤ n → drop n xs ≡ []
drop_all zero [] h = refl
drop_all zero (x ∷ xs) h = absurd (omega arith)
drop_all (suc n) [] h = refl
drop_all (suc n) (x ∷ xs) h = drop_all n xs (omega arith)

module _ (content : ℕ → ℕ) (file_key : Str) (start : ℕ) where
  pub prefix_of :
      (c : RangeCache) (o : Option RangeBlock)
      → lookup CacheKey-discrete
          (own_key content file_key start)
          (shard_of c (own_key content file_key start))
        ≡ o
      → prefix_or_zero (cached_prefix_len c file_key start)
        ≡ elim o [ none ↦ 0 | some blk ↦ length blk.bytes ]
  unfolding cached_prefix_len
  prefix_of c none e = rw (e, cached_prefix_len) refl
  prefix_of c (some blk) e = rw (e, cached_prefix_len) refl

  pub fill_found :
      (w prio now : ℕ) (f : Fetch) (blk : RangeBlock)
      → f.window.start ≡ start
      → CacheOk content file_key start f.cache
      → lookup CacheKey-discrete
          (own_key content file_key start)
          (shard_of f.cache (own_key content file_key start))
        ≡ some blk
      → suc w ≤ length blk.bytes
      → (f' : Fetch) × (fill_from_cache file_key (suc w) prio now f ≡ some f')
        × Sane content file_key start f'
  unfolding fill_from_cache
  fill_found w prio now f blk s ok e le =
      let at = f.window.start in
      let copied = copy_to f.cache file_key at (0 ∷ replicate w 0) now in
      let (n, dst, matches, _) : (copied.1.n
            ≡ min (suc (length {A = ℕ} (replicate w 0))) (length blk.bytes))
          × (copied.1.dst ≡ take copied.1.n blk.bytes ++ drop copied.1.n (0 ∷ replicate w 0))
          × Matches content start blk.bytes
          × (0 < length blk.bytes) =
        rw s (
          cached_hit content file_key start f.cache blk 0 (replicate w 0) now ok.valid ok.sole e) in
      let count : copied.1.n ≡ suc w = omega (arith, n, length-replicate w 0) in
      let rest : drop copied.1.n (0 ∷ replicate w 0) ≡ [] =
        drop_all copied.1.n (0 ∷ replicate w 0) (omega (arith, count, length-replicate w 0)) in
      let buf : copied.1.dst ≡ take copied.1.n blk.bytes =
        dst
        ∙ ap (λ ys. take copied.1.n blk.bytes ++ ys) rest
        ∙ append-nil (take copied.1.n blk.bytes) in
      let size : copied.1.n ≡ length copied.1.dst =
        sym (ap length buf ∙ length-take copied.1.n blk.bytes ∙ omega (arith, count)) in
      let bytes : Matches content at copied.1.dst = rw buf (
        subst (λ m. Matches content m (take copied.1.n blk.bytes)) (sym s)
          (Matches-take content copied.1.n start blk.bytes matches)) in
      let (c', e', ok') =
        put-CacheOk content file_key start copied.0 at copied.1.dst prio now
          (copy-CacheOk content file_key start f.cache at _ now ok) s bytes in
      (
        record {
          cache = c';
          window = record (f.window) {
            buf = copied.1.dst;
            total = copied.1.n;
            ready_to = copied.1.n;
            done = true;
          };
        },
        rw (e', fill_from_cache) refl,
        record { placed = s; faithful = record { matches = bytes; ready = size }; cache_ok = ok' },
      )

  -- The window lies in the cache as a whole: its bytes are copied, and stored once more.
  pub fill_from_cache-Sane :
      (window_len prio now : ℕ) (f : Fetch)
      → f.window.start ≡ start
      → CacheOk content file_key start f.cache
      → window_len ≤ prefix_or_zero (cached_prefix_len f.cache file_key start)
      → (f' : Fetch) × (fill_from_cache file_key window_len prio now f ≡ some f')
        × Sane content file_key start f'
  unfolding fill_from_cache copy_to
  fill_from_cache-Sane zero prio now f s ok le =
      let (c', e, ok') =
        put-CacheOk content file_key start f.cache f.window.start [] prio now ok s tt in
      (
        record {
          cache = c';
          window = record (f.window) { buf = []; total = 0; ready_to = 0; done = true };
        },
        rw (e, fill_from_cache) refl,
        record { placed = s; faithful = record { matches = tt; ready = refl }; cache_ok = ok' },
      )
  fill_from_cache-Sane (suc w) prio now f s ok le =
      elim (Option-cases (
        lookup CacheKey-discrete (own_key content file_key start)
          (shard_of f.cache (own_key content file_key start)))) [
            | inl e ↦ absurd (omega (arith, prefix_of f.cache none e))
            | inr (blk, e) ↦
                fill_found w prio now f blk s ok e (omega (arith, prefix_of f.cache (some blk) e))
          ]
