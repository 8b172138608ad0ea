-- ===== src/Stream/Window/Sane.antt =====
-- What fetchWindow keeps of a window and of the cache, through the end of a pass.
use torbox_fuse_go.Base.{
  ℕ, ◌≡◌, refl, List, Bool, ◌&&◌, ltb, leb, length, inl, inr, some, Str, Bool-cases, pos, ◌≤ℤ◌,
}
use torbox_fuse_go.Cache.Types.{RangeCache}
use torbox_fuse_go.Cache.Ops.{copy_to}
use torbox_fuse_go.Cache.Evict.{put_with_priority}
use torbox_fuse_go.Cache.Invariant.{IsValid}
use torbox_fuse_go.Cache.Insertion.{put_block-within_budget}
use torbox_fuse_go.Cache.Reads.{copy_to-IsValid, copy_to-kept}
use torbox_fuse_go.Cache.Kept.{Throughout, copy_to-Throughout, put_block-Throughout}
use torbox_fuse_go.Stream.Window.{
  FetchError, Window, Fetch, Next, returns, retries, fail_with, retry_or_fail, settle, after_stream,
  max_retries, is_retryable,
}
use torbox_fuse_go.Stream.Window.Content.{Matches}
use torbox_fuse_go.Stream.Window.Fill.{Faithful}
use torbox_fuse_go.Stream.Window.Prefix.{Sole, Sole-touched}

module _ (content : ℕ → ℕ) (file_key : Str) (start : ℕ) where
  -- A cache within its budget whose blocks of the file hold its bytes, without two over `start`.
  pub record CacheOk (c : RangeCache) : Type 0 where
    pub valid : IsValid c
    pub nonneg : pos 0 ≤ℤ c.budget
    pub within : c.used ≤ℤ c.budget
    pub sole : Throughout (Sole content file_key start) c

  pub copy-CacheOk :
      (c : RangeCache) (off : ℕ) (dst : List ℕ) (now : ℕ)
      → CacheOk c
      → CacheOk (copy_to c file_key off dst now).0
  copy-CacheOk c off dst now h =
      let (budget, counters) = copy_to-kept c file_key off dst now in
      record {
        valid = copy_to-IsValid c file_key off dst now h.valid;
        nonneg = rw budget h.nonneg;
        within = rw (budget, counters) h.within;
        sole =
            copy_to-Throughout (Sole content file_key start) (Sole-touched content file_key start) c
              file_key off dst now h.sole;
      }

  pub put-CacheOk :
      (c : RangeCache) (at : ℕ) (bytes : List ℕ) (priority now : ℕ)
      → CacheOk c
      → at ≡ start
      → Matches content at bytes
      → (c' : RangeCache) × (put_with_priority c file_key at bytes priority now ≡ some c')
        × CacheOk c'
  unfolding put_with_priority
  put-CacheOk c at bytes priority now h s m =
      let (c', e, valid, budget, within, _) =
        put_block-within_budget c file_key at bytes (pos 0) priority now h.valid h.nonneg
          h.within in
      (
        c',
        e,
        record {
          valid = valid;
          nonneg = rw budget h.nonneg;
          within = within;
          sole =
              put_block-Throughout (Sole content file_key start) c c' file_key at bytes (pos 0)
                priority now (λ own. (m, λ above inside. s)) e h.sole;
        },
      )

  -- A fetch that may go on or return: the window shows the file's bytes, and the cache too.
  pub record Sane (f : Fetch) : Type 0 where
    pub placed : f.window.start ≡ start
    pub faithful : Faithful content f.window
    pub cache_ok : CacheOk f.cache

  abbrev pub SaneNext : Next → Type 0
  SaneNext (returns f) = Sane f
  SaneNext (retries e f) = Sane f

  pub fails-Sane : (e : FetchError) (f : Fetch) → Sane f → Sane (fail_with e f)
  fails-Sane e f h = record {
    placed = h.placed;
    faithful = record { matches = h.faithful.matches; ready = h.faithful.ready };
    cache_ok = h.cache_ok;
  }

  pub retry_or_fail-Sane :
      (attempt : ℕ) (e : FetchError) (f : Fetch) → Sane f → SaneNext (retry_or_fail attempt e f)
  retry_or_fail-Sane attempt e f h = elim (Bool-cases (is_retryable e && ltb attempt max_retries)) [
    | inl again ↦ rw again h
    | inr last ↦ rw last (fails-Sane e f h)
  ]

  pub settle-Sane :
      (attempt fetched : ℕ) (success : Bool) (f : Fetch)
      → Sane f
      → SaneNext (settle attempt fetched success f)
  settle-Sane attempt fetched success f h =
      elim (Bool-cases (success && leb 1 (length f.window.buf))) [
        | inl whole ↦ rw whole (record {
          placed = h.placed;
          faithful = record { matches = h.faithful.matches; ready = h.faithful.ready };
          cache_ok = h.cache_ok;
        })
        | inr part ↦ rw part (retry_or_fail-Sane attempt _ f h)
      ]

  pub after_stream-Sane :
      (prio now attempt : ℕ) (cache : RangeCache) (win : Window) (fetched : ℕ) (success : Bool)
      → Faithful content win
      → win.start ≡ start
      → CacheOk cache
      → (next : Next) × (after_stream file_key prio now attempt cache (win, fetched, success)
          ≡ some next)
        × SaneNext next
  unfolding after_stream
  after_stream-Sane prio now attempt cache win fetched success f s ok =
      let (c', e, ok') = put-CacheOk cache win.start win.buf prio now ok s f.matches in
      (
        settle attempt fetched success (record { cache = c'; window = win }),
        rw (e, after_stream) refl,
        settle-Sane attempt fetched success (record { cache = c'; window = win })
            (record { placed = s; faithful = f; cache_ok = ok' }),
      )
