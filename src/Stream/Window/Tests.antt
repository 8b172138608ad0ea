-- ===== src/Stream/Window/Tests.antt =====
-- A window of four bytes at offset 4 of a file that holds its offsets, over an empty cache, and over
-- a cache in which another block ends behind the start of the window.
use torbox_fuse_go.Base.{
  zero, suc, delete, insert, lookup, ◌-ℤ◌, ◌+ℤ◌, ℕ_discrete, Str-discrete, ℕ, ◌≡◌, refl, false,
  some, none, [], ◌∷◌, inl, inr, Str, str, pos, arith, length, ◌+◌, Option, get_or,
}
use torbox_fuse_go.Cache.Types.{
  RangeCache, new_range_cache, shard_index, CacheKey-discrete, fnv32_from,
}
use torbox_fuse_go.Cache.Ops.{
  insert_block, count_inserted, cached_prefix_len, copy, copy_to, count_evicted, count_overwritten,
  covers, finish_copy, touch_shard, touch_shards,
}
use torbox_fuse_go.Cache.Evict.{
  put, put_block, evict, evict_loop, store, candidate, choose, consider, evict_one,
  put_with_priority, remove_block, scan_shard, scan_shards,
}
use torbox_fuse_go.Cache.History.{◌>>=◌}
use torbox_fuse_go.Stream.Window.{
  http_status, Window, Fetch, Round, eof, reads, stream_into, fetch_window, look_at, fetch_loop,
  attempt_fetch, after_stream, append_chunk, fill_from_cache, is_retryable, prefill,
}
use torbox_fuse_go.Stream.Window.Fill.{stream_into_drift}
use torbox_fuse_go.Stream.Window.Sane.{Sane}
use torbox_fuse_go.Stream.Window.Wait.{LookOk, look_at-LookOk}

abbrev offsets : ℕ → ℕ
offsets n = n

abbrev file : Str
file = str "t"

abbrev fresh : Window
fresh = record {
  start = 4;
  file_size = 8;
  buf = [];
  ready_to = 0;
  total = 0;
  err = none;
  done = false;
}

abbrev empty_cache : RangeCache
empty_cache = new_range_cache (pos 100) none

-- The first request fails with 503, the second one gets the bytes in two reads.
abbrev flaky : ℕ → Round
flaky zero = record { cancelled = false; answer = λ a b. inl (http_status 503); now = 1 }
flaky (suc k) = record {
  cancelled = false;
  answer = λ a b. inr (reads (a ∷ suc a ∷ []) false (eof ((a + 2) ∷ (a + 3) ∷ [])));
  now = 2;
}

abbrev fetch : Fetch
fetch = record { cache = empty_cache; window = fresh }

abbrev half : Window
half = record {
  start = 4;
  file_size = 8;
  buf = 4 ∷ 5 ∷ [];
  ready_to = 2;
  total = 2;
  err = none;
  done = false;
}

look_at-LookOk_example : LookOk offsets false half 5 1 (look_at false half 5 1)
look_at-LookOk_example =
    look_at-LookOk offsets false half 5 1 (record { matches = (refl, (refl, tt)); ready = refl })
      (omega arith) (omega arith)

-- One byte of a prefix of three was copied: the next bytes stand two places too early.
abbrev one_of_three : Window
one_of_three = record {
  start = 4;
  file_size = 8;
  buf = 4 ∷ [];
  ready_to = 1;
  total = 1;
  err = none;
  done = false;
}

stream_into_drift_example :
    let r = stream_into 3 0 one_of_three (eof (7 ∷ [])) in
    (r.0.buf ≡ 4 ∷ 7 ∷ []) × (r.1 ≡ 1) × (r.0.ready_to + 1 ≡ 3 + length r.0.buf)
stream_into_drift_example = stream_into_drift 3 one_of_three (eof (7 ∷ [])) (omega arith)

-- With the blocks [3, 5) and [4, 7) in the cache, both with the file's bytes, fetchWindow asks for the
-- byte at 7 only, puts it behind the one byte that it copied, and a reader at offset 5 gets it.
abbrev after_overlap : Option ℕ
after_overlap = do
  c ← put empty_cache file 3 (3 ∷ 4 ∷ []) 1
  c' ← put c file 4 (4 ∷ 5 ∷ 6 ∷ []) 2
  f ←
      fetch_window 4 0 file
        (λ k. record { cancelled = false; answer = λ a b. inr (eof (a ∷ [])); now = 3 }) none
        (record { cache = c'; window = fresh })
  some (get_or f.window.buf 1 0)

overlap_runs : after_overlap ≡ some 7
unfolding put put_block evict evict_loop store insert_block new_range_cache count_inserted ◌+ℤ◌ ◌-ℤ◌
    lookup insert delete shard_index fetch_window fetch_loop attempt_fetch cached_prefix_len
    CacheKey-discrete ℕ_discrete Str-discrete candidate choose consider evict_one put_with_priority
    remove_block scan_shard scan_shards copy copy_to count_evicted count_overwritten covers
    finish_copy touch_shard touch_shards fnv32_from after_stream append_chunk fill_from_cache
    is_retryable prefill stream_into
overlap_runs = refl
