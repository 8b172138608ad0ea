-- ===== src/Cache/History.antt =====
-- Any sequence of calls on a new RangeCache.
use torbox_fuse_go.Base.{
  suc, int_laws, ◌⊎◌, inl, inr, arith, ℕ, zero, suc, ◌≡◌, refl, ◌∙◌, Option, none, some, List, [],
  ◌∷◌, Str, ℤ, pos, ◌≤ℤ◌, replicate,
}
use torbox_fuse_go.Cache.Types.{RangeCache, CacheMetrics, new_range_cache, num_shards}
use torbox_fuse_go.Cache.Ops.{copy_to}
use torbox_fuse_go.Cache.Evict.{put_block, evict_stale, block_count}
use torbox_fuse_go.Cache.Invariant.{Measures, IsValid, ShardsOk, total}
use torbox_fuse_go.Cache.Insertion.{put_block-within_budget}
use torbox_fuse_go.Cache.Reads.{copy_to-IsValid, copy_to-kept}
use torbox_fuse_go.Cache.Stale.{evict_stale-Stands, evict_stale-total-le}
use torbox_fuse_go.Cache.Measures.{Gauged}
use torbox_fuse_go.Cache.Gauges.{put_block-Gauged, copy_to-Gauged, evict_stale-Gauged}

-- The calls that change a cache, with the reading of the clock that each makes.
pub data Call : Type 0 where
  puts : (file_key : Str) (start : ℕ) (bytes : List ℕ) (session_id : ℤ) (priority now : ℕ) → Call
  copies : (file_key : Str) (off : ℕ) (dst : List ℕ) (now : ℕ) → Call
  drops_stale : (file_key : Str) (current_session : ℤ) → Call

unfoldable pub step : RangeCache → Call → Option RangeCache
step c (puts file_key start bytes session_id priority now) =
    put_block c file_key start bytes session_id priority now
step c (copies file_key off dst now) = some (copy_to c file_key off dst now).0
step c (drops_stale file_key current_session) = some (evict_stale c file_key current_session)

infixl 5 ◌>>=◌
abbrev pub ◌>>=◌ {ℓ κ} : {A : Type ℓ} {B : Type κ} → Option A → (A → Option B) → Option B
none >>= f = none
some a >>= f = f a

unfoldable pub run : RangeCache → List Call → Option RangeCache
run c [] = some c
run c (call ∷ calls) = do c' ← step c call; run c' calls

-- What holds between two calls.
pub record Holds (budget : ℤ) (c : RangeCache) : Type 0 where
  pub valid : IsValid c
  pub same_budget : c.budget ≡ budget
  pub within : c.used ≤ℤ c.budget
  pub gauged : Gauged c.counters (block_count c.shards)

step-Holds :
    (budget : ℤ) (c : RangeCache) (call : Call)
    → pos 0 ≤ℤ budget
    → Holds budget c
    → (c' : RangeCache) × (step c call ≡ some c') × Holds budget c'
unfolding step
step-Holds budget c (puts file_key start bytes session_id priority now) b h =
    let (c', e, valid, same, within, _) =
      put_block-within_budget c file_key start bytes session_id priority now h.valid
        (rw h.same_budget b) h.within in
    (
      c',
      e,
      record {
        valid = valid;
        same_budget = same ∙ h.same_budget;
        within = within;
        gauged = put_block-Gauged c file_key start bytes session_id priority now h.valid h.gauged e;
      },
    )
step-Holds budget c (copies file_key off dst now) b h =
    let (same, used) = copy_to-kept c file_key off dst now in
    (
      (copy_to c file_key off dst now).0,
      refl,
      record {
        valid = copy_to-IsValid c file_key off dst now h.valid;
        same_budget = same ∙ h.same_budget;
        within = rw (same, used) h.within;
        gauged = copy_to-Gauged c file_key off dst now h.valid h.gauged;
      },
    )
step-Holds budget c (drops_stale file_key current_session) b h =
    let (valid, same, _) = evict_stale-Stands file_key current_session c h.valid in
    let less = evict_stale-total-le file_key current_session c in
    let below : pos (total c.shards) ≤ℤ c.budget = rw h.valid.accounted at h.within in
    (
      evict_stale c file_key current_session,
      refl,
      record {
        valid = valid;
        same_budget = same ∙ h.same_budget;
        within = rw (valid.accounted, same) (omega arith);
        gauged = evict_stale-Gauged file_key current_session c h.valid h.gauged;
      },
    )

run-from :
    (budget : ℤ) (c : RangeCache) (calls : List Call)
    → pos 0 ≤ℤ budget
    → Holds budget c
    → (c' : RangeCache) × (run c calls ≡ some c') × Holds budget c'
unfolding run
run-from budget c [] b h = (c, refl, h)
run-from budget c (call ∷ calls) b h =
    let (c', e, h') = step-Holds budget c call b h in rw e (run-from budget c' calls b h')

-- A collector whose gauges are at zero.
abbrev pub zeroed : CacheMetrics
zeroed = record { bytes_total = pos 0; bytes_active = pos 0; bytes_stale = pos 0; entries = pos 0 }

empty-ShardsOk : (i n : ℕ) → ShardsOk i (replicate n [])
empty-ShardsOk i zero = tt
empty-ShardsOk i (suc n) = (record { entries = tt; distinct = tt }, empty-ShardsOk (suc i) n)

zero-Measures : (m : Option CacheMetrics) → (m ≡ none) ⊎ (m ≡ some zeroed) → Measures m (pos 0) 0
zero-Measures m (inl e) = rw e tt
zero-Measures m (inr e) = rw e (refl, refl, omega int_laws)

pub new-IsValid : (budget : ℤ) (m : Option CacheMetrics) → IsValid (new_range_cache budget m)
unfolding new_range_cache
new-IsValid budget m = record {
  sharded = refl;
  accounted = refl;
  shards_ok = empty-ShardsOk 0 num_shards;
}

-- On a new cache with a budget of at least zero and no metrics, or gauges at zero, every call ends, and
-- after any calls, in any order, the cache is well formed, within its budget, and measured by its
-- gauges.
pub run-Holds :
    (budget : ℤ) (m : Option CacheMetrics) (calls : List Call)
    → pos 0 ≤ℤ budget
    → (m ≡ none) ⊎ (m ≡ some zeroed)
    → (c : RangeCache) × (run (new_range_cache budget m) calls ≡ some c) × Holds budget c
unfolding new_range_cache
run-Holds budget m calls b z = run-from budget (new_range_cache budget m) calls b (record {
  valid = record { sharded = refl; accounted = refl; shards_ok = empty-ShardsOk 0 num_shards };
  same_budget = refl;
  within = b;
  gauged = zero-Measures m z;
})
