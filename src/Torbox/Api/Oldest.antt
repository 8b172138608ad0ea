-- ===== src/Torbox/Api/Oldest.antt =====
-- The entry that the eviction of apiGet finds, and the cache behind it.
use torbox_fuse_go.Base.{
  ℕ, suc, ◌+◌, ◌≤◌, ◌<◌, Bool, true, false, some, [], ◌∷◌, Str, Str-discrete, ltb, lookup, insert,
  delete, length, ◌≡◌, ◌≢◌, refl, sym, ap, ◌∙◌, arith, All, All-map, All-insert, All-delete,
  All-lookup, Distinct, Distinct-insert, Distinct-delete, ◌⊎◌, inl, inr, Bool-cases, ltb→lt, ltb→le,
  if_pos, if_neg, count_at, some-injective, lookup-delete_ne, length-delete, length-insert,
  lookup-insert, subst,
}
use torbox_fuse_go.Torbox.Api.{CacheEntry, ApiCache, find_oldest, remove_oldest, max_cache_entries}

module _ (P : Str → Type 0) where
  -- A cache whose entries were made before a time, under keys that are not empty.
  pub record CacheOk (time : ℕ) (cache : ApiCache) : Type 0 where
    pub distinct : Distinct cache
    pub bounded : length cache ≤ max_cache_entries
    pub earlier : All (λ e. e.1.created_at < time) cache
    pub named : All (λ e. e.0 ≢ []) cache
    pub good : All (λ e. P e.1.data_bytes) cache

  pub CacheOk-later :
      (time time' : ℕ) (cache : ApiCache) → time ≤ time' → CacheOk time cache → CacheOk time' cache
  CacheOk-later time time' cache le c = record {
    distinct = c.distinct;
    bounded = c.bounded;
    earlier =
        All-map (λ x. x.1.created_at < time) (λ x. x.1.created_at < time') (λ x h. omega arith)
          cache c.earlier;
    named = c.named;
    good = c.good;
  }

-- Either no entry is before the time, or the entry found is, and none is before it.
abbrev pub Oldest : ApiCache → ℕ → Str → Str → Type 0
Oldest m t key found =
    ((found ≡ key) × All (λ x. t ≤ x.1.created_at) m)
    ⊎ ((e : CacheEntry) × (lookup Str-discrete found m ≡ some e)
        × (e.created_at < t)
        × All (λ x. e.created_at ≤ x.1.created_at) m)

lookup_behind :
    (m : ApiCache) (found k : Str) (e e' : CacheEntry)
    → All (λ x. x.0 ≢ k) m
    → lookup Str-discrete found m ≡ some e'
    → lookup Str-discrete found ((k, e) ∷ m) ≡ some e'
unfolding lookup
lookup_behind m found k e e' ne l =
    if_neg (Str-discrete k found) (λ q. All-lookup Str-discrete (λ x. x.0 ≢ k) found m ne l (sym q))
      _ _
    ∙ l

Oldest-later :
    (m : ApiCache) (t : ℕ) (key found k : Str) (e : CacheEntry)
    → All (λ x. x.0 ≢ k) m
    → t ≤ e.created_at
    → Oldest m t key found
    → Oldest ((k, e) ∷ m) t key found
Oldest-later m t key found k e ne h (inl (r, all)) = inl (r, (h, all))
Oldest-later m t key found k e ne h (inr (e', l, lt, all)) =
    inr (e', lookup_behind m found k e e' ne l, lt, (omega arith, all))

Oldest-earlier :
    (m : ApiCache) (t : ℕ) (key found k : Str) (e : CacheEntry)
    → All (λ x. x.0 ≢ k) m
    → e.created_at < t
    → Oldest m e.created_at k found
    → Oldest ((k, e) ∷ m) t key found
unfolding lookup
Oldest-earlier m t key found k e ne h (inl (r, all)) =
    inr (e, if_pos (Str-discrete k found) (sym r) _ _, h, (omega arith, all))
Oldest-earlier m t key found k e ne h (inr (e', l, lt, all)) =
    inr (e', lookup_behind m found k e e' ne l, omega arith, (omega arith, all))

abbrev earlier_of : Bool → Str → CacheEntry → ℕ → Str → ApiCache → Str
earlier_of b k e t key m = elim b [
  | true ↦ find_oldest k e.created_at m
  | false ↦ find_oldest key t m
]

pub find_oldest-Oldest :
    (m : ApiCache) (t : ℕ) (key : Str) → Distinct m → Oldest m t key (find_oldest key t m)
unfolding find_oldest
find_oldest-Oldest [] t key d = inl (refl, tt)
find_oldest-Oldest ((k, e) ∷ m) t key d = elim (Bool-cases (ltb e.created_at t)) [
  | inl h ↦
      subst (λ b. Oldest ((k, e) ∷ m) t key (earlier_of b k e t key m)) (sym h)
        (Oldest-earlier m t key _ k e d.0 (ltb→lt e.created_at t h)
          (find_oldest-Oldest m e.created_at k d.1))
  | inr h ↦
      subst (λ b. Oldest ((k, e) ∷ m) t key (earlier_of b k e t key m)) (sym h)
        (Oldest-later m t key _ k e d.0 (ltb→le e.created_at t h) (find_oldest-Oldest m t key d.1))
]

pub remove_oldest_ne :
    (k : Str) (m : ApiCache) → k ≢ [] → remove_oldest k m ≡ delete Str-discrete k m
remove_oldest_ne [] m h = absurd (h refl)
remove_oldest_ne (c ∷ cs) m h = refl

abbrev Older : ApiCache → ℕ → Type 0
Older m t = (e : CacheEntry) → All (λ x. e.created_at ≤ x.1.created_at) m → e.created_at < t

earlier_ne : (e new : CacheEntry) → e.created_at < new.created_at → e ≢ new
earlier_ne e new h p = omega (arith, ap (λ x. x.created_at) p)

module _ (P : Str → Type 0) where
  evict-CacheOk :
      (m : ApiCache) (t : ℕ) (key found : Str) (new : CacheEntry)
      → Distinct m
      → All (λ x. x.1.created_at < suc t) m
      → All (λ x. x.0 ≢ []) m
      → All (λ x. P x.1.data_bytes) m
      → new.created_at ≤ t
      → length m ≡ suc max_cache_entries
      → lookup Str-discrete key m ≡ some new
      → Older m new.created_at
      → Oldest m t [] found
      → CacheOk P (suc t) (remove_oldest found m)
        × (lookup Str-discrete key (remove_oldest found m) ≡ some new)
  evict-CacheOk m t key found new d below named good made n l older (inl (r, above)) =
      absurd (omega (arith, older (record new { created_at = t }) above))
  evict-CacheOk m t key found new d below named good made n l older (inr (e, l', lt, all)) =
      rw (remove_oldest_ne found m (All-lookup Str-discrete (λ x. x.0 ≢ []) found m named l')) (
        record {
          distinct = Distinct-delete Str-discrete found m d;
          bounded = omega (arith, length-delete Str-discrete found m, counted);
          earlier = All-delete Str-discrete (λ x. x.1.created_at < suc t) found m below;
          named = All-delete Str-discrete (λ x. x.0 ≢ []) found m named;
          good = All-delete Str-discrete (λ x. P x.1.data_bytes) found m good;
        },
        lookup-delete_ne Str-discrete found key m other ∙ l,
      )
    where
      counted : count_at (lookup Str-discrete found m) ≡ 1
      counted = rw l' refl

      other : found ≢ key
      other q =
          earlier_ne e new (older e all)
            (some-injective e new (sym l' ∙ ap (λ k. lookup Str-discrete k m) q ∙ l))

  Older-entry :
      (cache : ApiCache) (time t : ℕ) (key : Str) (new : CacheEntry)
      → CacheOk P time cache
      → time ≤ t
      → max_cache_entries < length (insert Str-discrete key new cache)
      → Older (insert Str-discrete key new cache) t
  unfolding insert lookup
  Older-entry [] time t key new c le long e all = absurd (omega arith)
  Older-entry ((k, e0) ∷ m) time t key new c le long e all = elim (Str-discrete k key) [
    | yes q ↦ absurd (omega (arith, c.bounded, rw (if_pos (Str-discrete k key) q) at long))
    | no q ↦ omega (arith, c.earlier.0, (rw (if_neg (Str-discrete k key) q) at all).0)
  ]

  -- An answer put into the cache, and what is left when the oldest entry has made room.
  module _ (cache : ApiCache) (time t : ℕ) (key body : Str) (c : CacheOk P time cache)
      (named : key ≢ []) (good : P body) (le : time ≤ t) where
    abbrev stored : ApiCache
    stored = insert Str-discrete key (record { data_bytes = body; created_at = t }) cache

    length-stored : length stored + count_at (lookup Str-discrete key cache) ≡ length cache + 1
    length-stored = length-insert Str-discrete key _ cache

    pub lookup-stored :
        lookup Str-discrete key stored ≡ some (record { data_bytes = body; created_at = t })
    lookup-stored =
        lookup-insert Str-discrete key key _ cache ∙ if_pos (Str-discrete key key) refl _ _

    stored-earlier : (now : ℕ) → t < now → All (λ x. x.1.created_at < now) stored
    stored-earlier now lt =
        All-insert Str-discrete (λ x. x.1.created_at < now) key _ cache lt
          (All-map (λ x. x.1.created_at < time) (λ x. x.1.created_at < now) (λ x h. omega arith)
            cache c.earlier)

    pub stored-CacheOk :
        (now : ℕ) → t < now → length stored ≤ max_cache_entries → CacheOk P now stored
    stored-CacheOk now lt short = record {
      distinct = Distinct-insert Str-discrete key _ cache c.distinct;
      bounded = short;
      earlier = stored-earlier now lt;
      named = All-insert Str-discrete (λ x. x.0 ≢ []) key _ cache named c.named;
      good = All-insert Str-discrete (λ x. P x.1.data_bytes) key _ cache good c.good;
    }

    pub evicted-CacheOk :
        (now : ℕ)
        → t ≤ now
        → max_cache_entries < length stored
        → CacheOk P (suc now) (remove_oldest (find_oldest [] now stored) stored)
          × (lookup Str-discrete key (remove_oldest (find_oldest [] now stored) stored)
              ≡ some (record { data_bytes = body; created_at = t }))
    evicted-CacheOk now lt long =
        evict-CacheOk stored now key _ (record { data_bytes = body; created_at = t })
          (Distinct-insert Str-discrete key _ cache c.distinct)
          (stored-earlier (suc now) (omega arith))
          (All-insert Str-discrete (λ x. x.0 ≢ []) key _ cache named c.named)
          (All-insert Str-discrete (λ x. P x.1.data_bytes) key _ cache good c.good) (omega arith)
          (omega (arith, length-stored, c.bounded)) lookup-stored
          (Older-entry cache time t key _ c le long)
          (find_oldest-Oldest stored now [] (Distinct-insert Str-discrete key _ cache c.distinct))
