-- ===== src/Cache/Keys.antt =====
-- AllFileKeys: the files that have a block in the cache.
use torbox_fuse_go.Base.{◌↔◌, sym, subst, List, [], ◌∷◌, map, Str, Str-discrete}
use torbox_fuse_go.Cache.Types.{CacheKey, RangeBlock, Shard, RangeCache}
use mathlib.Core.List.{
  Perm, filter, flatten, filter-append, map-append, Mem, Mem-prop, Nodup, Nodup-nil, Nodup-cons,
  dec_mem, insert_of_mem, insert_of_not-mem, mem-insert_iff, mem-cons, mem-append, not-mem-nil,
}
use mathlib.Core.List
use mathlib.Core.Logic.Or
use mathlib.Core.Logic.{◌∨₁◌, ∨₁_prop}
use mathlib.Core.List.Perm

-- AllFileKeys: `seen` is the map of the keys met so far, and the result lists its keys.
unfoldable pub shard_keys : List Str → Shard → List Str
shard_keys seen [] = seen
shard_keys seen ((key, blk) ∷ sh) = shard_keys (List.insert Str-discrete key.file_key seen) sh

unfoldable pub collect_keys : List Str → List Shard → List Str
collect_keys seen [] = seen
collect_keys seen (sh ∷ shards) = collect_keys (shard_keys seen sh) shards

unfoldable pub all_file_keys : RangeCache → List Str
all_file_keys c = collect_keys [] c.shards

insert-Nodup : (k : Str) (seen : List Str) → Nodup seen → Nodup (List.insert Str-discrete k seen)
insert-Nodup k seen h = elim (dec_mem Str-discrete k seen) [
  | yes m ↦ subst Nodup (sym (insert_of_mem Str-discrete m)) h
  | no m ↦ subst Nodup (sym (insert_of_not-mem Str-discrete m)) (Nodup-cons.1 (m, h))
]

shard_keys-Nodup : (seen : List Str) (sh : Shard) → Nodup seen → Nodup (shard_keys seen sh)
unfolding shard_keys
shard_keys-Nodup seen [] h = h
shard_keys-Nodup seen ((key, blk) ∷ sh) h =
    shard_keys-Nodup (List.insert Str-discrete key.file_key seen) sh
      (insert-Nodup key.file_key seen h)

collect_keys-Nodup :
    (seen : List Str) (shards : List Shard) → Nodup seen → Nodup (collect_keys seen shards)
unfolding collect_keys
collect_keys-Nodup seen [] h = h
collect_keys-Nodup seen (sh ∷ shards) h =
    collect_keys-Nodup (shard_keys seen sh) shards (shard_keys-Nodup seen sh h)

abbrev pub keys_of : Shard → List Str
keys_of = map (λ e. e.0.file_key)

module _ (k : Str) where
  shard_keys-nil : (seen : List Str) → Mem k seen ↔ (Mem k seen ∨₁ Mem k (keys_of []))
  shard_keys-nil seen = (Or.inl, λ o. Or.elim Mem-prop o (λ m. m) (λ m. absurd (not-mem-nil m)))

  shard_keys-mem :
      (seen : List Str) (sh : Shard)
      → Mem k (shard_keys seen sh) ↔ (Mem k seen ∨₁ Mem k (keys_of sh))
  unfolding shard_keys
  shard_keys-mem seen [] = shard_keys-nil seen
  shard_keys-mem seen ((key, blk) ∷ sh) =
      let ih = shard_keys-mem (List.insert Str-discrete key.file_key seen) sh in
      let put = mem-insert_iff Str-discrete {a = k} {b = key.file_key} {l = seen} in
      (
        λ m.
            Or.elim ∨₁_prop (ih.0 m)
              (λ old. Or.elim ∨₁_prop (put.0 old) (λ e. Or.inr (mem-cons.1 (Or.inl e))) Or.inl)
              (λ later. Or.inr (mem-cons.1 (Or.inr later))),
        λ o. ih.1 (
            Or.elim ∨₁_prop o (λ old. Or.inl (put.1 (Or.inr old)))
              (λ here. Or.elim ∨₁_prop (mem-cons.0 here) (λ e. Or.inl (put.1 (Or.inl e))) Or.inr)),
      )

  collect_keys-mem :
      (seen : List Str) (shards : List Shard)
      → Mem k (collect_keys seen shards) ↔ (Mem k seen ∨₁ Mem k (keys_of (flatten shards)))
  unfolding collect_keys flatten
  collect_keys-mem seen [] = shard_keys-nil seen
  collect_keys-mem seen (sh ∷ shards) =
      let ih = collect_keys-mem (shard_keys seen sh) shards in
      let one = shard_keys-mem seen sh in
      let split = map-append (λ (e : CacheKey × RangeBlock). e.0.file_key) sh (flatten shards) in
      rw split (
        λ m.
            Or.elim ∨₁_prop (ih.0 m)
              (λ old.
                Or.elim ∨₁_prop (one.0 old) Or.inl (λ here. Or.inr (mem-append.1 (Or.inl here))))
              (λ later. Or.inr (mem-append.1 (Or.inr later))),
        λ o. ih.1 (
            Or.elim ∨₁_prop o (λ old. Or.inl (one.1 (Or.inl old)))
              (λ m.
                Or.elim ∨₁_prop (mem-append.0 m) (λ here. Or.inl (one.1 (Or.inr here))) Or.inr)),
      )

-- AllFileKeys lists each file that has a block in the cache, exactly once, and no other.
pub all_file_keys_exact :
    (c : RangeCache)
    → Nodup (all_file_keys c)
      × ((k : Str) → Mem k (all_file_keys c) ↔ Mem k (keys_of (flatten c.shards)))
unfolding all_file_keys
all_file_keys_exact c = (
  collect_keys-Nodup [] c.shards Nodup-nil,
  λ k.
      let found = collect_keys-mem k [] c.shards in
      (
        λ m. Or.elim Mem-prop (found.0 m) (λ none. absurd (not-mem-nil none)) (λ here. here),
        λ m. found.1 (Or.inr m),
      ),
)
