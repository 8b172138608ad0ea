-- ===== src/Cache/Blocks.antt =====
-- FileBlocks: the blocks of one file, as the dashboard reads them.
use torbox_fuse_go.Base.{
  ℕ, ◌≤◌, ◌≡◌, refl, sym, subst, List, [], ◌∷◌, ◌++◌, map, inl, inr, arith, ltb, Str, Str-discrete,
  str_eq, if◌then◌else◌, All, Bool-cases,
}
use torbox_fuse_go.Cache.Types.{CacheKey, RangeBlock, BlockInfo, Shard, RangeCache}
use mathlib.Core.List.{Perm, filter, flatten, filter-append, map-append}
use mathlib.Core.List.Perm

abbrev pub info : RangeBlock → BlockInfo
info blk = record { start = blk.start; end = blk.end; priority = blk.priority }

unfoldable pub shard_infos : Str → Shard → List BlockInfo
shard_infos file_key [] = []
shard_infos file_key ((key, blk) ∷ sh) =
    let rest = shard_infos file_key sh in
    if str_eq key.file_key file_key then info blk ∷ rest else rest

unfoldable pub collect_infos : Str → List Shard → List BlockInfo
collect_infos file_key [] = []
collect_infos file_key (sh ∷ shards) = shard_infos file_key sh ++ collect_infos file_key shards

-- slices.SortFunc by start offset. The blocks of a file have different offsets, so any sorting
-- function gives the same list.
unfoldable pub insert_info : BlockInfo → List BlockInfo → List BlockInfo
insert_info b [] = b ∷ []
insert_info b (x ∷ xs) = if ltb x.start b.start then x ∷ insert_info b xs else b ∷ x ∷ xs

unfoldable pub sort_infos : List BlockInfo → List BlockInfo
sort_infos [] = []
sort_infos (b ∷ bs) = insert_info b (sort_infos bs)

unfoldable pub file_blocks : RangeCache → Str → List BlockInfo
file_blocks c file_key = sort_infos (collect_infos file_key c.shards)

insert_info-perm : (b : BlockInfo) (xs : List BlockInfo) → Perm (insert_info b xs) (b ∷ xs)
unfolding insert_info
insert_info-perm b [] = Perm.refl (b ∷ [])
insert_info-perm b (x ∷ xs) = elim (Bool-cases (ltb x.start b.start)) [
  | inl later ↦ rw later (Perm.trans (Perm.cons x (insert_info-perm b xs)) (Perm.swap b x xs))
  | inr here ↦ rw here (Perm.refl (b ∷ x ∷ xs))
]

sort_infos-perm : (bs : List BlockInfo) → Perm (sort_infos bs) bs
unfolding sort_infos
sort_infos-perm [] = Perm.refl []
sort_infos-perm (b ∷ bs) =
    Perm.trans (insert_info-perm b (sort_infos bs)) (Perm.cons b (sort_infos-perm bs))

-- Each offset is at most every later one.
abbrev pub IsSorted : List BlockInfo → Type 0
IsSorted [] = Unit
IsSorted (b ∷ bs) = All (λ (x : BlockInfo). b.start ≤ x.start) bs × IsSorted bs

insert_info-All :
    (P : BlockInfo → Type 0) (b : BlockInfo) (xs : List BlockInfo)
    → P b
    → All P xs
    → All P (insert_info b xs)
unfolding insert_info
insert_info-All P b [] p h = (p, tt)
insert_info-All P b (x ∷ xs) p h = elim (Bool-cases (ltb x.start b.start)) [
  | inl later ↦ rw later (h.0, insert_info-All P b xs p h.1)
  | inr here ↦ rw here (p, h)
]

All-le :
    (m n : ℕ) (xs : List BlockInfo)
    → m ≤ n
    → All (λ (x : BlockInfo). n ≤ x.start) xs
    → All (λ (x : BlockInfo). m ≤ x.start) xs
All-le m n [] h k = tt
All-le m n (x ∷ xs) h k = (omega arith, All-le m n xs h k.1)

insert_info-IsSorted :
    (b : BlockInfo) (xs : List BlockInfo) → IsSorted xs → IsSorted (insert_info b xs)
unfolding insert_info
insert_info-IsSorted b [] h = (tt, tt)
insert_info-IsSorted b (x ∷ xs) h = elim (Bool-cases (ltb x.start b.start)) [
  | inl later ↦
      let below : x.start ≤ b.start = ground arith in
      rw later
        (insert_info-All (λ y. x.start ≤ y.start) b xs below h.0, insert_info-IsSorted b xs h.1)
  | inr here ↦
      let above : b.start ≤ x.start = ground arith in
      rw here ((above, All-le b.start x.start xs above h.0), h)
]

sort_infos-IsSorted : (bs : List BlockInfo) → IsSorted (sort_infos bs)
unfolding sort_infos
sort_infos-IsSorted [] = tt
sort_infos-IsSorted (b ∷ bs) = insert_info-IsSorted b (sort_infos bs) (sort_infos-IsSorted bs)

abbrev pub of_file : (file_key : Str) (e : CacheKey × RangeBlock) → Dec (e.0.file_key ≡ file_key)
of_file file_key e = Str-discrete e.0.file_key file_key

shard_infos-filter :
    (file_key : Str) (sh : Shard)
    → shard_infos file_key sh ≡ map (λ e. info e.1) (filter (of_file file_key) sh)
unfolding shard_infos
shard_infos-filter file_key [] = refl
shard_infos-filter file_key ((key, blk) ∷ sh) = ground (arith, shard_infos-filter file_key sh)

collect_infos-filter :
    (file_key : Str) (shards : List Shard)
    → collect_infos file_key shards
      ≡ map (λ e. info e.1) (filter (of_file file_key) (flatten shards))
unfolding collect_infos flatten
collect_infos-filter file_key [] = refl
collect_infos-filter file_key (sh ∷ shards) =
    rw
      (
        shard_infos-filter file_key sh,
        collect_infos-filter file_key shards,
        filter-append (of_file file_key) sh (flatten shards),
      )
      (sym (
        map-append (λ e. info e.1) (filter (of_file file_key) sh)
          (filter (of_file file_key) (flatten shards))))

-- FileBlocks lists exactly the blocks of the file, each as often as the shards hold it, in the order
-- of their start offsets.
pub file_blocks-IsSorted :
    (c : RangeCache) (file_key : Str)
    → IsSorted (file_blocks c file_key)
      × Perm
          (file_blocks c file_key)
          (map (λ e. info e.1) (filter (of_file file_key) (flatten c.shards)))
unfolding file_blocks
file_blocks-IsSorted c file_key = (
  sort_infos-IsSorted (collect_infos file_key c.shards),
  subst (Perm _) (collect_infos-filter file_key c.shards)
      (sort_infos-perm (collect_infos file_key c.shards)),
)
