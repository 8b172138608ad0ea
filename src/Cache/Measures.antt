-- ===== src/Cache/Measures.antt =====
-- What each change of the counters of the cache does to the gauges.
use torbox_fuse_go.Base.{
  ℕ, suc, ◌≤◌, ◌≡◌, sym, ap, ◌∙◌, Option, none, some, ℤ, pos, ◌+ℤ◌, ◌-ℤ◌, int_laws, pos--ℤ,
}
use torbox_fuse_go.Cache.Types.{CacheMetrics, Counters}
use torbox_fuse_go.Cache.Ops.{
  count_overwritten, count_inserted, count_evicted, count_stale, drop_used,
}
use torbox_fuse_go.Cache.Invariant.{Measures}
use torbox_fuse_go.Cache.Eviction.{drop_used_lem}

abbrev pub Gauged : Counters → ℕ → Type 0
Gauged n count = Measures n.metrics n.used count

-- The metrics are a pointer that may be nil: one lemma for each change of the counters.
module _ (n : ℕ) where
  pub overwritten-Measures :
      (m : Option CacheMetrics) (used : ℤ) (count : ℕ)
      → Measures m used (suc count)
      → let c = count_overwritten n (record { used = used; metrics = m }) in
        Measures c.metrics c.used count
  unfolding count_overwritten
  overwritten-Measures none used count h = tt
  overwritten-Measures (some m) used count h = (
    ap (λ x. x -ℤ pos n) h.0,
    ap (λ x. x -ℤ pos 1) h.1 ∙ omega int_laws,
    ap (λ x. x -ℤ pos n) h.2 ∙ omega int_laws,
  )

  pub inserted-Measures :
      (m : Option CacheMetrics) (used : ℤ) (count : ℕ)
      → Measures m used count
      → let c = count_inserted n (record { used = used; metrics = m }) in
        Measures c.metrics c.used (suc count)
  unfolding count_inserted
  inserted-Measures none used count h = tt
  inserted-Measures (some m) used count h = (
    ap (λ x. x +ℤ pos n) h.0,
    ap (λ x. x +ℤ pos 1) h.1 ∙ omega int_laws,
    ap (λ x. x +ℤ pos n) h.2 ∙ omega int_laws,
  )

  pub evicted-Measures :
      (m : Option CacheMetrics) (used : ℤ) (count t : ℕ)
      → used ≡ pos t
      → n ≤ t
      → Measures m used (suc count)
      → let c = count_evicted n (record { used = used; metrics = m }) in
        Measures c.metrics c.used count
  unfolding count_evicted
  evicted-Measures none used count t e fits h = tt
  evicted-Measures (some m) used count t e fits h = (
    ap (λ x. x -ℤ pos n) (h.0 ∙ e)
        ∙ pos--ℤ t n fits
        ∙ sym (ap (drop_used n) e ∙ drop_used_lem n t fits),
    ap (λ x. x -ℤ pos 1) h.1 ∙ omega int_laws,
    ap (λ x. x -ℤ pos n) h.2 ∙ omega int_laws,
  )

  pub stale-Measures :
      (m : Option CacheMetrics) (used : ℤ) (count t : ℕ)
      → used ≡ pos t
      → n ≤ t
      → Measures m used (suc count)
      → let c = count_stale n (record { used = used; metrics = m }) in
        Measures c.metrics c.used count
  unfolding count_stale
  stale-Measures none used count t e fits h = tt
  stale-Measures (some m) used count t e fits h = (
    ap (λ x. x -ℤ pos n) (h.0 ∙ e)
        ∙ pos--ℤ t n fits
        ∙ sym (ap (drop_used n) e ∙ drop_used_lem n t fits),
    ap (λ x. x -ℤ pos 1) h.1 ∙ omega int_laws,
    h.2 ∙ omega int_laws,
  )
