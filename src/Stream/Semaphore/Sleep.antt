-- ===== src/Stream/Semaphore/Sleep.antt =====
-- What wakes a goroutine that waits for a slot, and what does not.
use torbox_fuse_go.Base.{
  ℕ, ◌≡◌, ◌≢◌, refl, sym, ◌∙◌, ap, Bool, true, false, some, List, get_elem?, set, get_elem?-set_ne,
  some-injective,
}
use torbox_fuse_go.Stream.Semaphore.{acquire}
use torbox_fuse_go.Stream.Semaphore.Callers.{
  Phase, outside, waiting, inside, Callers, give_up, enter_with, enter, resume,
}

-- Steps of callers among which there is no release.
pub data Unreleased (s : Callers) : Callers → Type 0 where
  here : Unreleased s s
  enters :
      {t : Callers} (i p : ℕ) (done : Bool)
      → Unreleased s t
      → get_elem? t.phases i ≡ some outside
      → Unreleased s (enter t i p done)
  resumes :
      {t : Callers} (i p : ℕ) (ready done : Bool)
      → Unreleased s t
      → get_elem? t.phases i ≡ some (waiting p ready true)
      → Unreleased s (resume t i p ready done)

enter_with-writes :
    (phases : List Phase) (i p : ℕ) (done : Bool) (sem : _) (free : Bool)
    → (v : Phase) × ((enter_with (sem, free) phases i p done).phases ≡ set phases i v)
unfolding give_up
enter_with-writes phases i p done sem true = (inside, refl)
enter_with-writes phases i p true sem false = (outside, refl)
enter_with-writes phases i p false sem false = (waiting p false false, refl)

resume-writes :
    (s : Callers) (i p : ℕ) (ready done : Bool)
    → (v : Phase) × ((resume s i p ready done).phases ≡ set s.phases i v)
unfolding resume give_up
resume-writes s i p true done = (inside, refl)
resume-writes s i p false true = (outside, refl)
resume-writes s i p false false = (waiting p false false, refl)

abbrev asleep : Phase → Bool
asleep (waiting p ready false) = true
asleep _ = false

elsewhere :
    (phases phases' : List Phase) (i j p : ℕ) (v other : Phase)
    → phases' ≡ set phases j v
    → get_elem? phases i ≡ some (waiting p false false)
    → get_elem? phases j ≡ some other
    → asleep other ≡ false
    → get_elem? phases' i ≡ some (waiting p false false)
elsewhere phases phases' i j p v other same e f awake =
    let ne : j ≢ i = λ eq.
      let at = some-injective _ _ (sym e ∙ ap (get_elem? phases) (sym eq) ∙ f) in
      let clash : true ≡ false = ap asleep at ∙ awake in cc in
    ap (λ xs. get_elem? xs i) same ∙ get_elem?-set_ne phases j i v ne ∙ e

-- A goroutine that sleeps in acquire sleeps on until some slot is released: no step of the others
-- wakes it, nor does the cancellation of its own context, which it sees only when it is woken.
pub sleeps_until_release :
    (s t : Callers) (i p : ℕ)
    → get_elem? s.phases i ≡ some (waiting p false false)
    → Unreleased s t
    → get_elem? t.phases i ≡ some (waiting p false false)
unfolding enter
sleeps_until_release s _ i p e here = e
sleeps_until_release s _ i p e (enters {t} j q done u f) =
    let (sem, free) = acquire t.sem (record { caller = j; priority = q }) in
    let (v, same) = enter_with-writes t.phases j q done sem free in
    elsewhere t.phases _ i j p v outside same (sleeps_until_release s t i p e u) f refl
sleeps_until_release s _ i p e (resumes {t} j q ready done u f) =
    let (v, same) = resume-writes t j q ready done in
    elsewhere t.phases _ i j p v _ same (sleeps_until_release s t i p e u) f refl
