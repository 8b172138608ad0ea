-- ===== src/Stream/Inflight/Gauge.antt =====
-- The gauge InflightWindows and the map of windows, through any sequence of calls.
use torbox_fuse_go.Base.{
  ℕ, suc, ◌+◌, ◌≡◌, ◌≢◌, refl, sym, ap, inl, inr, subst, Bool, ◌&&◌, Option, none, some, [], ◌∷◌,
  map, Str, str_eq, ℤ, pos, int_laws, length, All, Distinct, lookup, lookup-delete_self,
  Distinct-insert, Distinct-delete, count_at, length-insert, length-delete, ◌==◌, Bool-cases,
  Option-cases, arith,
}
use torbox_fuse_go.Stream.Inflight.{
  new_window, InflightKey, InflightKey-discrete, InflightWindow, Windows, Streams, gauge_add,
  gauge_sub, remove_window, create_window, get_or_create_window, end_window, drop_windows,
  seek_cancels, seek_window,
}

-- A gauge, where there is one, shows the number.
abbrev pub Shows : Option ℤ → ℕ → Type 0
Shows none n = Unit
Shows (some g) n = g ≡ pos n

pub record Counted (s : Streams) : Type 0 where
  pub distinct : Distinct s.inflight
  pub gauge : Shows s.inflight_windows (length s.inflight)

pub gauge_sub-Shows : (g : Option ℤ) (n k m : ℕ) → Shows g n → m + k ≡ n → Shows (gauge_sub g k) m
gauge_sub-Shows none n k m h e = tt
gauge_sub-Shows (some g) n k m h e = rw h (omega int_laws)

gauge_add-Shows : (g : Option ℤ) (n k m : ℕ) → Shows g n → n + k ≡ m → Shows (gauge_add g k) m
gauge_add-Shows none n k m h e = tt
gauge_add-Shows (some g) n k m h e = rw h (omega int_laws)

pub remove_window-Counted :
    (s : Streams) (key : InflightKey) (win : InflightWindow)
    → lookup InflightKey-discrete key s.inflight ≡ some win
    → Counted s
    → Counted (remove_window s key)
      × (lookup InflightKey-discrete key (remove_window s key).inflight ≡ none)
unfolding remove_window
remove_window-Counted s key win found c =
    let size = length-delete InflightKey-discrete key s.inflight in
    (
      record {
        distinct = Distinct-delete InflightKey-discrete key s.inflight c.distinct;
        gauge =
            gauge_sub-Shows s.inflight_windows _ 1 _ c.gauge
              (omega (arith, size, ap count_at found));
      },
      lookup-delete_self InflightKey-discrete key s.inflight c.distinct,
    )

create_window-Counted :
    (s : Streams) (key : InflightKey) (file_size priority : ℕ)
    → lookup InflightKey-discrete key s.inflight ≡ none
    → Counted s
    → Counted (create_window s key file_size priority)
unfolding create_window
create_window-Counted s key file_size priority absent c =
    let size = length-insert InflightKey-discrete key (new_window s file_size) s.inflight in
    record {
      distinct =
          Distinct-insert InflightKey-discrete key (new_window s file_size) s.inflight c.distinct;
      gauge =
          gauge_add-Shows s.inflight_windows _ 1 _ c.gauge
            (omega (arith, size, ap count_at absent));
    }

pub get_or_create_window-Counted :
    (s : Streams) (key : InflightKey) (file_size priority : ℕ)
    → Counted s
    → Counted (get_or_create_window s key file_size priority).0
unfolding get_or_create_window
get_or_create_window-Counted s key file_size priority c =
    elim (Option-cases (lookup InflightKey-discrete key s.inflight)) [
      | inl e ↦ rw (e, get_or_create_window) (create_window-Counted s key file_size priority e c)
      | inr (win, e) ↦ elim (Bool-cases (win.done && win.failed)) [
        | inl over ↦
            let (c', absent) = remove_window-Counted s key win e c in
            rw (e, get_or_create_window, over)
              (create_window-Counted (remove_window s key) key file_size priority absent c')
        | inr going ↦ rw (e, get_or_create_window, going) c
      ]
    ]

-- A change of the windows that leaves the keys.
module _ (f : InflightKey × InflightWindow → InflightKey × InflightWindow)
    (same : (e : InflightKey × InflightWindow) → (f e).0 ≡ e.0) where
  map-keys :
      (P : InflightKey → Type 0) (ws : Windows) → All (λ e. P e.0) ws → All (λ e. P e.0) (map f ws)
  map-keys P [] h = tt
  map-keys P (e ∷ ws) (p, h) = (subst P (sym (same e)) p, map-keys P ws h)

  pub map-Distinct : (ws : Windows) → Distinct ws → Distinct (map f ws)
  map-Distinct [] h = tt
  map-Distinct (e ∷ ws) (fresh, h) = (
    subst (λ k. All (λ x. x.0 ≢ k) (map f ws)) (sym (same e)) (map-keys (λ k. k ≢ e.0) ws fresh),
    map-Distinct ws h,
  )

  pub map-length : (ws : Windows) → length (map f ws) ≡ length ws
  map-length [] = refl
  map-length (e ∷ ws) = ap suc (map-length ws)

pub end_window-key :
    (id : ℕ) (failed : Bool) (e : InflightKey × InflightWindow) → (end_window id failed e).0 ≡ e.0
end_window-key id failed (key, win) = elim (Bool-cases (win.id == id)) [
  | inl own ↦ rw own refl
  | inr other ↦ rw other refl
]

pub seek_window-key :
    (file_key : Str) (off threshold : ℕ) (e : InflightKey × InflightWindow)
    → (seek_window file_key off threshold e).0 ≡ e.0
seek_window-key file_key off threshold e =
    elim (Bool-cases (seek_cancels file_key off threshold e)) [
      | inl own ↦ rw own refl
      | inr other ↦ rw other refl
    ]

pub drop_windows-All :
    (file_key : Str) (P : InflightKey × InflightWindow → Type 0) (ws : Windows)
    → All P ws
    → All P (drop_windows file_key ws).0
unfolding drop_windows
drop_windows-All file_key P [] h = tt
drop_windows-All file_key P ((key, win) ∷ ws) (p, h) =
    elim (Bool-cases (str_eq key.file_key file_key)) [
      | inl own ↦ rw own (drop_windows-All file_key P ws h)
      | inr other ↦ rw other (p, drop_windows-All file_key P ws h)
    ]

pub drop_windows-kept :
    (file_key : Str) (ws : Windows)
    → Distinct ws
    → Distinct (drop_windows file_key ws).0
      × (length (drop_windows file_key ws).0 + (drop_windows file_key ws).1 ≡ length ws)
unfolding drop_windows
drop_windows-kept file_key [] h = (tt, omega arith)
drop_windows-kept file_key ((key, win) ∷ ws) (fresh, h) =
    let (d, n) = drop_windows-kept file_key ws h in
    elim (Bool-cases (str_eq key.file_key file_key)) [
      | inl own ↦ rw own (d, omega (arith, n))
      | inr other ↦
          rw other ((drop_windows-All file_key (λ e. e.0 ≢ key) ws fresh, d), omega (arith, n))
    ]
