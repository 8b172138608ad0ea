-- ===== src/Catalog/Built.antt =====
-- BuildTree of internal/catalog/tree.go: the directories that it makes, and the files in each.
use mathlib.Core.List.{append-nil, append_assoc}
use torbox_fuse_go.Base.{
  if_neg, if_pos, arith, ◌≢◌, ◌||◌, not, lookup, ◌≡◌, refl, sym, ◌∙◌, ap, Bool, true, false, ◌&&◌,
  List, [], ◌∷◌, ◌++◌, Str, str, str_eq, Str-discrete, All, All-insert, Distinct, Distinct-insert,
  Bool-cases, inl, inr, if◌then◌else◌, some,
}
use torbox_fuse_go.Paths.{Rooted, base, has_prefix}
use torbox_fuse_go.Paths.Joined.{join-Rooted}
use torbox_fuse_go.Catalog.{content_key, Text, File, Download}
use torbox_fuse_go.Catalog.Place.{title, place, place-dir_path, title-download_title}
use torbox_fuse_go.Catalog.Tree.{
  all_path, DirEntry, Dirs, Seen, entries_at, add_entry, is_video, leaf, dir_path, is_series,
  add_files, download_title, add_downloads, add_to_all, add_all_files, add_all_downloads, unsorted,
}
use torbox_fuse_go.Catalog.Parents.{leaves-append, leaves, entries_at-add_entry}

str_eq_of : {a b : Str} → a ≡ b → str_eq a b ≡ true
str_eq_of {a} {b} e = ground (arith, e)

str_ne_of : {a b : Str} → a ≢ b → str_eq a b ≡ false
str_ne_of {a} {b} ne = ground (arith, ne)

-- A map of directories with paths from the root.
pub record DirsOk (dirs : Dirs) : Type 0 where
  pub rooted : All (λ e. Rooted e.0) dirs
  pub distinct : Distinct dirs

pub add_entry-DirsOk :
    (p : Str) (e : DirEntry) (dirs : Dirs) → Rooted p → DirsOk dirs → DirsOk (add_entry p e dirs)
unfolding add_entry
add_entry-DirsOk p e dirs r h =
    let es = entries_at p dirs ++ (e ∷ []) in
    record {
      rooted =
          All-insert Str-discrete (λ (x : Str × List DirEntry). Rooted x.0) p es dirs r h.rooted;
      distinct = Distinct-insert Str-discrete p es dirs h.distinct;
    }

module _ (text : Text) where
  dir_path-Rooted : (title : Str) (f : File) → Rooted (dir_path text title f)
  unfolding dir_path
  dir_path-Rooted title f = elim (Bool-cases (is_series text f.media_type)) [
    | inl series ↦ rw series (join-Rooted _ _)
    | inr other ↦ rw other (join-Rooted _ _)
  ]

  add_files-DirsOk :
      (title : Str) (fs : List File) (dirs : Dirs)
      → DirsOk dirs
      → DirsOk (add_files text title fs dirs)
  unfolding add_files
  add_files-DirsOk title [] dirs h = h
  add_files-DirsOk title (f ∷ fs) dirs h = elim (Bool-cases (is_video f)) [
    | inl video ↦ rw video (
        add_files-DirsOk title fs (add_entry (dir_path text title f) (leaf f) dirs)
          (add_entry-DirsOk (dir_path text title f) (leaf f) dirs (dir_path-Rooted title f) h))
    | inr other ↦ rw other (add_files-DirsOk title fs dirs h)
  ]

  add_downloads-DirsOk :
      (ds : List Download) (dirs : Dirs) → DirsOk dirs → DirsOk (add_downloads text ds dirs)
  unfolding add_downloads
  add_downloads-DirsOk [] dirs h = h
  add_downloads-DirsOk (d ∷ ds) dirs h =
      add_downloads-DirsOk ds _ (add_files-DirsOk (download_title text d) d.files dirs h)

  add_to_all-DirsOk :
      (title : Str) (f : File) (s : Seen × Dirs) → DirsOk s.1 → DirsOk (add_to_all text title f s).1
  add_to_all-DirsOk title f (seen, dirs) h =
      elim (Bool-cases (not (is_video f) || seen (content_key f))) [
        | inl skip ↦ rw skip h
        | inr new ↦ rw new (
            add_entry-DirsOk (all_path text title) (leaf f) dirs
              (join-Rooted (str "all") (title ∷ [])) h)
      ]

  add_all_files-DirsOk :
      (title : Str) (fs : List File) (s : Seen × Dirs)
      → DirsOk s.1
      → DirsOk (add_all_files text title fs s).1
  unfolding add_all_files
  add_all_files-DirsOk title [] s h = h
  add_all_files-DirsOk title (f ∷ fs) s h =
      add_all_files-DirsOk title fs (add_to_all text title f s) (add_to_all-DirsOk title f s h)

  add_all_downloads-DirsOk :
      (ds : List Download) (s : Seen × Dirs) → DirsOk s.1 → DirsOk (add_all_downloads text ds s).1
  unfolding add_all_downloads
  add_all_downloads-DirsOk [] s h = h
  add_all_downloads-DirsOk (d ∷ ds) s h =
      add_all_downloads-DirsOk ds (add_all_files text (download_title text d) d.files s)
        (add_all_files-DirsOk (download_title text d) d.files s h)

  pub unsorted-DirsOk : (ds : List Download) (all_dir : Bool) → DirsOk (unsorted text ds all_dir)
  unfolding unsorted
  unsorted-DirsOk ds all_dir =
      let start : DirsOk (add_downloads text ds []) =
        add_downloads-DirsOk ds [] (record { rooted = tt; distinct = tt }) in
      elim (Bool-cases all_dir) [
        | inl with_all ↦
            rw with_all (add_all_downloads-DirsOk ds (λ key. false, add_downloads text ds []) start)
        | inr without ↦ rw without start
      ]

  -- The files of a download with a MIME type of video whose place is q, in their order, each under the
  -- base of its name.
  abbrev pub placed_files : Str → Str → List File → List DirEntry
  placed_files q title [] = []
  placed_files q title (f ∷ fs) =
      let rest = placed_files q title fs in
      if has_prefix f.mime_type (str "video/") && str_eq (place text title f) q
      then record { entry_name = base f.name; file = some f } ∷ rest
      else rest

  abbrev pub placed : Str → List Download → List DirEntry
  placed q [] = []
  placed q (d ∷ ds) = placed_files q (title text d.download_name d.files) d.files ++ placed q ds

  entries_at-add_files :
      (q title : Str) (fs : List File) (dirs : Dirs)
      → entries_at q (add_files text title fs dirs) ≡ entries_at q dirs ++ placed_files q title fs
  unfolding add_files
  entries_at-add_files q title [] dirs = sym (append-nil (entries_at q dirs))
  entries_at-add_files q title (f ∷ fs) dirs = elim (Bool-cases (is_video f)) [
    | inr other ↦ rw other (entries_at-add_files q title fs dirs)
    | inl video ↦
        let p = dir_path text title f in
        let later = entries_at-add_files q title fs (add_entry p (leaf f) dirs) in
        let put = entries_at-add_entry q p (leaf f) dirs in
        elim (Str-discrete p q) [
          | yes same ↦
              rw (video, str_eq_of (place-dir_path text title f ∙ same))
                (later
                  ∙ ap (λ es. es ++ placed_files q title fs)
                      (put ∙ if_pos (Str-discrete p q) same _ _)
                  ∙ append_assoc (entries_at q dirs) (leaf f ∷ []) (placed_files q title fs))
          | no ne ↦
              rw (video, str_ne_of (λ e. ne (sym (place-dir_path text title f) ∙ e)))
                (later
                  ∙ ap (λ es. es ++ placed_files q title fs)
                      (put ∙ if_neg (Str-discrete p q) ne _ _))
        ]
  ]

  entries_at-add_downloads :
      (q : Str) (ds : List Download) (dirs : Dirs)
      → entries_at q (add_downloads text ds dirs) ≡ entries_at q dirs ++ placed q ds
  unfolding add_downloads
  entries_at-add_downloads q [] dirs = sym (append-nil (entries_at q dirs))
  entries_at-add_downloads q (d ∷ ds) dirs =
      let named = title text d.download_name d.files in
      entries_at-add_downloads q ds (add_files text (download_title text d) d.files dirs)
      ∙ ap (λ t. entries_at q (add_files text t d.files dirs) ++ placed q ds)
          (title-download_title text d)
      ∙ ap (λ es. es ++ placed q ds) (entries_at-add_files q named d.files dirs)
      ∙ append_assoc (entries_at q dirs) (placed_files q named d.files) (placed q ds)

  leaves-placed_files :
      (q title : Str) (fs : List File) → leaves (placed_files q title fs) ≡ placed_files q title fs
  leaves-placed_files q title [] = refl
  leaves-placed_files q title (f ∷ fs) =
      elim (Bool-cases (is_video f && str_eq (place text title f) q)) [
        | inl here ↦ rw here (ap (λ es. leaf f ∷ es) (leaves-placed_files q title fs))
        | inr other ↦ rw other (leaves-placed_files q title fs)
      ]

  leaves-placed : (q : Str) (ds : List Download) → leaves (placed q ds) ≡ placed q ds
  leaves-placed q [] = refl
  leaves-placed q (d ∷ ds) =
      let named = title text d.download_name d.files in
      leaves-append (placed_files q named d.files) (placed q ds)
      ∙ ap (λ es. es ++ leaves (placed q ds)) (leaves-placed_files q named d.files)
      ∙ ap (λ es. placed_files q named d.files ++ es) (leaves-placed q ds)

  pub leaves-unsorted :
      (q : Str) (ds : List Download) → leaves (entries_at q (unsorted text ds false)) ≡ placed q ds
  unfolding unsorted lookup
  leaves-unsorted q ds = ap leaves (entries_at-add_downloads q ds []) ∙ leaves-placed q ds
