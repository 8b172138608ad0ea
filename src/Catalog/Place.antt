-- ===== src/Catalog/Place.antt =====
-- Where the files of downloads belong in the tree of internal/catalog/tree.go.
use torbox_fuse_go.Base.{
  filter, filter_in, filter_out, map, not, ◌++◌, ◌≡◌, refl, sym, ◌∙◌, ap, Bool, true, false, Option,
  none, some, List, [], ◌∷◌, Str, str, str_eq, Str-discrete, ℤ, pos, ltb_ℤ, Bool-cases,
  Option-cases, inl, inr, if◌then◌else◌,
}
use torbox_fuse_go.Paths.{join, segments}
use torbox_fuse_go.Catalog.{Text, File, Download}
use torbox_fuse_go.Catalog.Tree.{
  first_segment, title_of, download_title, season_group, extract_season, dir_path,
}

abbrev pub first_or {ℓ} : {A : Type ℓ} → A → List A → A
first_or a [] = a
first_or a (x ∷ xs) = x

-- Where a file stands: in a directory for its season, or right below its title.
pub data Media : Type 0 where
  in_seasons : Media
  as_film : Media

module _ (text : Text) where
  -- The parts of a path between slashes, without spaces around them and without the empty ones.
  abbrev pub named : Str → Bool
  named [] = false
  named (c ∷ cs) = true

  abbrev pub named_parts : Str → List Str
  named_parts p = filter named (map text.trim_space (segments p))

  -- A download that is named by a hash has the first such part of its first file's name for a title.
  abbrev pub title : Str → List File → Str
  title name [] = name
  title name (f ∷ fs) = if text.hash_re name then first_or name (named_parts f.name) else name

  -- The season is the first number above 0 that the pattern has found, and else 1.
  abbrev pub positive : Option ℤ → List ℤ
  positive none = []
  positive (some n) = if ltb_ℤ (pos 0) n then n ∷ [] else []

  abbrev pub number : Str → List ℤ
  number [] = []
  number (c ∷ cs) = positive (text.atoi (c ∷ cs))

  abbrev pub numbers : Option (Str × Str) → List ℤ
  numbers none = []
  numbers (some (first, second)) = number first ++ number second

  abbrev pub season : Str → ℤ
  season name = first_or (pos 1) (numbers (text.season_re name))

  -- The place of a file by its media type: series and anime go to /series with a directory for the
  -- season, and all else to /movies.
  abbrev pub media_of : Str → Media
  media_of media =
      if str_eq media (str "series")
      then in_seasons
      else if str_eq media (str "anime")
      then in_seasons
      else as_film

  abbrev pub place_of : Media → Str → Str → Str
  place_of in_seasons title season_dir = join (str "/series" ∷ title ∷ season_dir ∷ [])
  place_of as_film title season_dir = join (str "/movies" ∷ title ∷ [])

  abbrev pub place : Str → File → Str
  place title f =
      place_of (media_of f.media_type) title (str "Season " ++ text.itoa (season f.name))

  is_empty : (s : Str) → str_eq s [] ≡ not (named s)
  unfolding Str-discrete
  is_empty [] = refl
  is_empty (c ∷ cs) = refl

  filter_none : filter named [] ≡ []
  unfolding filter
  filter_none = refl

  first_segment-filter :
      (ss : List Str) → first_segment text ss ≡ first_or [] (filter named (map text.trim_space ss))
  unfolding first_segment
  first_segment-filter [] = rw filter_none refl
  first_segment-filter (s ∷ ss) =
      let seg = text.trim_space s in
      let rest = map text.trim_space ss in
      elim (Bool-cases (named seg)) [
        | inr empty ↦
            rw (is_empty seg ∙ ap not empty)
              (first_segment-filter ss ∙ ap (first_or []) (sym (filter_out named seg rest empty)))
        | inl full ↦
            rw (is_empty seg ∙ ap not full) (ap (first_or []) (sym (filter_in named seg rest full)))
      ]

  -- A first part is not empty.
  first_named :
      (name : Str) (parts : List Str)
      → (if named (first_or [] (filter named parts))
          then first_or [] (filter named parts)
          else name)
        ≡ first_or name (filter named parts)
  first_named name [] = rw filter_none refl
  first_named name (p ∷ parts) = elim (Bool-cases (named p)) [
    | inl full ↦ rw (filter_in named p parts full, full) refl
    | inr empty ↦ rw (filter_out named p parts empty) (first_named name parts)
  ]

  not-not : (b : Bool) → not (not b) ≡ b
  not-not true = refl
  not-not false = refl

  abbrev seasons : Str → ℤ → Str
  seasons title n = join (str "/series" ∷ title ∷ (str "Season " ++ text.itoa n) ∷ [])

  title-title_of : (name : Str) (fs : List File) → title_of text name fs ≡ title name fs
  title-title_of name [] = refl
  title-title_of name (f ∷ fs) =
      let parts = map text.trim_space (segments f.name) in
      let seg = first_segment-filter (segments f.name) in
      elim (Bool-cases (text.hash_re name)) [
        | inr plain ↦ rw plain refl
        | inl hash ↦
            rw (hash, seg, is_empty (first_or [] (filter named parts)))
              (ap (λ b. if b then first_or [] (filter named parts) else name)
                  (not-not (named (first_or [] (filter named parts))))
                ∙ first_named name parts)
      ]

  pub title-download_title : (d : Download) → download_title text d ≡ title d.download_name d.files
  unfolding download_title
  title-download_title d = title-title_of d.download_name d.files

  abbrev listed : Option ℤ → List ℤ
  listed none = []
  listed (some n) = n ∷ []

  season_group-number : (g : Str) → number g ≡ listed (season_group text g)
  unfolding Str-discrete
  season_group-number [] = refl
  season_group-number (c ∷ cs) = elim (Option-cases (text.atoi (c ∷ cs))) [
    | inl none_read ↦ rw none_read refl
    | inr (n, got) ↦ elim (Bool-cases (ltb_ℤ (pos 0) n)) [
      | inl above ↦ rw (got, above) refl
      | inr below ↦ rw (got, below) refl
    ]
  ]

  first_listed :
      (a b : Option ℤ)
      → (elim a [ some n ↦ n | none ↦ elim b [ some n ↦ n | none ↦ pos 1 ] ])
        ≡ first_or (pos 1) (listed a ++ listed b)
  first_listed none none = refl
  first_listed none (some n) = refl
  first_listed (some n) b = refl

  pub season-extract_season : (name : Str) → extract_season text name ≡ season name
  unfolding extract_season
  season-extract_season name = elim (Option-cases (text.season_re name)) [
    | inl no_match ↦ rw (no_match, extract_season) refl
    | inr ((first, second), found) ↦
        let group_1 = season_group-number first in
        let group_2 = season_group-number second in
        rw (found, extract_season, group_1, group_2)
          (first_listed (season_group text first) (season_group text second))
  ]

  pub place-dir_path : (title : Str) (f : File) → place title f ≡ dir_path text title f
  unfolding dir_path
  place-dir_path title f = elim (Bool-cases (str_eq f.media_type (str "series"))) [
    | inl series ↦ elim (Bool-cases (str_eq f.media_type (str "anime"))) [
      | inl anime ↦ rw (anime, series) (ap (seasons title) (sym (season-extract_season f.name)))
      | inr other ↦ rw (other, series) (ap (seasons title) (sym (season-extract_season f.name)))
    ]
    | inr other ↦ elim (Bool-cases (str_eq f.media_type (str "anime"))) [
      | inl anime ↦ rw (anime, other) (ap (seasons title) (sym (season-extract_season f.name)))
      | inr film ↦ rw (film, other) refl
    ]
  ]
