-- ===== src/Torbox/Paging.antt =====
-- ListDownloads of internal/torbox/client.go against an API whose list does not change meanwhile.
use mathlib.Core.List.{append_assoc, append-nil}
use torbox_fuse_go.Base.{
  filter, filter_in, filter_out, map, if◌then◌else◌, ℕ, zero, suc, ◌+◌, ◌*◌, ◌-◌, ◌<◌, ◌≤◌, false,
  Option, some, List, [], ◌∷◌, ◌++◌, Str, ltb, length, ok, ◌≡◌, refl, sym, ap, ◌∙◌, arith, str,
  take, drop, length-drop, length-take, Bool-cases, ltb→lt, ltb→le, List-cases, inl, inr,
}
use torbox_fuse_go.Paths.{slash}
use torbox_fuse_go.Catalog.{File, Text, Download}
use torbox_fuse_go.Torbox.{
  ApiFileItem, file_items, download_item, ApiDownloadItem, page_limit, page_downloads, list_pages,
  list_downloads, api_kind,
}

sum_suc : (m n : ℕ) → suc m + n ≡ suc (m + n)
sum_suc m n = omega arith

module _ {ℓ} {A : Type ℓ} where
  drop_nil : (n : ℕ) → ◌≡◌ {A = List A} (drop n []) []
  drop_nil zero = refl
  drop_nil (suc n) = refl

  take-drop : (n : ℕ) (xs : List A) → take n xs ++ drop n xs ≡ xs
  take-drop zero xs = refl
  take-drop (suc n) [] = refl
  take-drop (suc n) (x ∷ xs) = rw (take-drop n xs) refl

  drop_add : (m n : ℕ) (xs : List A) → drop (m + n) xs ≡ drop n (drop m xs)
  drop_add zero n xs = ap (λ k. drop k xs) (omega arith)
  drop_add (suc m) n [] = drop_nil (suc m + n) ∙ sym (drop_nil n)
  drop_add (suc m) n (x ∷ xs) = ap (λ k. drop k (x ∷ xs)) (sum_suc m n) ∙ drop_add m n xs

  drop_short : (n : ℕ) (xs : List A) → length (take n xs) < n → drop n xs ≡ []
  drop_short zero xs h = absurd (omega arith)
  drop_short (suc n) [] h = refl
  drop_short (suc n) (x ∷ xs) h = drop_short n xs (omega arith)

  take_short : (n : ℕ) (xs : List A) → length (take n xs) < n → take n xs ≡ xs
  take_short n xs h =
      sym (append-nil (take n xs))
      ∙ ap (λ ys. take n xs ++ ys) (sym (drop_short n xs h))
      ∙ take-drop n xs

  -- A page that is not full is the last one, and behind a full one less is left.
  page_rest :
      (n fuel offset : ℕ) (xs page : List A)
      → take n (drop offset xs) ≡ page
      → ltb (length page) n ≡ false
      → length xs - offset < suc fuel * n
      → length xs - (offset + n) < fuel * n
  page_rest n fuel offset xs page e full h =
      omega (arith, ltb→le (length page) n full, length-page, suc_mul)
    where
      length-page : length page ≤ length xs - offset
      length-page = rw (← e, length-take n (drop offset xs), length-drop offset xs) (omega arith)

      suc_mul : suc fuel * n ≡ fuel * n + n
      suc_mul = omega arith

module _ (text : Text) (show : ℕ → Str) where
  page_downloads-append :
      (kind : Str) (xs ys : List ApiDownloadItem)
      → page_downloads text show kind (xs ++ ys)
        ≡ page_downloads text show kind xs ++ page_downloads text show kind ys
  unfolding page_downloads
  page_downloads-append kind [] ys = refl
  page_downloads-append kind (x ∷ xs) ys = elim (Bool-cases x.cached) [
    | inl e ↦ rw (e, page_downloads-append kind xs ys) refl
    | inr e ↦ rw (e, page_downloads-append kind xs ys) refl
  ]

  all_later :
      (kind : Str) (xs : List ApiDownloadItem) (all : List Download) (offset : ℕ)
      (page : List ApiDownloadItem)
      → take page_limit (drop offset xs) ≡ page
      → all ++ page_downloads text show kind (drop offset xs)
        ≡ (all ++ page_downloads text show kind page)
          ++ page_downloads text show kind (drop (offset + page_limit) xs)
  all_later kind xs all offset page e =
      rw (drop_add offset page_limit xs, ← e)
        (ap (λ ys. all ++ page_downloads text show kind ys)
            (sym (take-drop page_limit (drop offset xs)))
          ∙ ap (λ ds. all ++ ds)
              (page_downloads-append kind (take page_limit (drop offset xs))
                (drop page_limit (drop offset xs)))
          ∙ sym (append_assoc all _ _))

  all_done :
      (kind : Str) (xs : List ApiDownloadItem) (all : List Download) (offset : ℕ)
      (page : List ApiDownloadItem)
      → take page_limit (drop offset xs) ≡ page
      → length page < page_limit
      → all ++ page_downloads text show kind page
        ≡ all ++ page_downloads text show kind (drop offset xs)
  all_done kind xs all offset page e h =
      ap (λ ys. all ++ page_downloads text show kind ys)
        (sym e ∙ take_short page_limit (drop offset xs) (rw e h))

  all_empty :
      (kind : Str) (xs : List ApiDownloadItem) (all : List Download) (offset : ℕ)
      → take page_limit (drop offset xs) ≡ []
      → all ≡ all ++ page_downloads text show kind (drop offset xs)
  unfolding page_downloads
  all_empty kind xs all offset e =
      sym (append-nil all) ∙ all_done kind xs all offset [] e (omega arith)

  module _ {C : Type 0} (get : C → Str → ℕ → C × Option (List ApiDownloadItem))
      (xs : List ApiDownloadItem) (path : Str)
      (serves : (c : C) (offset : ℕ)
        → (get c path offset).1 ≡ some (take page_limit (drop offset xs))) where
    list_pages_complete :
        (fuel : ℕ) (c : C) (kind : Str) (offset : ℕ) (all : List Download)
        → length xs - offset < fuel * page_limit
        → (list_pages text show get fuel c kind path offset all).1
          ≡ some (ok (all ++ page_downloads text show kind (drop offset xs)))
    unfolding list_pages
    list_pages_complete zero c kind offset all h = absurd (omega arith)
    list_pages_complete (suc fuel) c kind offset all h =
        elim (List-cases (take page_limit (drop offset xs))) [
          | inl e ↦
              rw (list_pages, serves c offset, e)
                (ap (λ ys. some (ok ys)) (all_empty kind xs all offset e))
          | inr (i, is, e) ↦ elim (Bool-cases (ltb (suc (length is)) page_limit)) [
            | inl lt ↦
                rw (list_pages, serves c offset, e, lt)
                  (ap (λ ys. some (ok ys))
                    (all_done kind xs all offset (i ∷ is) e
                      (ltb→lt (suc (length is)) page_limit lt)))
            | inr ge ↦
                rw (list_pages, serves c offset, e, ge)
                  (list_pages_complete fuel (get c path offset).0 kind (offset + page_limit)
                      (all ++ page_downloads text show kind (i ∷ is))
                      (page_rest page_limit fuel offset xs (i ∷ is) e ge h)
                    ∙ ap (λ ys. some (ok ys)) (sym (all_later kind xs all offset (i ∷ is) e)))
          ]
        ]

  -- What is told of an item and of its files, and of a download and of its files.
  abbrev pub FileFacts : Type 0
  FileFacts = Str × Str × Str × Str × ℕ

  abbrev pub Facts : Type 0
  Facts = (Str × Str × Str × Str) × List FileFacts

  abbrev pub file_item_facts : Str → Str → ApiFileItem → FileFacts
  file_item_facts kind id f = (kind, id, show f.file_item_id, f.item_name, f.item_size)

  abbrev pub item_facts : Str → ApiDownloadItem → Facts
  item_facts kind i = (
    (kind, show i.item_id, i.title, i.item_hash),
    map (file_item_facts kind (show i.item_id)) i.item_files,
  )

  abbrev pub file_facts : File → FileFacts
  file_facts f = (f.download_kind, f.download_id, f.file_id, f.name, f.size)

  abbrev pub download_facts : Download → Facts
  download_facts d = ((d.kind, d.id, d.download_name, d.hash), map file_facts d.files)

  file_items-facts :
      (kind id : Str) (tags : List Str) (fs : List ApiFileItem)
      → map file_facts (file_items text show kind id tags fs) ≡ map (file_item_facts kind id) fs
  unfolding file_items
  file_items-facts kind id tags [] = refl
  file_items-facts kind id tags (f ∷ fs) =
      ap (λ l. file_item_facts kind id f ∷ l) (file_items-facts kind id tags fs)

  download_item-facts :
      (kind : Str) (x : ApiDownloadItem)
      → download_facts (download_item text show kind x) ≡ item_facts kind x
  download_item-facts kind x =
      ap (λ l. ((kind, show x.item_id, x.title, x.item_hash), l))
        (file_items-facts kind (show x.item_id) x.tags x.item_files)

  page_downloads-facts :
      (kind : Str) (xs : List ApiDownloadItem)
      → map download_facts (page_downloads text show kind xs)
        ≡ map (item_facts kind) (filter (λ i. i.cached) xs)
  unfolding page_downloads filter
  page_downloads-facts kind [] = refl
  page_downloads-facts kind (x ∷ xs) =
      let rest = page_downloads-facts kind xs in
      elim (Bool-cases x.cached) [
        | inl e ↦
            ap
              (λ b. map download_facts (
                if b
                then download_item text show kind x ∷ page_downloads text show kind xs
                else page_downloads text show kind xs))
              e
            ∙ ap (λ d. d ∷ map download_facts (page_downloads text show kind xs))
                (download_item-facts kind x)
            ∙ ap (λ l. item_facts kind x ∷ l) rest
            ∙ sym (ap (map (item_facts kind)) (filter_in (λ i. i.cached) x xs e))
        | inr e ↦
            ap
              (λ b. map download_facts (
                if b
                then download_item text show kind x ∷ page_downloads text show kind xs
                else page_downloads text show kind xs))
              e
            ∙ rest
            ∙ sym (ap (map (item_facts kind)) (filter_out (λ i. i.cached) x xs e))
      ]

  -- Against an API whose list stays the same, ListDownloads of a known kind returns a download for each
  -- item of the whole list that is cached and for no other, in their order, with the item's number, name
  -- and hash, and with a file for each of its files, with a fuel above the list's number of full pages.
  pub list_downloads_complete :
      {C : Type 0} (get : C → Str → ℕ → C × Option (List ApiDownloadItem)) (kind k : Str)
      (xs : List ApiDownloadItem) (fuel : ℕ) (c : C)
      → api_kind kind ≡ some k
      → ((c : C) (offset : ℕ)
          → (get c (slash ∷ (k ++ str "/mylist")) offset).1
            ≡ some (take page_limit (drop offset xs)))
      → length xs < fuel * page_limit
      → (ds : List Download) × ((list_downloads text show get fuel c kind).1 ≡ some (ok ds))
        × (map download_facts ds ≡ map (item_facts kind) (filter (λ i. i.cached) xs))
  unfolding list_downloads
  list_downloads_complete get kind k xs fuel c e serves h = (
    page_downloads text show kind xs,
    rw (list_downloads, e)
        (list_pages_complete get xs (slash ∷ (k ++ str "/mylist")) serves fuel c kind 0 []
          (omega arith)),
    page_downloads-facts kind xs,
  )
