-- ===== src/Torbox.antt =====
-- internal/torbox/client.go: ListDownloads, PermalinkURL, RedactToken and DeleteDownload. A page of the
-- API is what json.Unmarshal makes of a body; its numbers are natural, and its tags the texts that
-- extractTags makes of them. Torbox/Api has apiGet with its cache and retries.
pub mod Api
mod Delete
pub mod Paging
pub mod Redaction
mod Tests
use torbox_fuse_go.Base.{
  ℕ, zero, suc, ◌+◌, Bool, true, false, Option, none, some, List, [], ◌∷◌, ◌++◌, Str, str, str_eq,
  Str-discrete, if◌then◌else◌, ltb, length, Result, ok, err, ◌==◌,
}
use torbox_fuse_go.Paths.{slash, has_prefix, segments, last_segment}
use torbox_fuse_go.Catalog.{
  Text, File, Download, kind_torrent, kind_usenet, kind_web_dl, media_movie, classify_media_type,
}

pub record ApiFileItem : Type 0 where
  pub file_item_id : ℕ
  pub short_name : Str
  pub item_name : Str
  pub item_size : ℕ
  pub item_mime : Str

pub record ApiDownloadItem : Type 0 where
  pub item_id : ℕ
  pub item_hash : Str
  pub title : Str
  pub cached : Bool
  pub item_files : List ApiFileItem
  pub tags : List Str

-- The path of a kind's list, and none for a kind that is not known.
unfoldable pub api_kind : Str → Option Str
unfolding Str-discrete
api_kind kind =
    if str_eq kind kind_torrent
    then some (str "torrents")
    else if str_eq kind kind_usenet
    then some (str "usenet")
    else if str_eq kind kind_web_dl
    then some (str "webdl")
    else none

abbrev pub page_limit : ℕ
page_limit = 1000

-- The short name, or else what is behind the last slash of the name.
abbrev pub short_name_of : Str → Str → Str
short_name_of [] name = last_segment (segments name)
short_name_of (c ∷ cs) name = c ∷ cs

pub data ListError : Type 0 where
  unknown_kind : ListError
  page_failed : ListError

module _ (text : Text) (show : ℕ → Str) where
  abbrev pub file_item : Str → Str → List Str → ApiFileItem → File
  file_item kind id tags f = record {
    download_kind = kind;
    download_id = id;
    file_id = show f.file_item_id;
    name = f.item_name;
    size = f.item_size;
    mime_type = f.item_mime;
    media_type = classify_media_type text tags (short_name_of f.short_name f.item_name) media_movie;
  }

  unfoldable pub file_items : Str → Str → List Str → List ApiFileItem → List File
  file_items kind id tags [] = []
  file_items kind id tags (f ∷ fs) = file_item kind id tags f ∷ file_items kind id tags fs

  abbrev pub download_item : Str → ApiDownloadItem → Download
  download_item kind item = record {
    kind = kind;
    id = show item.item_id;
    download_name = item.title;
    hash = item.item_hash;
    files = file_items kind (show item.item_id) item.tags item.item_files;
  }

  -- The downloads of a page: those that are cached.
  unfoldable pub page_downloads : Str → List ApiDownloadItem → List Download
  page_downloads kind [] = []
  page_downloads kind (item ∷ items) =
      let rest = page_downloads kind items in
      if item.cached then download_item kind item ∷ rest else rest

  -- `get` is apiGet for the page at an offset, with the parse of its body, in the state of the client;
  -- `none` if the fuel runs out: the API decides how many pages there are.
  module _ {C : Type 0} (get : C → Str → ℕ → C × Option (List ApiDownloadItem)) where
    unfoldable pub list_pages :
        ℕ → C → Str → Str → ℕ → List Download → C × Option (Result ListError (List Download))
    list_pages zero c kind path offset all = (c, none)
    list_pages (suc fuel) c kind path offset all =
        let (c', page) = get c path offset in
        elim page [
          | none ↦ (c', some (err page_failed))
          | some items ↦ elim items [
            | [] ↦ (c', some (ok all))
            | i ∷ is ↦
                let all' = all ++ page_downloads kind (i ∷ is) in
                elim (ltb (length (i ∷ is)) page_limit) [
                  | true ↦ (c', some (ok all'))
                  | false ↦ list_pages fuel c' kind path (offset + page_limit) all'
                ]
          ]
        ]

    unfoldable pub list_downloads : ℕ → C → Str → C × Option (Result ListError (List Download))
    list_downloads fuel c kind = elim (api_kind kind) [
      | none ↦ (c, some (err unknown_kind))
      | some k ↦ list_pages fuel c kind (slash ∷ (k ++ str "/mylist")) 0 []
    ]

abbrev pub api_path : Str → Str
api_path kind =
    if str_eq kind kind_usenet
    then str "usenet"
    else if str_eq kind kind_web_dl
    then str "webdl"
    else str "torrents"

abbrev pub id_param : Str → Str
id_param kind =
    if str_eq kind kind_usenet
    then str "usenet_id"
    else if str_eq kind kind_web_dl
    then str "web_id"
    else str "torrent_id"

abbrev pub token_key : Str
token_key = str "token="

abbrev pub ampersand : ℕ
ampersand = b'&'

-- What stands before and behind the token.
abbrev pub before_token : Str → Str → Str
before_token base_url kind = base_url ++ (slash ∷ (api_path kind ++ str "/requestdl?"))

abbrev pub after_token : Str → Str → Str → Str
after_token kind download_id file_id =
    ampersand
    ∷ (id_param kind
        ++ (b'=' ∷ (download_id ++ (str "&file_id=" ++ (file_id ++ str "&redirect=true")))))

unfoldable pub permalink_url : Str → Str → Str → Str → Str → Str
permalink_url base_url token kind download_id file_id =
    before_token base_url kind ++ (token_key ++ (token ++ after_token kind download_id file_id))

-- From the first & on.
unfoldable pub from_ampersand : Str → Str
from_ampersand [] = []
from_ampersand (c ∷ cs) = let rest = from_ampersand cs in if c == ampersand then c ∷ cs else rest

-- Behind a prefix; strings.Index finds the first place that has it.
unfoldable pub drop_prefix : Str → Str → Option Str
drop_prefix [] s = some s
drop_prefix (c ∷ cs) [] = none
drop_prefix (c ∷ cs) (d ∷ ds) = let rest = drop_prefix cs ds in if c == d then rest else none

unfoldable pub redact_token : Str → Str
redact_token [] = []
redact_token (c ∷ cs) =
    let rest = redact_token cs in
    elim (drop_prefix token_key (c ∷ cs)) [
      | some value ↦ token_key ++ (str "***" ++ from_ampersand value)
      | none ↦ c ∷ rest
    ]

-- DeleteDownload's request: the path and the identifier, which only usenet gets as a text.
pub data DeleteRequest : Type 0 where
  delete_by_number : (path field : Str) (id : ℕ) → DeleteRequest
  delete_by_text : (path field id : Str) → DeleteRequest
  invalid_id : DeleteRequest
  unknown_delete_kind : DeleteRequest

unfoldable pub delete_request : (Str → Option ℕ) → Str → Str → DeleteRequest
delete_request atoi kind download_id = elim (atoi download_id) [
  | none ↦ invalid_id
  | some n ↦
      if str_eq kind kind_torrent
      then delete_by_number (str "/torrents/controltorrent") (str "torrent_id") n
      else if str_eq kind kind_usenet
      then delete_by_text (str "/usenet/controlusenetdownload") (str "usenet_id") download_id
      else if str_eq kind kind_web_dl
      then delete_by_number (str "/webdl/controlwebdownload") (str "webdl_id") n
      else unknown_delete_kind
]
