-- ===== src/Catalog.antt =====
-- internal/catalog: the types of types.go and the classification of classify.go. What the package
-- uses of regexp, strings and strconv beyond Paths is a record of functions.
pub mod Tree
pub mod FromDb
pub mod Parents
pub mod Rounds
pub mod Listed
pub mod Shown
pub mod Hides
pub mod Place
pub mod Built
pub mod Sorted
pub mod Whole
pub mod Refresh
pub mod Walk
pub mod Refreshed
mod Tests
use torbox_fuse_go.Base.{
  ℕ, Bool, true, false, List, [], ◌∷◌, ◌++◌, Str, str, str_eq, if◌then◌else◌, Option, ℤ,
}

-- strings.ToLower and TrimSpace, strconv.Atoi and Itoa, seasonEpisodeRe.MatchString, hashRe.MatchString,
-- and the two groups that seasonRe.FindStringSubmatch finds.
pub record Text : Type 0 where
  pub to_lower : Str → Str
  pub trim_space : Str → Str
  pub atoi : Str → Option ℤ
  pub itoa : ℤ → Str
  pub season_episode_re : Str → Bool
  pub hash_re : Str → Bool
  pub season_re : Str → Option (Str × Str)

abbrev pub kind_torrent : Str
kind_torrent = str "torrent"

abbrev pub kind_usenet : Str
kind_usenet = str "usenet"

abbrev pub kind_web_dl : Str
kind_web_dl = str "webdl"

abbrev pub media_movie : Str
media_movie = str "movie"

abbrev pub media_series : Str
media_series = str "series"

abbrev pub media_anime : Str
media_anime = str "anime"

pub record File : Type 0 where
  pub download_kind : Str
  pub download_id : Str
  pub file_id : Str
  pub name : Str
  pub size : ℕ
  pub mime_type : Str
  pub media_type : Str

pub record Download : Type 0 where
  pub kind : Str
  pub id : Str
  pub download_name : Str
  pub hash : Str
  pub files : List File

abbrev pub content_key : File → Str
content_key f = f.download_kind ++ (b':' ∷ (f.download_id ++ (b':' ∷ f.file_id)))

module _ (text : Text) where
  abbrev pub by_name : Str → Str → Str
  by_name filename fallback = if text.season_episode_re filename then media_series else fallback

  unfoldable pub classify_media_type : List Str → Str → Str → Str
  classify_media_type [] filename fallback = by_name filename fallback
  classify_media_type (tag ∷ tags) filename fallback =
      let rest = classify_media_type tags filename fallback in
      let lower = text.to_lower tag in
      if str_eq lower (str "type=movie")
      then media_movie
      else if str_eq lower (str "type=series")
      then media_series
      else if str_eq lower (str "type=anime")
      then media_series
      else rest
