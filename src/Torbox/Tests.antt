-- ===== src/Torbox/Tests.antt =====
-- Runs of the TorBox client, and the theorems at concrete inputs.
use torbox_fuse_go.Base.{
  filter, map, ℕ, zero, suc, ◌+◌, ◌<◌, true, false, Option, none, some, List, [], ◌∷◌, Str, str,
  Str-discrete, ◌≡◌, refl, sym, ap, arith, take, drop, All, ◌≢◌, ok, lookup, insert, ◌==◌,
  if◌then◌else◌,
}
use torbox_fuse_go.Catalog.{Download, Text, kind_torrent, kind_usenet}
use torbox_fuse_go.Torbox.{
  ApiDownloadItem, page_limit, list_downloads, api_kind, redact_token, permalink_url,
  delete_request, DeleteRequest, from_ampersand, drop_prefix, ampersand,
}
use torbox_fuse_go.Torbox.Paging.{list_downloads_complete, download_facts, item_facts}
use torbox_fuse_go.Torbox.Redaction.{NoToken, redact_token-permalink_url}
use torbox_fuse_go.Torbox.Api.{
  Http, Outcome, limit_read, api_get, cache_key, bypasses, sort_params, add_params, verdict,
  attempts, store_answer, Params,
}
use torbox_fuse_go.Torbox.Api.Attempts.{HttpOk}
use torbox_fuse_go.Torbox.Api.Oldest.{CacheOk}
use torbox_fuse_go.Torbox.Api.Answers.{ApiOk, api_get-ApiOk}
use torbox_fuse_go.Torbox.Api.Retries.{ServerFails, after_tries, tried, api_get-answer}

abbrev text : Text
text = record {
  to_lower = λ s. s;
  trim_space = λ s. s;
  atoi = λ s. none;
  itoa = λ n. str "1";
  season_episode_re = λ s. false;
  hash_re = λ s. false;
  season_re = λ s. none;
}

redact_token_runs :
    (redact_token (str "a?token=s3&x=1") ≡ str "a?token=***&x=1")
    × (redact_token (str "a?token=s3") ≡ str "a?token=***")
    × (redact_token (str "a?x=1") ≡ str "a?x=1")
unfolding redact_token drop_prefix from_ampersand
redact_token_runs = (refl, refl, refl)

abbrev base_url : Str
base_url = str "api"

base_url-NoToken : NoToken base_url
unfolding NoToken drop_prefix
base_url-NoToken = (refl, (refl, (refl, tt)))

token_plain : All (λ c. c ≢ ampersand) (str "s3")
token_plain = ground arith

redact_token-permalink_url_example :
    redact_token (permalink_url base_url (str "s3") kind_usenet (str "7") (str "1"))
    ≡ permalink_url base_url (str "***") kind_usenet (str "7") (str "1")
redact_token-permalink_url_example =
    redact_token-permalink_url base_url (str "s3") kind_usenet (str "7") (str "1") base_url-NoToken
      token_plain

-- The world counts its readings of the clock and its requests; the first request fails.
abbrev World : Type 0
World = ℕ × ℕ

abbrev scripted : ℕ → Outcome
scripted n = Outcome.reply (if n == 0 then 500 else 200) (str "ok")

abbrev world_http : Http World
world_http = record {
  send = λ s path params. ((s.0, suc s.1), scripted s.1);
  retry_after = λ s. (s, false);
  backoff = λ s n. s;
  clock = λ s. ((suc s.0, s.1), s.0);
}

api_get_runs :
    (api_get world_http (7, 0) [] (str "/p") []
      ≡ ((8, 2), (str "/p", record { data_bytes = str "ok"; created_at = 7 }) ∷ [], ok (str "ok")))
unfolding api_get attempts store_answer verdict limit_read cache_key add_params sort_params bypasses
    lookup insert Str-discrete
api_get_runs = refl

abbrev Ok : Str → Type 0
Ok body = body ≡ limit_read (str "ok")

body_of : Outcome → Str
body_of (Outcome.reply status body) = body
body_of _ = []

world_http-HttpOk : HttpOk world_http Ok (λ s. s.0) (λ s. s.1)
unfolding body_of
world_http-HttpOk = record {
  reads = λ s. (omega arith, omega arith);
  send_time = λ s path params. omega arith;
  wait_time = λ s. omega arith;
  backoff_time = λ s n. omega arith;
  clock_calls = λ s. refl;
  send_calls = λ s path params. omega arith;
  wait_calls = λ s. refl;
  backoff_calls = λ s n. refl;
  answers = λ s path params status body e low. ap (λ o. limit_read (body_of o)) (sym e);
}

empty-CacheOk : CacheOk Ok 7 []
empty-CacheOk = record { distinct = tt; bounded = omega arith; earlier = tt; named = tt; good = tt }

api_get-ApiOk_example :
    ApiOk world_http Ok
      (λ s. s.0)
      (λ s. s.1)
      world_http-HttpOk
      (7, 0)
      []
      (cache_key (str "/p") [])
      (api_get world_http (7, 0) [] (str "/p") [])
api_get-ApiOk_example =
    api_get-ApiOk world_http Ok (λ s. s.0) (λ s. s.1) world_http-HttpOk (7, 0) [] (str "/p") []
      empty-CacheOk (λ e. absurd (cc))

abbrev bypass : Params
bypass = (str "bypass_cache", str "true") ∷ []

bypass-bypasses : bypasses bypass ≡ true
unfolding bypasses lookup Str-discrete
bypass-bypasses = refl

first_fails :
    (k : ℕ)
    → k < 1
    → ServerFails world_http (str "/p") bypass (tried world_http (str "/p") bypass k (7, 0))
unfolding after_tries
first_fails zero h = (500, str "ok", refl, omega arith)
first_fails (suc k) h = absurd (omega arith)

then_answers : tried world_http (str "/p") bypass 1 (7, 0) ≡ Outcome.reply 200 (str "ok")
unfolding after_tries
then_answers = refl

api_get-answer_example :
    (api_get world_http (7, 0) [] (str "/p") bypass).2 ≡ ok (limit_read (str "ok"))
api_get-answer_example =
    api_get-answer world_http (str "/p") bypass 1 (7, 0) [] 200 (str "ok") bypass-bypasses
      (omega arith) first_fails then_answers (omega arith)

-- An API with one cached item and one that is not.
abbrev listed : List ApiDownloadItem
listed =
    record {
      item_id = 1;
      item_hash = str "h";
      title = str "A";
      cached = true;
      item_files = [];
      tags = [];
    }
    ∷ record {
      item_id = 2;
      item_hash = str "i";
      title = str "B";
      cached = false;
      item_files = [];
      tags = [];
    }
    ∷ []

abbrev serve : ℕ → Str → ℕ → ℕ × Option (List ApiDownloadItem)
serve n path offset = (suc n, some (take page_limit (drop offset listed)))

abbrev show : ℕ → Str
show n = (b'0' + n) ∷ []

torrent_kind : api_kind kind_torrent ≡ some (str "torrents")
unfolding api_kind Str-discrete
torrent_kind = refl

list_downloads_complete_example :
    (ds : List Download) × ((list_downloads text show serve 1 0 kind_torrent).1 ≡ some (ok ds))
    × (map (download_facts text show) ds
        ≡ map (item_facts text show kind_torrent) (filter (λ i. i.cached) listed))
list_downloads_complete_example =
    list_downloads_complete text show serve kind_torrent (str "torrents") listed 1 0 torrent_kind
      (λ c offset. refl) (omega arith)

delete_runs :
    (delete_request (λ s. some 7) kind_usenet (str "07")
      ≡ DeleteRequest.delete_by_text
          (str "/usenet/controlusenetdownload")
          (str "usenet_id")
          (str "07"))
    × (delete_request (λ s. some 7) kind_torrent (str "07")
        ≡ DeleteRequest.delete_by_number (str "/torrents/controltorrent") (str "torrent_id") 7)
unfolding delete_request Str-discrete
delete_runs = (refl, refl)
