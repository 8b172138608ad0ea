-- ===== src/Torbox/Delete.antt =====
-- DeleteDownload and apiPost of internal/torbox/client.go. `post` is httpClient.Do for the request that
-- the body makes, and the read of the answer; the body is marshalled without error, as it has texts
-- and numbers only.
use torbox_fuse_go.Base.{
  ℕ, ◌≤◌, suc, Option, none, Str, leb, Result, ok, err, if◌then◌else◌, ◌≡◌, refl, arith,
}
use torbox_fuse_go.Torbox.{DeleteRequest, delete_request}
use torbox_fuse_go.Torbox.Api.{ApiError, Outcome, limit_read}

pub data DeleteError : Type 0 where
  bad_id : DeleteError
  unknown_kind : DeleteError
  api_failed : ApiError → DeleteError

abbrev pub post_result : Outcome → Result ApiError Str
post_result Outcome.bad_request = err ApiError.create_request
post_result Outcome.no_response = err ApiError.request_failed
post_result Outcome.no_body = err ApiError.read_response
post_result (Outcome.reply status body) =
    if leb 400 status then err ApiError.client_error else ok (limit_read body)

abbrev pub deleted : Result ApiError Str → Result DeleteError (Unit {0})
deleted (ok body) = ok tt
deleted (err e) = err (DeleteError.api_failed e)

module _ {S : Type 0} (post : S → DeleteRequest → S × Outcome) where
  abbrev pub api_post : S → DeleteRequest → S × Result ApiError Str
  api_post s request = let (s', outcome) = post s request in (s', post_result outcome)

  abbrev pub send_delete : S → DeleteRequest → S × Result DeleteError (Unit {0})
  send_delete s DeleteRequest.invalid_id = (s, err DeleteError.bad_id)
  send_delete s DeleteRequest.unknown_delete_kind = (s, err DeleteError.unknown_kind)
  send_delete s request = let (s', r) = api_post s request in (s', deleted r)

  unfoldable pub delete_download :
      (Str → Option ℕ) → S → Str → Str → S × Result DeleteError (Unit {0})
  delete_download atoi s kind download_id = send_delete s (delete_request atoi kind download_id)

  send_delete_once :
      (sent : S → ℕ) (s : S) (r : DeleteRequest)
      → ((s : S) (r : DeleteRequest) → sent (post s r).0 ≤ suc (sent s))
      → sent (send_delete s r).0 ≤ suc (sent s)
  send_delete_once sent s DeleteRequest.invalid_id once = omega arith
  send_delete_once sent s DeleteRequest.unknown_delete_kind once = omega arith
  send_delete_once sent s (DeleteRequest.delete_by_number path field id) once = once s _
  send_delete_once sent s (DeleteRequest.delete_by_text path field id) once = once s _

  -- DeleteDownload sends one request at most, and none for an identifier that is no number.
  pub delete_download_once :
      (sent : S → ℕ) (atoi : Str → Option ℕ) (s : S) (kind download_id : Str)
      → ((s : S) (r : DeleteRequest) → sent (post s r).0 ≤ suc (sent s))
      → (sent (delete_download atoi s kind download_id).0 ≤ suc (sent s))
        × (atoi download_id ≡ none
            → delete_download atoi s kind download_id ≡ (s, err DeleteError.bad_id))
  unfolding delete_download delete_request
  delete_download_once sent atoi s kind download_id once = (
    send_delete_once sent s (delete_request atoi kind download_id) once,
    λ e. rw (delete_download, delete_request, e) refl,
  )
