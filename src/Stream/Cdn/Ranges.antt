-- ===== src/Stream/Cdn/Ranges.antt =====
-- The range requests of internal/stream/cdn.go: FetchRange and doRangeRequest. The requests for the
-- URL and those for the range have functions of their own, since the API and the CDN are different
-- servers; the wait for the host's semaphore is an argument.
pub mod Expiry
use torbox_fuse_go.Base.{
  ℕ, zero, suc, Bool, true, false, ◌||◌, Option, none, some, List, [], ◌∷◌, Str, Str-discrete,
  if◌then◌else◌, ◌==◌,
}
use torbox_fuse_go.Stream.Cdn.{
  max_redirects, Response, no_response, answered, is_redirect, CdnClient, Outcome, found,
  backing_off, failed_with, resolve_url, invalidate_url,
}

pub data RangeError : Type 0 where
  not_resolved : Outcome → RangeError
  not_resolved_again : (status : ℕ) → Outcome → RangeError
  not_acquired : RangeError
  range_request_failed : RangeError
  range_no_location : RangeError
  range_bad_location : RangeError
  full_response_for_offset : RangeError
  http_status_error : (status : ℕ) → RangeError
  range_too_many_redirects : RangeError

-- A response with its body open, or an error.
pub data RangeResult : Type 0 where
  streaming : (url : Str) (status : ℕ) → RangeResult
  refused : RangeError → RangeResult

-- The switch on the status of a response that is no redirect.
abbrev pub check_status : ℕ → Str → ℕ → RangeResult
check_status start url status =
    if status == 206
    then streaming url status
    else if status == 200
    then (if start == 0 then streaming url status else refused full_response_for_offset)
    else refused (http_status_error status)

-- The result, and the statuses that the metrics have counted, the first one first.
abbrev pub counting : ℕ → RangeResult × List ℕ → RangeResult × List ℕ
counting status (r, statuses) = (r, status ∷ statuses)

module _ (get_range : Str → ℕ → ℕ → Response) (join_url : Str → Str → Option Str)
    (start finish : ℕ) where
  unfoldable pub do_range_request : ℕ → Str → RangeResult × List ℕ
  do_range_request zero url = (refused range_too_many_redirects, [])
  do_range_request (suc left) url = elim (get_range url start finish) [
    | no_response ↦ (refused range_request_failed, [])
    | answered status location ↦ elim (is_redirect status) [
      | false ↦ (check_status start url status, status ∷ [])
      | true ↦ elim location [
        | [] ↦ (refused range_no_location, status ∷ [])
        | c ∷ cs ↦ elim (join_url url (c ∷ cs)) [
          | none ↦ (refused range_bad_location, status ∷ [])
          | some next ↦ counting status (do_range_request left next)
        ]
      ]
    ]
  ]

-- The client behind a call, CDNRequestCount's part of it, the statuses counted, and the result.
pub record Fetched : Type 0 where
  pub client_after : CdnClient
  pub cdn_requests : ℕ
  pub cdn_statuses : List ℕ
  pub range_result : RangeResult

abbrev pub fetched : CdnClient → ℕ → RangeResult × List ℕ → Fetched
fetched c n (r, statuses) = record {
  client_after = c;
  cdn_requests = n;
  cdn_statuses = statuses;
  range_result = r;
}

abbrev pub append_statuses : List ℕ → Fetched → Fetched
append_statuses [] f = f
append_statuses (s ∷ ss) f =
    let f' = append_statuses ss f in record f' { cdn_statuses = s ∷ f'.cdn_statuses }

module _ (get_api get_api_again : Str → Response) (get_range : Str → ℕ → ℕ → Response)
    (join_url : Str → Str → Option Str) where
  -- The second resolution, behind a response with 401 or 403.
  abbrev pub retry_range : Str → ℕ → ℕ → ℕ → Str → CdnClient × Outcome → Fetched
  retry_range old_url status start finish api_url (c, found new_url) =
      elim (Str-discrete new_url old_url) [
        | yes _ ↦ fetched c 1 (refused (http_status_error status), [])
        | no _ ↦
            fetched c 1 (do_range_request get_range join_url start finish max_redirects new_url)
      ]
  retry_range old_url status start finish api_url (c, backing_off) =
      fetched c 1 (refused (not_resolved_again status backing_off), [])
  retry_range old_url status start finish api_url (c, failed_with e) =
      fetched c 1 (refused (not_resolved_again status (failed_with e)), [])

  -- What FetchRange does with the result of the range request for `url`.
  abbrev pub after_range : CdnClient → Str → Str → ℕ → ℕ → ℕ → ℕ → RangeResult × List ℕ → Fetched
  after_range c api_url url start finish now stored_at (refused e, statuses) =
      fetched c 1 (refused e, statuses)
  after_range c api_url url start finish now stored_at (streaming last status, statuses) =
      if status == 403 || status == 401
      then append_statuses statuses (
          retry_range url status start finish api_url
            (resolve_url get_api_again join_url (invalidate_url c api_url) api_url now stored_at))
      else fetched c 1 (streaming last status, statuses)

  abbrev pub fetch_resolved : Bool → Str → ℕ → ℕ → ℕ → ℕ → CdnClient × Outcome → Fetched
  fetch_resolved acquired api_url start finish now stored_at (c, found url) =
      if acquired
      then after_range c api_url url start finish now stored_at
          (do_range_request get_range join_url start finish max_redirects url)
      else fetched c 0 (refused not_acquired, [])
  fetch_resolved acquired api_url start finish now stored_at (c, backing_off) =
      fetched c 0 (refused (not_resolved backing_off), [])
  fetch_resolved acquired api_url start finish now stored_at (c, failed_with e) =
      fetched c 0 (refused (not_resolved (failed_with e)), [])

  -- `now` and `stored_at` are the times of the first resolution, `again` and `stored_again` of the
  -- second; `acquired` is false if the context ends in the wait for the host's semaphore.
  unfoldable pub fetch_range :
      CdnClient → Str → ℕ → ℕ → Bool → (now stored_at again stored_again : ℕ) → Fetched
  fetch_range c api_url start finish acquired now stored_at again stored_again =
      fetch_resolved acquired api_url start finish again stored_again
        (resolve_url get_api join_url c api_url now stored_at)
