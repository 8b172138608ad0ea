-- ===== src/Stream/Cdn/Ranges/Expiry.antt =====
-- Which responses doRangeRequest in internal/stream/cdn.go hands on, and what FetchRange does with
-- an expired URL.
use torbox_fuse_go.Base.{
  List, ◌⊎◌, List-cases, ℕ, zero, suc, ◌≡◌, refl, Bool, true, false, Option, Str, ◌==◌, ◌∷◌, arith,
  Bool-cases, Option-cases, inl, inr,
}
use torbox_fuse_go.Stream.Cdn.{
  Response, no_response, answered, is_redirect, CdnClient, Outcome, found, backing_off, failed_with,
  resolve_url, max_redirects,
}
use torbox_fuse_go.Stream.Cdn.Ranges.{
  RangeResult, streaming, refused, check_status, do_range_request, after_range, fetch_resolved,
  fetch_range, Fetched,
}

-- A response that is handed on has 206, or 200 for a range from the start of the file.
abbrev pub Fits : ℕ → RangeResult → Type 0
Fits start (refused e) = Unit
Fits start (streaming url status) = (status ≡ 206) ⊎ ((status ≡ 200) × (start ≡ 0))

check_status-Fits :
    (start : ℕ) (url : Str) (status : ℕ) → Fits start (check_status start url status)
check_status-Fits start url status = elim (Bool-cases (status == 206)) [
  | inl partial ↦ rw partial (inl (ground arith))
  | inr other ↦ elim (Bool-cases (status == 200)) [
    | inr bad ↦ rw (other, bad) tt
    | inl full ↦ elim (Bool-cases (start == 0)) [
      | inl first ↦ rw (other, full, first) (inr ((ground arith), (ground arith)))
      | inr later ↦ rw (other, full, later) tt
    ]
  ]
]

module _ (get_range : Str → ℕ → ℕ → Response) (join_url : Str → Str → Option Str)
    (start finish : ℕ) where
  range-Fits :
      (left : ℕ) (url : Str) (r : Response)
      → get_range url start finish ≡ r
      → ((next : Str) → Fits start (do_range_request get_range join_url start finish left next).0)
      → Fits start (do_range_request get_range join_url start finish (suc left) url).0
  unfolding do_range_request
  range-Fits left url no_response e ih = rw (e, do_range_request) tt
  range-Fits left url (answered status location) e ih = elim (Bool-cases (is_redirect status)) [
    | inr last ↦ rw (e, do_range_request, last) (check_status-Fits start url status)
    | inl moved ↦ elim (List-cases location) [
      | inl empty ↦ rw (e, do_range_request, moved, empty) tt
      | inr (c, cs, some_location) ↦ elim (Option-cases (join_url url (c ∷ cs))) [
        | inl bad ↦ rw (e, do_range_request, moved, some_location, bad) tt
        | inr (next, good) ↦ rw (e, do_range_request, moved, some_location, good) (ih next)
      ]
    ]
  ]

  do_range_request-Fits :
      (left : ℕ) (url : Str)
      → Fits start (do_range_request get_range join_url start finish left url).0
  unfolding do_range_request
  do_range_request-Fits zero url = tt
  do_range_request-Fits (suc left) url =
      range-Fits left url (get_range url start finish) refl (do_range_request-Fits left)

-- The client is the one behind the first resolution, and the response fits the range.
abbrev pub Unrenewed : ℕ → CdnClient → Fetched → Type 0
Unrenewed start c f = (f.client_after ≡ c) × Fits start f.range_result

module _ (get_api get_api_again : Str → Response) (get_range : Str → ℕ → ℕ → Response)
    (join_url : Str → Str → Option Str) (start finish again stored_again : ℕ) where
  after_range-Unrenewed :
      (c : CdnClient) (api_url url : Str) (r : RangeResult × List ℕ)
      → Fits start r.0
      → Unrenewed start c (
          after_range get_api get_api_again get_range join_url c api_url url start finish again
            stored_again r)
  after_range-Unrenewed c api_url url (refused e, statuses) fits = (refl, tt)
  after_range-Unrenewed c api_url url (streaming last status, statuses) fits =
      let forbidden : (status == 403) ≡ false = ground arith in
      let unauthorized : (status == 401) ≡ false = ground arith in
      rw (forbidden, unauthorized) (refl, fits)

  fetch_resolved-Unrenewed :
      (acquired : Bool) (api_url : Str) (r : CdnClient × Outcome)
      → Unrenewed start r.0 (
          fetch_resolved get_api get_api_again get_range join_url acquired api_url start finish
            again stored_again r)
  fetch_resolved-Unrenewed true api_url (c, found url) =
      after_range-Unrenewed c api_url url
        (do_range_request get_range join_url start finish max_redirects url)
        (do_range_request-Fits get_range join_url start finish max_redirects url)
  fetch_resolved-Unrenewed false api_url (c, found url) = (refl, tt)
  fetch_resolved-Unrenewed acquired api_url (c, backing_off) = (refl, tt)
  fetch_resolved-Unrenewed acquired api_url (c, failed_with e) = (refl, tt)

  -- Whatever the API and the CDN answer, FetchRange leaves the client as its first ResolveURL does: a
  -- response with 401 or 403 neither invalidates the cached URL nor leads to a second resolution. A
  -- response that it hands on has the status 206, or 200 and the range starts at 0.
  pub fetch_range-Unrenewed :
      (c : CdnClient) (api_url : Str) (acquired : Bool) (now stored_at : ℕ)
      → Unrenewed start (resolve_url get_api join_url c api_url now stored_at).0 (
          fetch_range get_api get_api_again get_range join_url c api_url start finish acquired now
            stored_at again stored_again)
  unfolding fetch_range
  fetch_range-Unrenewed c api_url acquired now stored_at =
      fetch_resolved-Unrenewed acquired api_url
        (resolve_url get_api join_url c api_url now stored_at)
