-- ===== src/Torbox/Redaction.antt =====
-- RedactToken of internal/torbox/client.go on the addresses that PermalinkURL makes.
use mathlib.Core.List.{append_assoc}
use torbox_fuse_go.Base.{
  ℕ, none, [], ◌∷◌, ◌++◌, Str, str, str_eq, ◌≡◌, ◌≢◌, refl, sym, ap, ◌∙◌, arith, All, ◌⊎◌, inl, inr,
  Bool-cases,
}
use torbox_fuse_go.Paths.{slash}
use torbox_fuse_go.Catalog.{kind_usenet, kind_web_dl}
use torbox_fuse_go.Torbox.{
  redact_token, permalink_url, drop_prefix, from_ampersand, token_key, ampersand, api_path,
}

-- No place of a text starts with "token=".
unfoldable pub NoToken : Str → Type 0
NoToken [] = Unit
NoToken (c ∷ cs) = (drop_prefix token_key (c ∷ cs) ≡ none) × NoToken cs

from_ampersand-append :
    (token rest : Str)
    → All (λ c. c ≢ ampersand) token
    → from_ampersand (token ++ ampersand ∷ rest) ≡ ampersand ∷ rest
unfolding from_ampersand
from_ampersand-append [] rest h = refl
from_ampersand-append (c ∷ cs) rest h = ground (arith, h.0, from_ampersand-append cs rest h.1)

-- A byte that the prefix does not have ends every match.
drop_prefix-stop :
    (p s rest : Str) (x : ℕ)
    → All (λ c. c ≢ x) p
    → drop_prefix p s ≡ none
    → drop_prefix p (s ++ x ∷ rest) ≡ none
unfolding drop_prefix
drop_prefix-stop [] s rest x h e = absurd (cc)
drop_prefix-stop (c ∷ cs) [] rest x h e = ground (arith, h.0)
drop_prefix-stop (c ∷ cs) (d ∷ ds) rest x h e = ground (arith, drop_prefix-stop cs ds rest x h.1)

key_no_slash : All (λ c. c ≢ slash) token_key
key_no_slash = ground arith

redact_token_skip :
    (c : ℕ) (s : Str)
    → drop_prefix token_key (c ∷ s) ≡ none
    → redact_token (c ∷ s) ≡ c ∷ redact_token s
unfolding redact_token
redact_token_skip c s e = rw (redact_token, e) refl

redact_token-append :
    (s rest : Str) → NoToken s → redact_token (s ++ slash ∷ rest) ≡ s ++ redact_token (slash ∷ rest)
unfolding NoToken
redact_token-append [] rest h = refl
redact_token-append (c ∷ cs) rest h =
    redact_token_skip c _ (drop_prefix-stop token_key (c ∷ cs) rest slash key_no_slash h.0)
    ∙ ap (λ s. c ∷ s) (redact_token-append cs rest h.1)

redact_token-key :
    (token rest : Str)
    → All (λ c. c ≢ ampersand) token
    → redact_token (token_key ++ (token ++ ampersand ∷ rest))
      ≡ token_key ++ (str "***" ++ ampersand ∷ rest)
unfolding redact_token drop_prefix
redact_token-key token rest h =
    ap (λ s. token_key ++ (str "***" ++ s)) (from_ampersand-append token rest h)

api_path-cases :
    (kind : Str)
    → (api_path kind ≡ str "usenet")
      ⊎ (api_path kind ≡ str "webdl")
      ⊎ (api_path kind ≡ str "torrents")
api_path-cases kind = elim (Bool-cases (str_eq kind kind_usenet)) [
  | inl e ↦ inl (rw e refl)
  | inr e ↦ elim (Bool-cases (str_eq kind kind_web_dl)) [
    | inl f ↦ inr (inl (rw (e, f) refl))
    | inr f ↦ inr (inr (rw (e, f) refl))
  ]
]

abbrev request : Str → Str → Str
request path rest = slash ∷ ((path ++ str "/requestdl?") ++ (token_key ++ rest))

redact_token-request :
    (path rest : Str)
    → (path ≡ str "usenet") ⊎ (path ≡ str "webdl") ⊎ (path ≡ str "torrents")
    → redact_token (request path rest)
      ≡ slash ∷ ((path ++ str "/requestdl?") ++ redact_token (token_key ++ rest))
unfolding redact_token drop_prefix
redact_token-request path rest (inl e) = rw e refl
redact_token-request path rest (inr (inl e)) = rw e refl
redact_token-request path rest (inr (inr e)) = rw e refl

-- The address of a download with its token redacted is the address with "***" for the token, when
-- the base address has no "token=" and the token no ampersand.
pub redact_token-permalink_url :
    (base_url token kind download_id file_id : Str)
    → NoToken base_url
    → All (λ c. c ≢ ampersand) token
    → redact_token (permalink_url base_url token kind download_id file_id)
      ≡ permalink_url base_url (str "***") kind download_id file_id
unfolding permalink_url
redact_token-permalink_url base_url token kind download_id file_id no_token no_amp =
    ap redact_token (append_assoc base_url _ _)
    ∙ redact_token-append base_url _ no_token
    ∙ ap (λ s. base_url ++ s) (redact_token-request (api_path kind) _ (api_path-cases kind))
    ∙ ap (λ s. base_url ++ slash ∷ ((api_path kind ++ str "/requestdl?") ++ s))
        (redact_token-key token _ no_amp)
    ∙ sym (append_assoc base_url _ _)
