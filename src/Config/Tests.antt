-- ===== src/Config/Tests.antt =====
-- Runs of Load in internal/config/config.go.
use torbox_fuse_go.Base.{
  Str-discrete, ◌≡◌, refl, Bool, Option, none, some, [], Str, str, str_eq, if◌then◌else◌, ℤ, negsuc,
}
use torbox_fuse_go.Config.{Config, load}

abbrev atoi : Str → Option ℤ
atoi s = if str_eq s (str "-1") then some (negsuc 0) else none

abbrev parse_bool : Str → Option Bool
parse_bool s = none

abbrev getenv : Str → Str
getenv key =
    if str_eq key (str "TORBOX_API_KEY")
    then str "k"
    else if str_eq key (str "FUSE_CACHE_BUDGET_MB")
    then str "-1"
    else []

abbrev budget : Option Config → Option ℤ
budget none = none
budget (some c) = some c.cache_budget_mb

no_key_runs : load (λ key. []) atoi atoi parse_bool 0 0 ≡ none
unfolding load
no_key_runs = refl

-- Load accepts a budget below zero.
negative_budget_runs : budget (load getenv atoi atoi parse_bool 0 0) ≡ some (negsuc 0)
unfolding load Str-discrete
negative_budget_runs = refl
