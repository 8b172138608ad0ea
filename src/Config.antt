-- ===== src/Config.antt =====
-- internal/config/config.go: the environment's variables, and Load. The environment, the parsers of
-- strconv and time and the ids of the process are arguments. Durations are in nanoseconds.
mod Tests
use torbox_fuse_go.Base.{
  ℕ, ◌*◌, Bool, true, false, Option, none, some, List, [], ◌∷◌, Str, str, ℤ, pos,
}

pub record Config : Type 0 where
  pub api_key : Str
  pub api_base_url : Str
  pub mount_path : Str
  pub cache_budget_mb : ℤ
  pub prefetch_window_mb : ℤ
  pub stream_max_inflight : ℤ
  pub stream_concurrency : ℤ
  pub attr_timeout_sec : ℤ
  pub entry_timeout_sec : ℤ
  pub cdn_url_cache_ttl_sec : ℤ
  pub stream_max_global_windows : ℤ
  pub catalog_refresh_interval : ℤ
  pub metrics_listen_addr : Str
  pub state_db_path : Str
  pub log_level : Str
  pub dashboard_enabled : Bool
  pub dashboard_username : Str
  pub dashboard_password : Str
  pub all_dir_enabled : Bool
  pub writable : Bool
  pub uid : ℕ
  pub gid : ℕ

-- A value that is set and parses, or else the default.
abbrev pub parsed : {A : Type 0} → (Str → Option A) → A → Str → A
parsed parse def [] = def
parsed parse def (c ∷ cs) = elim (parse (c ∷ cs)) [ none ↦ def | some v ↦ v ]

abbrev pub seconds : ℕ → ℤ
seconds n = pos (n * 1000000000)

module _ (getenv : Str → Str) (atoi parse_duration : Str → Option ℤ)
    (parse_bool : Str → Option Bool) where
  abbrev pub env : Str → Str → Str
  env key def = parsed some def (getenv key)

  abbrev pub env_int : Str → ℤ → ℤ
  env_int key def = parsed atoi def (getenv key)

  abbrev pub env_duration : Str → ℤ → ℤ
  env_duration key def = parsed parse_duration def (getenv key)

  abbrev pub env_bool : Str → Bool → Bool
  env_bool key def = parsed parse_bool def (getenv key)

  abbrev pub load_with : ℕ → ℕ → Str → Option Config
  load_with uid gid [] = none
  load_with uid gid (k ∷ ks) = some (record {
    api_key = k ∷ ks;
    api_base_url = env (str "TORBOX_API_BASE_URL") (str "https://api.torbox.app/v1/api");
    mount_path = env (str "FUSE_MOUNT_PATH") (str "/mnt/torbox");
    cache_budget_mb = env_int (str "FUSE_CACHE_BUDGET_MB") (pos 256);
    prefetch_window_mb = env_int (str "FUSE_PREFETCH_WINDOW_MB") (pos 16);
    stream_max_inflight = env_int (str "FUSE_STREAM_MAX_INFLIGHT") (pos 2);
    stream_concurrency = env_int (str "FUSE_STREAM_CONCURRENCY") (pos 8);
    attr_timeout_sec = env_int (str "FUSE_ATTR_TIMEOUT_SEC") (pos 1);
    entry_timeout_sec = env_int (str "FUSE_ENTRY_TIMEOUT_SEC") (pos 1);
    cdn_url_cache_ttl_sec = env_int (str "FUSE_CDN_URL_CACHE_TTL_SEC") (pos 300);
    stream_max_global_windows = env_int (str "FUSE_STREAM_MAX_GLOBAL_WINDOWS") (pos 16);
    catalog_refresh_interval = env_duration (str "CATALOG_REFRESH_INTERVAL") (seconds 10800);
    metrics_listen_addr = env (str "METRICS_LISTEN_ADDR") (str "127.0.0.1:9080");
    state_db_path = env (str "STATE_DB_PATH") (str "/config/state.db");
    log_level = env (str "LOG_LEVEL") (str "info");
    dashboard_enabled = env_bool (str "DASHBOARD_ENABLED") true;
    dashboard_username = env (str "DASHBOARD_USERNAME") [];
    dashboard_password = env (str "DASHBOARD_PASSWORD") [];
    all_dir_enabled = env_bool (str "FUSE_ALL_DIR_ENABLED") false;
    writable = env_bool (str "FUSE_WRITABLE") false;
    uid = uid;
    gid = gid;
  })

  -- The one error of Load is that TORBOX_API_KEY is missing.
  unfoldable pub load : ℕ → ℕ → Option Config
  load uid gid = load_with uid gid (getenv (str "TORBOX_API_KEY"))
