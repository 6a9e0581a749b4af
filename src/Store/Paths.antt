-- ===== src/Store/Paths.antt =====
-- crates/missive-store/src/paths.rs: where the state of a profile is kept.
--
-- A path is its text; what the standard library does with paths is a parameter.
pub mod Isolation
pub mod Join
mod Examples
use missive.Common.{
  ℕ, Bool, true, false, not, ◌&&◌, ◌||◌, Option, none, some, List, [], ◌∷◌, is_empty, any, all, leb,
  ltb, ◌==◌, if◌then◌else◌, unwrap_or,
}
use missive.Common.Str.{Str, lit, str_eq, str_len, trim, starts_with}
use missive.Common.StrMap.{StrMap, map_get, contains_key}
use missive.Core.Error.{Result, ok, err, ◌>>=◌, ◌>>◌, fail_if, ok_or, config_error}
use missive.Core.Ids.{is_ascii_lower_alphanumeric, is_named_separator, starts_by, ends_by}
use missive.Core.Config.Sections.{StorageConfig}
use missive.Core.Config.Whole.{MissiveConfig, profile}
use missive.Core.Config.Loaded.{LoadedConfig}

pub data StatePlatform : Type 0 where
  linux mac_os other : StatePlatform

pub data StatePathSource : Type 0 where
  missive_home xdg platform_fallback : StatePathSource

pub record StatePaths : Type 0 where
  pub profile : Str
  pub source : StatePathSource
  pub data_dir : Str
  pub state_dir : Str
  pub cache_dir : Str
  pub locks_dir : Str
  pub database_path : Str

pub record StatePathResolver : Type 0 where
  pub env : StrMap Str
  pub platform : StatePlatform

pub record StateRoots : Type 0 where
  pub source : StatePathSource
  pub data_root : Str
  pub state_root : Str
  pub cache_root : Str

-- `std::path::Component`, and the functions of `Path` that are called.
pub data Component : Type 0 where
  prefix root_dir cur_dir parent_dir : Component
  normal : Str → Component

pub record PathOps : Type 0 where
  pub is_absolute : Str → Bool
  pub join : Str → Str → Str
  pub components : Str → List Component

abbrev pub escapes : Component → Bool
escapes Component.parent_dir = true
escapes Component.root_dir = true
escapes Component.prefix = true
escapes Component.cur_dir = false
escapes (Component.normal name) = false

unfoldable pub validate_profile_segment : Str → Result (Unit {0})
validate_profile_segment name =
    let valid_len = not (is_empty name) && leb (str_len name) 63 in
    let valid_edges =
      starts_by is_ascii_lower_alphanumeric name && ends_by is_ascii_lower_alphanumeric name in
    let valid_body = all (λ c. is_ascii_lower_alphanumeric c || is_named_separator c) name in
    fail_if (not (valid_len && valid_edges && valid_body))
      (config_error "profile {profile:?} cannot be used as a state path segment")

module _ (ops : PathOps) where
  unfoldable pub validate_relative_database_path : Str → Result (Unit {0})
  validate_relative_database_path path =
      fail_if (any escapes (ops.components path))
        (config_error "storage.database_path {:?} cannot escape the profile state directory")

  -- `StatePathResolver::env_path`, of what the environment has.
  unfoldable pub checked_env_path : Option Str → Result (Option Str)
  checked_env_path none = ok none
  checked_env_path (some value) = do
    filled ← fail_if (is_empty (trim value)) (config_error "{key} is set but empty")
    absolute ←
        fail_if (not (ops.is_absolute value))
          (config_error "{key} must be an absolute directory path")
    ok (some value)

  unfoldable pub env_path : StatePathResolver → Str → Result (Option Str)
  env_path resolver key = checked_env_path (map_get key resolver.env)

  unfoldable pub home_dir : StatePathResolver → Result Str
  home_dir resolver = do
    found ← env_path resolver (lit "HOME")
    ok_or found (config_error "{ENV_HOME} is required when {ENV_MISSIVE_HOME} is not set")

  unfoldable pub resolve_xdg_roots : StatePathResolver → Result StateRoots
  resolve_xdg_roots resolver = do
    home ← home_dir resolver
    data_home ← env_path resolver (lit "XDG_DATA_HOME")
    state_home ← env_path resolver (lit "XDG_STATE_HOME")
    cache_home ← env_path resolver (lit "XDG_CACHE_HOME")
    let local = ops.join home (lit ".local")
    ok (record {
      source = StatePathSource.xdg;
      data_root = ops.join (unwrap_or data_home (ops.join local (lit "share"))) (lit "missive");
      state_root = ops.join (unwrap_or state_home (ops.join local (lit "state"))) (lit "missive");
      cache_root = ops.join (unwrap_or cache_home (ops.join home (lit ".cache"))) (lit "missive");
    })

  abbrev pub mac_os_roots : Str → StateRoots
  mac_os_roots home =
      let library = ops.join home (lit "Library") in
      let support = ops.join (ops.join library (lit "Application Support")) (lit "missive") in
      record {
        source = StatePathSource.platform_fallback;
        data_root = ops.join support (lit "data");
        state_root = ops.join support (lit "state");
        cache_root = ops.join (ops.join library (lit "Caches")) (lit "missive");
      }

  unfoldable pub resolve_macos_roots : StatePathResolver → Result StateRoots
  resolve_macos_roots resolver =
      if contains_key (lit "XDG_DATA_HOME") resolver.env
        || contains_key (lit "XDG_STATE_HOME") resolver.env
        || contains_key (lit "XDG_CACHE_HOME") resolver.env
      then resolve_xdg_roots resolver
      else (home_dir resolver >>= λ home. ok (mac_os_roots home))

  abbrev pub home_roots : Str → StateRoots
  home_roots root = record {
    source = StatePathSource.missive_home;
    data_root = ops.join root (lit "data");
    state_root = ops.join root (lit "state");
    cache_root = ops.join root (lit "cache");
  }

  abbrev pub platform_roots : StatePathResolver → StatePlatform → Result StateRoots
  platform_roots resolver StatePlatform.mac_os = resolve_macos_roots resolver
  platform_roots resolver StatePlatform.linux = resolve_xdg_roots resolver
  platform_roots resolver StatePlatform.other = resolve_xdg_roots resolver

  abbrev pub roots_or : StatePathResolver → Option Str → Result StateRoots
  roots_or resolver (some root) = ok (home_roots root)
  roots_or resolver none = platform_roots resolver resolver.platform

  unfoldable pub resolve_roots : StatePathResolver → Result StateRoots
  resolve_roots resolver = env_path resolver (lit "MISSIVE_HOME") >>= roots_or resolver

  -- `strip_prefix("~/")`.
  abbrev pub after_home : Str → Option Str
  after_home (c ∷ d ∷ rest) = if (c == b'~') && (d == b'/') then some rest else none
  after_home _ = none

  unfoldable pub expand_home : StatePathResolver → Str → Str → Option Str → Result Str
  expand_home resolver path state_dir (some stripped) =
      home_dir resolver >>= λ home. ok (ops.join home stripped)
  expand_home resolver path state_dir none =
      fail_if (starts_with path (lit "~"))
        (config_error "storage.database_path {:?} uses unsupported home expansion syntax")
      >> (validate_relative_database_path path >> ok (ops.join state_dir path))

  unfoldable pub resolve_database_path : StatePathResolver → Str → Str → Result Str
  resolve_database_path resolver path state_dir =
      if ops.is_absolute path
      then ok path
      else if str_eq path (lit "~")
      then home_dir resolver
      else expand_home resolver path state_dir (after_home path)

  abbrev pub database_or : StatePathResolver → Str → Option Str → Result Str
  database_or resolver state_dir none = ok (ops.join state_dir (lit "missive.sqlite3"))
  database_or resolver state_dir (some path) = resolve_database_path resolver path state_dir

  abbrev pub profile_dir : Str → Str → Str
  profile_dir root name = ops.join (ops.join root (lit "profiles")) name

  unfoldable pub resolve_storage : StatePathResolver → Str → StorageConfig → Result StatePaths
  resolve_storage resolver name storage = do
    segment ← validate_profile_segment name
    roots ← resolve_roots resolver
    let state_dir = profile_dir roots.state_root name
    database ← database_or resolver state_dir storage.database_path
    ok (record {
      profile = name;
      source = roots.source;
      data_dir = profile_dir roots.data_root name;
      state_dir = state_dir;
      cache_dir = profile_dir roots.cache_root name;
      locks_dir = ops.join state_dir (lit "locks");
      database_path = database;
    })

  unfoldable pub resolve_config : StatePathResolver → MissiveConfig → Str → Result StatePaths
  resolve_config resolver config name = do
    selected ← profile config name
    resolve_storage resolver name (unwrap_or selected.storage config.storage)

  unfoldable pub resolve_loaded : StatePathResolver → LoadedConfig → Result StatePaths
  resolve_loaded resolver loaded = resolve_config resolver loaded.config loaded.selected_profile
