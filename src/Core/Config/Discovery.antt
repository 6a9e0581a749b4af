-- ===== src/Core/Config/Discovery.antt =====
-- crates/missive-core/src/config.rs, lines 990 to 1240: which configuration file is read, and what
-- loading it gives.
--
-- The file system, the paths of the standard library and the TOML parser are parameters. A path is
-- its text.
use missive.Common.{
  ℕ, zero, suc, Bool, not, ◌||◌, Option, none, some, List, [], ◌∷◌, ◌++◌, is_empty, filter_by,
  unwrap_or, ◌==◌, if◌then◌else◌,
}
use missive.Common.Str.{Str, lit, trim, str_len}
use missive.Common.StrMap.{StrMap, map_get}
use missive.Core.Error.{
  Result, ok, hang, ◌>>=◌, ◌>>◌, fail_if, ok_or, config_error, new_error, ErrorCategory,
}
use missive.Core.Config.Text.{Parsers, env_flag_enabled}
use missive.Core.Config.Whole.{MissiveConfig, default_config, validate_config, profile}
use missive.Core.Config.Loaded.{
  ConfigSource, ConfigSourceKind, LoadedConfig, path_source, built_in_source,
}

-- `Path::is_absolute`, `join`, `parent`, `is_file` and `exists`, `fs::read_to_string` as far as it
-- gives a text, and `toml::from_str`.
pub record Host : Type 0 where
  pub parsers : Parsers
  pub is_absolute : Str → Bool
  pub join : Str → Str → Str
  pub parent : Str → Option Str
  pub is_file : Str → Bool
  pub exists : Str → Bool
  pub read_to_string : Str → Option Str
  pub parse_toml : Str → Option MissiveConfig

pub record ConfigDiscovery : Type 0 where
  pub explicit_path : Option Str
  pub selected_profile : Option Str
  pub allow_repository_config : Bool
  pub env : StrMap Str
  pub current_dir : Str

module _ (host : Host) where
  -- `parse_toml_config` and `MissiveConfig::from_path`.
  unfoldable pub parse_toml_config : Str → Result MissiveConfig
  parse_toml_config input = do
    config ←
        ok_or (host.parse_toml input)
          (config_error "failed to parse TOML configuration at {label}{location}")
    checked ← validate_config host.parsers config
    ok config

  unfoldable pub from_path : Str → Result MissiveConfig
  from_path path =
      ok_or (host.read_to_string path) (new_error ErrorCategory.io "reading configuration {}")
      >>= parse_toml_config

  unfoldable pub resolve_path : ConfigDiscovery → Str → Result Str
  resolve_path d path =
      fail_if (is_empty path) (config_error "configuration path cannot be empty")
      >> (if host.is_absolute path then ok path else ok (host.join d.current_dir path))

  unfoldable pub repository_config_requested : ConfigDiscovery → Bool
  repository_config_requested d =
      d.allow_repository_config || elim (map_get (lit "MISSIVE_REPO_CONFIG") d.env) [
        | none ↦ Bool.false
        | some value ↦ env_flag_enabled value
      ]

  -- `iter().find(is_file)`.
  unfoldable pub first_file : List Str → Option Str
  first_file [] = none
  first_file (path ∷ rest) =
      let later = first_file rest in if host.is_file path then some path else later

  abbrev pub repository_files : Str → List Str
  repository_files directory =
      host.join directory (lit "missive.toml") ∷ host.join directory (lit ".missive.toml") ∷ []

  -- The loop of `find_repository_config`, from a directory up. Each round takes fuel.
  abbrev pub search_on : Option Str → Bool → Result (Option Str) → Result (Option Str)
  search_on (some file) is_root above = ok (some file)
  search_on none Bool.true above = ok none
  search_on none Bool.false above = above

  abbrev pub search_parent : (Str → Result (Option Str)) → Option Str → Result (Option Str)
  search_parent search none = ok none
  search_parent search (some directory) = search directory

  unfoldable pub search_repository : ℕ → Str → Result (Option Str)
  search_repository zero directory = hang
  search_repository (suc fuel) directory =
      search_on (first_file (repository_files directory))
        (host.exists (host.join directory (lit ".git")))
        (search_parent (search_repository fuel) (host.parent directory))

  unfoldable pub find_repository_config : ConfigDiscovery → Result (Option Str)
  find_repository_config d = search_repository (suc (str_len d.current_dir)) d.current_dir

  abbrev pub push_config_candidates : Str → List Str
  push_config_candidates root =
      host.join (host.join root (lit "missive")) (lit "config.toml")
      ∷ host.join root (lit "missive.toml")
      ∷ []

  -- `env.get(key).filter(|value| !value.is_empty())`.
  abbrev pub filled : Option Str → Option Str
  filled (some (c ∷ s)) = some (c ∷ s)
  filled _ = none

  unfoldable pub home_candidates : Option Str → Option Str → List Str
  home_candidates (some config_home) home = push_config_candidates config_home
  home_candidates none (some home) = push_config_candidates (host.join home (lit ".config"))
  home_candidates none none = []

  unfoldable pub candidates_of : List Str → List Str
  candidates_of [] = []
  candidates_of (root ∷ roots) = push_config_candidates root ++ candidates_of roots

  -- `split(':')`, with the part that is read so far.
  unfoldable pub split_colons : Str → Str → List Str
  split_colons part [] = part ∷ []
  split_colons part (c ∷ s) =
      let cut = part ∷ split_colons [] s in
      let longer = split_colons (part ++ c ∷ []) s in if c == b':' then cut else longer

  unfoldable pub xdg_config_candidates : ConfigDiscovery → List Str
  xdg_config_candidates d =
      home_candidates (filled (map_get (lit "XDG_CONFIG_HOME") d.env))
        (filled (map_get (lit "HOME") d.env))
      ++ candidates_of (
          filter_by (λ part. not (is_empty part))
            (split_colons [] (unwrap_or (map_get (lit "XDG_CONFIG_DIRS") d.env) (lit "/etc/xdg"))))

  unfoldable pub find_xdg_config : ConfigDiscovery → Option Str
  find_xdg_config d = first_file (xdg_config_candidates d)

  -- The steps of `discover_path`, the last one first.
  unfoldable pub discover_xdg : ConfigDiscovery → Option ConfigSource
  discover_xdg d = elim (find_xdg_config d) [
    | none ↦ none
    | some path ↦ some (path_source ConfigSourceKind.xdg path)
  ]

  abbrev pub repository_or : Option Str → Option ConfigSource → Option ConfigSource
  repository_or none later = later
  repository_or (some path) later = some (path_source ConfigSourceKind.repository_local path)

  unfoldable pub discover_repository : ConfigDiscovery → Bool → Result (Option ConfigSource)
  discover_repository d Bool.false = ok (discover_xdg d)
  discover_repository d Bool.true = do
    found ← find_repository_config d
    ok (repository_or found (discover_xdg d))

  unfoldable pub discover_environment : ConfigDiscovery → Option Str → Result (Option ConfigSource)
  discover_environment d none = discover_repository d (repository_config_requested d)
  discover_environment d (some path) = do
    set ← fail_if (is_empty (trim path)) (config_error "{ENV_CONFIG} is set but empty")
    resolved ← resolve_path d path
    ok (some (path_source ConfigSourceKind.environment resolved))

  unfoldable pub discover_explicit : ConfigDiscovery → Option Str → Result (Option ConfigSource)
  discover_explicit d none = discover_environment d (map_get (lit "MISSIVE_CONFIG") d.env)
  discover_explicit d (some path) = do
    resolved ← resolve_path d path
    ok (some (path_source ConfigSourceKind.explicit_path resolved))

  unfoldable pub discover_path : ConfigDiscovery → Result (Option ConfigSource)
  discover_path d = discover_explicit d d.explicit_path

  abbrev pub read_source : Option Str → Result MissiveConfig
  read_source (some path) = from_path path
  read_source none = validate_config host.parsers default_config >> ok default_config

  unfoldable pub load : ConfigDiscovery → Result LoadedConfig
  load d = do
    found ← discover_path d
    let source = unwrap_or found built_in_source
    config ← read_source source.path
    let name = unwrap_or d.selected_profile config.default_profile
    selected ← profile config name
    ok (record { config = config; source = source; selected_profile = name })
