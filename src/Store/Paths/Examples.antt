-- ===== src/Store/Paths/Examples.antt =====
-- Runs of crates/missive-store/src/paths.rs.
use missive.Common.StrMap.{map_get}
use missive.Common.{[], ◌∷◌, ◌++◌, length, ◌≡◌, refl, ◌≢◌, arith, ap}
use missive.Common.Str.{
  Str, lit, starts_with, str_eq, str_len, is_whitespace, trim_start, trim_end, trim,
}
use missive.Core.Error.{ok}
use missive.Core.Config.Sections.{default_storage}
use missive.Store.Paths.{
  StatePathResolver, StatePlatform, StatePathSource, StatePaths, resolve_storage,
  validate_profile_segment, resolve_database_path, validate_relative_database_path,
  checked_env_path, env_path, home_dir, resolve_xdg_roots, resolve_macos_roots, resolve_roots,
  expand_home, resolve_config, resolve_loaded,
}
use missive.Store.Paths.Isolation.{resolve_storage-apart}
use missive.Store.Paths.Join.{unix, unix-IsJoin}

abbrev resolver : StatePathResolver
resolver = record { env = (lit "MISSIVE_HOME", lit "/m") ∷ []; platform = StatePlatform.linux }

abbrev paths_of : Str → StatePaths
paths_of name = record {
  profile = name;
  source = StatePathSource.missive_home;
  data_dir = lit "/m/data/profiles/" ++ name;
  state_dir = lit "/m/state/profiles/" ++ name;
  cache_dir = lit "/m/cache/profiles/" ++ name;
  locks_dir = lit "/m/state/profiles/" ++ name ++ lit "/locks";
  database_path = lit "/m/state/profiles/" ++ name ++ lit "/missive.sqlite3";
}

ci-resolved : resolve_storage unix resolver (lit "ci") default_storage ≡ ok (paths_of (lit "ci"))
unfolding validate_profile_segment validate_relative_database_path checked_env_path env_path
    home_dir resolve_xdg_roots resolve_macos_roots resolve_roots expand_home resolve_database_path
    resolve_storage resolve_config resolve_loaded map_get str_eq str_len is_whitespace trim_start
    trim_end trim starts_with
ci-resolved = refl

dev-resolved : resolve_storage unix resolver (lit "dev") default_storage ≡ ok (paths_of (lit "dev"))
unfolding validate_profile_segment validate_relative_database_path checked_env_path env_path
    home_dir resolve_xdg_roots resolve_macos_roots resolve_roots expand_home resolve_database_path
    resolve_storage resolve_config resolve_loaded map_get str_eq str_len is_whitespace trim_start
    trim_end trim starts_with
dev-resolved = refl

ci≢dev : lit "ci" ≢ lit "dev"
ci≢dev h = let n = ap length h in absurd (omega arith)

resolve_storage-apart_example :
    ((paths_of (lit "ci")).data_dir ≢ (paths_of (lit "dev")).data_dir)
    × ((paths_of (lit "ci")).state_dir ≢ (paths_of (lit "dev")).state_dir)
    × ((paths_of (lit "ci")).cache_dir ≢ (paths_of (lit "dev")).cache_dir)
    × ((paths_of (lit "ci")).locks_dir ≢ (paths_of (lit "dev")).locks_dir)
    × ((paths_of (lit "ci")).database_path ≢ (paths_of (lit "dev")).database_path)
resolve_storage-apart_example =
    resolve_storage-apart unix resolver unix-IsJoin (lit "ci") (lit "dev") default_storage
      default_storage (paths_of (lit "ci")) (paths_of (lit "dev")) ci-resolved dev-resolved refl
      refl ci≢dev
