-- ===== src/Store/Paths/Isolation.antt =====
-- crates/missive-store/src/paths.rs: the state of a profile is kept apart from that of the others.
use missive.Common.{none, ◌≡◌, refl, ◌≢◌, arith, subst, sym, ◌∙◌, ap}
use missive.Common.Str.{Str, lit, str_len}
use missive.Core.Error.{ok}
use missive.Core.Error.Laws.{ok-injective, >>=-eq-ok}
use missive.Core.Config.Text.{validate_named_config_identifier}
use missive.Core.Config.Sections.{StorageConfig}
use missive.Store.Paths.{
  StatePathResolver, StatePaths, StateRoots, PathOps, validate_profile_segment, resolve_roots,
  database_or, profile_dir, resolve_storage,
}

-- The two checks of a profile's name agree.
pub validate_named_config_identifier-validate_profile_segment :
    (name : Str)
    → validate_named_config_identifier name ≡ ok tt
    → validate_profile_segment name ≡ ok tt
unfolding validate_named_config_identifier validate_profile_segment
validate_named_config_identifier-validate_profile_segment name h = ground arith

-- What the standard library says of `Path::join`, for names that are one relative segment: two of
-- them below one directory are two paths, and so are the paths that one of them gives below each.
pub record IsJoin (ops : PathOps) : Type 0 where
  pub same_name :
      (p a b : Str)
      → validate_profile_segment a ≡ ok tt
      → validate_profile_segment b ≡ ok tt
      → ops.join p a ≡ ops.join p b
      → a ≡ b
  pub same_parent :
      (p a b name : Str)
      → validate_profile_segment a ≡ ok tt
      → validate_profile_segment b ≡ ok tt
      → validate_profile_segment name ≡ ok tt
      → ops.join (ops.join p a) name ≡ ops.join (ops.join p b) name
      → a ≡ b

locks_segment : validate_profile_segment (lit "locks") ≡ ok tt
unfolding validate_profile_segment str_len
locks_segment = refl

database_segment : validate_profile_segment (lit "missive.sqlite3") ≡ ok tt
unfolding validate_profile_segment str_len
database_segment = refl

module _ (ops : PathOps) (resolver : StatePathResolver) where
  -- What `resolve_storage` has found.
  record IsResolved (name : Str) (storage : StorageConfig) (paths : StatePaths) : Type 0 where
    segment : validate_profile_segment name ≡ ok tt
    roots : StateRoots
    rooted : resolve_roots ops resolver ≡ ok roots
    data_dir : paths.data_dir ≡ profile_dir ops roots.data_root name
    state_dir : paths.state_dir ≡ profile_dir ops roots.state_root name
    cache_dir : paths.cache_dir ≡ profile_dir ops roots.cache_root name
    locks_dir : paths.locks_dir ≡ ops.join (profile_dir ops roots.state_root name) (lit "locks")
    database :
        database_or ops resolver (profile_dir ops roots.state_root name) storage.database_path
        ≡ ok paths.database_path

  resolve_storage-IsResolved :
      (name : Str) (storage : StorageConfig) (paths : StatePaths)
      → resolve_storage ops resolver name storage ≡ ok paths
      → IsResolved name storage paths
  unfolding resolve_storage
  resolve_storage-IsResolved name storage paths h =
      let (done, segment, h1) = >>=-eq-ok (validate_profile_segment name) _ h in
      let (roots, rooted, h2) = >>=-eq-ok (resolve_roots ops resolver) _ h1 in
      let state_dir = profile_dir ops roots.state_root name in
      let (database, found, h3) =
        >>=-eq-ok (database_or ops resolver state_dir storage.database_path) _ h2 in
      subst (IsResolved name storage) (ok-injective h3) (record {
        segment = segment;
        roots = roots;
        rooted = rooted;
        data_dir = refl;
        state_dir = refl;
        cache_dir = refl;
        locks_dir = refl;
        database = found;
      })

  module _ (join : IsJoin ops) where
    apart :
        (root name other x y : Str)
        → validate_profile_segment name ≡ ok tt
        → validate_profile_segment other ≡ ok tt
        → x ≡ profile_dir ops root name
        → y ≡ profile_dir ops root other
        → name ≢ other
        → x ≢ y
    apart root name other x y h k e f different same =
        different
          (join.same_name (ops.join root (lit "profiles")) name other h k (sym e ∙ same ∙ f))

    below-apart :
        (root a b x y name : Str)
        → validate_profile_segment a ≡ ok tt
        → validate_profile_segment b ≡ ok tt
        → validate_profile_segment name ≡ ok tt
        → x ≡ ops.join (profile_dir ops root a) name
        → y ≡ ops.join (profile_dir ops root b) name
        → a ≢ b
        → x ≢ y
    below-apart root a b x y name h k n e f different same =
        different
          (join.same_parent (ops.join root (lit "profiles")) a b name h k n (sym e ∙ same ∙ f))

    -- If `Path::join` keeps the paths of different segments apart, two profiles with different names, in one
    -- environment, have different directories for data, state, cache and locks; and unless the
    -- configuration gives a path, different databases.
    pub resolve_storage-apart :
        (name other : Str) (storage s : StorageConfig) (x y : StatePaths)
        → resolve_storage ops resolver name storage ≡ ok x
        → resolve_storage ops resolver other s ≡ ok y
        → storage.database_path ≡ none
        → s.database_path ≡ none
        → name ≢ other
        → (x.data_dir ≢ y.data_dir)
          × (x.state_dir ≢ y.state_dir)
          × (x.cache_dir ≢ y.cache_dir)
          × (x.locks_dir ≢ y.locks_dir)
          × (x.database_path ≢ y.database_path)
    resolve_storage-apart name other storage s x y h k d e different =
        let a = resolve_storage-IsResolved name storage x h in
        let b = resolve_storage-IsResolved other s y k in
        let same : b.roots ≡ a.roots = ok-injective (sym b.rooted ∙ a.rooted) in
        let b_state : y.state_dir ≡ profile_dir ops a.roots.state_root other =
          subst (λ (r : StateRoots). y.state_dir ≡ profile_dir ops r.state_root other) same
            b.state_dir in
        let b_data : y.data_dir ≡ profile_dir ops a.roots.data_root other =
          subst (λ (r : StateRoots). y.data_dir ≡ profile_dir ops r.data_root other) same
            b.data_dir in
        let b_cache : y.cache_dir ≡ profile_dir ops a.roots.cache_root other =
          subst (λ (r : StateRoots). y.cache_dir ≡ profile_dir ops r.cache_root other) same
            b.cache_dir in
        let b_locks : y.locks_dir
            ≡ ops.join (profile_dir ops a.roots.state_root other) (lit "locks") =
          subst
            (λ (r : StateRoots).
              y.locks_dir ≡ ops.join (profile_dir ops r.state_root other) (lit "locks"))
            same b.locks_dir in
        let a_database : x.database_path
            ≡ ops.join (profile_dir ops a.roots.state_root name) (lit "missive.sqlite3") =
          ok-injective (sym a.database ∙ ap (database_or ops resolver _) d) in
        let b_database : y.database_path
            ≡ ops.join (profile_dir ops a.roots.state_root other) (lit "missive.sqlite3") =
          subst
            (λ (r : StateRoots).
              y.database_path
              ≡ ops.join (profile_dir ops r.state_root other) (lit "missive.sqlite3"))
            same (ok-injective (sym b.database ∙ ap (database_or ops resolver _) e)) in
        (
          apart a.roots.data_root name other x.data_dir y.data_dir a.segment b.segment a.data_dir
              b_data different,
          apart a.roots.state_root name other x.state_dir y.state_dir a.segment b.segment
              a.state_dir b_state different,
          apart a.roots.cache_root name other x.cache_dir y.cache_dir a.segment b.segment
              a.cache_dir b_cache different,
          below-apart a.roots.state_root name other x.locks_dir y.locks_dir (lit "locks") a.segment
              b.segment locks_segment a.locks_dir b_locks different,
          below-apart a.roots.state_root name other x.database_path y.database_path
              (lit "missive.sqlite3") a.segment b.segment database_segment a_database b_database
              different,
        )
