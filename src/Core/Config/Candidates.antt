-- ===== src/Core/Config/Candidates.antt =====
-- The search for a configuration file in a repository, as a list of the files it looks at:
-- `find_repository_config` of crates/missive-core/src/config.rs.
use missive.Common.{
  ℕ, zero, suc, ◌<◌, Bool, true, false, Option, none, some, List, [], ◌∷◌, ◌++◌, if◌then◌else◌, ◌≡◌,
  refl, arith, ◌∙◌, ap, sym,
}
use missive.Common.Str.{Str, lit, str_len}
use missive.Core.Error.{Result, ok}
use missive.Core.Config.Discovery.{
  Host, ConfigDiscovery, first_file, repository_files, search_repository, search_on, search_parent,
  find_repository_config,
}

module _ (host : Host) where
  -- A directory and those above it, at most as many as the number.
  unfoldable pub ancestors : ℕ → Str → List Str
  ancestors zero directory = []
  ancestors (suc n) directory =
      directory ∷ elim (host.parent directory) [ none ↦ [] | some above ↦ ancestors n above ]

  -- The directories up to the first one that holds a `.git`.
  unfoldable pub up_to_repository : List Str → List Str
  up_to_repository [] = []
  up_to_repository (directory ∷ above) =
      let more = up_to_repository above in
      directory ∷ (if host.exists (host.join directory (lit ".git")) then [] else more)

  unfoldable pub files_in : List Str → List Str
  files_in [] = []
  files_in (directory ∷ rest) = repository_files host directory ++ files_in rest

  search_on-first_file :
      (xs ys : List Str) (is_root : Bool) (above : Result (Option Str))
      → above ≡ ok (first_file host ys)
      → search_on host (first_file host xs) is_root above
        ≡ ok (first_file host (xs ++ (if is_root then [] else ys)))
  unfolding first_file
  search_on-first_file [] ys true above e = refl
  search_on-first_file [] ys false above e = e
  search_on-first_file (x ∷ xs) ys is_root above e =
      ground (arith, search_on-first_file xs ys is_root above e)

  files_in-cut :
      (is_root : Bool) (more : List Str)
      → files_in (if is_root then [] else more) ≡ (if is_root then [] else files_in more)
  unfolding files_in
  files_in-cut true more = refl
  files_in-cut false more = refl

  search_above :
      (n m : ℕ) (above : Option Str)
      → ((p : Str) → above ≡ some p → str_len p < n)
      → ((p : Str)
          → str_len p < n
          → search_repository host n p
            ≡ ok (first_file host (files_in (up_to_repository (ancestors n p)))))
      → search_parent host (search_repository host n) above
        ≡ ok (
            first_file host
              (files_in (up_to_repository (elim above [ none ↦ [] | some p ↦ ancestors n p ]))))
  unfolding first_file files_in up_to_repository
  search_above n m none shorter IH = refl
  search_above n m (some p) shorter IH = IH p (shorter p refl)

  module _ (shorter : (p q : Str) → host.parent p ≡ some q → str_len q < str_len p) where
    search_repository-first_file :
        (n : ℕ) (directory : Str)
        → str_len directory < n
        → search_repository host n directory
          ≡ ok (first_file host (files_in (up_to_repository (ancestors n directory))))
    unfolding search_repository files_in up_to_repository ancestors
    search_repository-first_file zero directory h = absurd (omega arith)
    search_repository-first_file (suc n) directory h =
        let is_root = host.exists (host.join directory (lit ".git")) in
        let above : List Str = elim (host.parent directory) [
          | none ↦ []
          | some p ↦ ancestors n p
        ] in
        let step =
          search_above n n (host.parent directory)
            (λ p e. let less = shorter directory p e in omega arith)
            (search_repository-first_file n) in
        search_on-first_file (repository_files host directory) (files_in (up_to_repository above))
          is_root _ step
        ∙ ap (λ more. ok (first_file host (repository_files host directory ++ more)))
            (sym (files_in-cut is_root (up_to_repository above)))

    -- If the parent of a path is shorter than the path, the search for a repository's configuration
    -- comes to an end. Its result is the first file among `missive.toml` and `.missive.toml` in the
    -- current directory and in those above it, up to the first directory that holds a `.git`; or
    -- there is none.
    pub find_repository_config-first_file :
        (d : ConfigDiscovery)
        → find_repository_config host d
          ≡ ok (
              first_file host (
                files_in
                  (up_to_repository (ancestors (suc (str_len d.current_dir)) d.current_dir))))
    unfolding find_repository_config
    find_repository_config-first_file d =
        search_repository-first_file (suc (str_len d.current_dir)) d.current_dir (omega arith)
