-- ===== src/Core/Config/References.antt =====
-- What holds of a configuration that crates/missive-core/src/config.rs has validated.
use missive.Common.{
  String, all, ◌&&◌, Bool, true, false, not, Option, none, some, List, [], ◌∷◌, ◌≡◌, refl, arith,
  Bool-cases, inl, inr,
}
use missive.Common.Str.{Str, str_eq, str_eq→eq}
use missive.Common.StrMap.{StrMap, map_get, contains_key}
use missive.Core.Error.{Result, ok, ◌>>◌, check_all, check_some}
use missive.Core.Error.Laws.{>>=-eq-ok, fail_if-ok}
use missive.Core.Config.Text.{
  Parsers, validate_named_config_identifier, validate_http_url, validate_transport_binding,
}
use missive.Core.Config.Sections.{
  validate_gateway, validate_output, validate_protocol, validate_routing, validate_auth_ref,
}
use missive.Core.Config.Whole.{
  MissiveConfig, ProfileConfig, AgentConfig, AdapterConfig, validate_config, validate_entry,
  validate_interface_url, validate_profile, validate_agent, validate_adapter, validate_reference,
}

pub >>-eq-ok :
    (first second : Result (Unit {0}))
    → (first >> second) ≡ ok tt
    → (first ≡ ok tt) × (second ≡ ok tt)
>>-eq-ok first second h = let (tt, e, h') = >>=-eq-ok first (λ done. second) h in (e, h')

-- A loop over a map has checked each value that the map has.
pub check_all-map_get {ℓ} :
    {V : Type ℓ} (check : V → Result (Unit {0})) (m : StrMap V) (name : Str) (value : V)
    → check_all (validate_entry check) m ≡ ok tt
    → map_get name m ≡ some value
    → (validate_named_config_identifier name ≡ ok tt) × (check value ≡ ok tt)
unfolding check_all map_get
check_all-map_get check [] name value h e = absurd cc
check_all-map_get check ((k, v) ∷ rest) name value h e =
    let (here, there) = >>-eq-ok (validate_entry check (k, v)) _ h in
    let (named, checked) = >>-eq-ok (validate_named_config_identifier k) (check v) here in
    let later = check_all-map_get check rest name value there in
    elim (Bool-cases (str_eq k name)) [
      | inl same ↦ ground (arith, str_eq→eq k name)
      | inr other ↦ ground arith
    ]

pub not-false : (b : Bool) → not b ≡ false → b ≡ true
not-false true h = refl
not-false false h = absurd cc

check_all-all {ℓ} :
    {A : Type ℓ} (check : A → Result (Unit {0})) (test : A → Bool) (xs : List A)
    → ((x : A) → check x ≡ ok tt → test x ≡ true)
    → check_all check xs ≡ ok tt
    → all test xs ≡ true
unfolding check_all
check_all-all check test [] passes h = refl
check_all-all check test (x ∷ xs) passes h =
    let (here, there) = >>-eq-ok (check x) _ h in
    rw (passes x here, check_all-all check test xs passes there) refl

-- A name that is given stands in the map.
abbrev pub resolves {ℓ} : {V : Type ℓ} → StrMap V → Option Str → Bool
resolves m none = true
resolves m (some name) = contains_key name m

validate_reference-resolves {ℓ} :
    {V : Type ℓ} (m : StrMap V) (missing : String) (given : Option Str)
    → check_some (validate_reference m missing) given ≡ ok tt
    → resolves m given ≡ true
unfolding validate_reference
validate_reference-resolves m missing none h = refl
validate_reference-resolves m missing (some name) h =
    let (named, found) = >>-eq-ok (validate_named_config_identifier name) _ h in
    not-false (contains_key name m) (fail_if-ok (not (contains_key name m)) _ found)

abbrev pub profile_resolves : MissiveConfig → Str × ProfileConfig → Bool
profile_resolves c (name, p) = resolves c.agents p.default_agent

abbrev pub agent_resolves : MissiveConfig → Str × AgentConfig → Bool
agent_resolves c (alias, a) = resolves c.auth_refs a.auth_ref

abbrev pub adapter_resolves : MissiveConfig → Str × AdapterConfig → Bool
adapter_resolves c (name, a) = resolves c.profiles a.session_profile

-- Every name by which one section refers to another is the name of an entry.
unfoldable pub references_resolve : MissiveConfig → Bool
references_resolve c =
    contains_key c.default_profile c.profiles
    && all (profile_resolves c) c.profiles
    && all (agent_resolves c) c.agents
    && all (adapter_resolves c) c.adapters

module _ (parsers : Parsers) (c : MissiveConfig) where
  validate_profile-resolves :
      (entry : Str × ProfileConfig)
      → validate_entry (validate_profile parsers c) entry ≡ ok tt
      → profile_resolves c entry ≡ true
  unfolding validate_profile
  validate_profile-resolves (name, p) h =
      let (named, checked) = >>-eq-ok _ _ h in
      let (described, more) = >>-eq-ok _ _ checked in
      let (found, rest) = >>-eq-ok _ _ more in
      validate_reference-resolves c.agents _ p.default_agent found

  validate_agent-resolves :
      (entry : Str × AgentConfig)
      → validate_entry (validate_agent parsers c) entry ≡ ok tt
      → agent_resolves c entry ≡ true
  unfolding validate_agent
  validate_agent-resolves (alias, a) h =
      let (named, checked) =
        >>-eq-ok (validate_named_config_identifier alias) (validate_agent parsers c a) h in
      let (base, h1) = >>-eq-ok (validate_http_url parsers a.base_url) _ checked in
      let (urls, h2) =
        >>-eq-ok (check_all (validate_interface_url parsers) a.interface_urls) _ h1 in
      let (bindings, h3) =
        >>-eq-ok (check_all validate_transport_binding a.binding_preference) _ h2 in
      let (found, rest) = >>-eq-ok _ _ h3 in
      validate_reference-resolves c.auth_refs
        "agent {alias:?} references missing auth_ref {auth_ref:?}" a.auth_ref found

  validate_adapter-resolves :
      (entry : Str × AdapterConfig)
      → validate_entry (validate_adapter c) entry ≡ ok tt
      → adapter_resolves c entry ≡ true
  unfolding validate_adapter
  validate_adapter-resolves (name, a) h =
      let (named, checked) = >>-eq-ok _ _ h in
      let (kind, more) = >>-eq-ok _ _ checked in
      let (found, rest) = >>-eq-ok _ _ more in
      validate_reference-resolves c.profiles _ a.session_profile found

  -- What `validate` has checked, in its order from the profiles on.
  pub validate_config-parts :
      validate_config parsers c ≡ ok tt
      → (contains_key c.default_profile c.profiles ≡ true)
        × (validate_named_config_identifier c.default_profile ≡ ok tt)
        × (check_all (validate_entry (validate_profile parsers c)) c.profiles ≡ ok tt)
        × (check_all (validate_entry (validate_agent parsers c)) c.agents ≡ ok tt)
        × (check_all (validate_entry validate_auth_ref) c.auth_refs ≡ ok tt)
        × (validate_output c.output ≡ ok tt)
        × (validate_protocol c.protocol ≡ ok tt)
        × (validate_gateway parsers c.gateway ≡ ok tt)
        × (validate_routing c.routing ≡ ok tt)
        × (check_all (validate_entry (validate_adapter c)) c.adapters ≡ ok tt)
  unfolding validate_config
  validate_config-parts h =
      let (schema, h1) = >>-eq-ok _ _ h in
      let (named, h2) = >>-eq-ok _ _ h1 in
      let (some_profile, h3) = >>-eq-ok _ _ h2 in
      let (known, h4) = >>-eq-ok _ _ h3 in
      let (profiles, h5) = >>-eq-ok _ _ h4 in
      let (agents, h6) = >>-eq-ok _ _ h5 in
      let (auth_refs, h7) = >>-eq-ok _ _ h6 in
      let (storage, h8) = >>-eq-ok _ _ h7 in
      let (output, h9) = >>-eq-ok _ _ h8 in
      let (protocol, h10) = >>-eq-ok _ _ h9 in
      let (gateway, h11) = >>-eq-ok _ _ h10 in
      let (routing, h12) = >>-eq-ok _ _ h11 in
      let (qos, adapters) = >>-eq-ok _ _ h12 in
      (
        not-false (contains_key c.default_profile c.profiles) (fail_if-ok _ _ known),
        named,
        profiles,
        agents,
        auth_refs,
        output,
        protocol,
        gateway,
        routing,
        adapters,
      )

  -- In a configuration that passes `MissiveConfig::validate`, the default profile is defined, and so
  -- is every agent that a profile names as its default, every auth ref that an agent names, and every
  -- profile that an adapter names.
  pub validate_config-references_resolve :
      validate_config parsers c ≡ ok tt → references_resolve c ≡ true
  unfolding references_resolve
  validate_config-references_resolve h =
      let (known, named, profiles, agents, auth_refs, o, p, g, r, adapters) =
        validate_config-parts h in
      rw
        (
          known,
          check_all-all _ (profile_resolves c) c.profiles validate_profile-resolves profiles,
          check_all-all _ (agent_resolves c) c.agents validate_agent-resolves agents,
          check_all-all _ (adapter_resolves c) c.adapters validate_adapter-resolves adapters,
        )
        refl
