-- ===== src/A2a/Usable.antt =====
-- What the interface that crates/missive-a2a/src/lib.rs negotiates can be used for.
use missive.Common.{
  Bool, true, false, not, ◌&&◌, ◌||◌, Option, none, some, List, [], ◌∷◌, is_empty, all, ◌≡◌, refl,
  sym, subst, ◌⊎◌, inl, inr, arith, Bool-cases, and-split,
}
use missive.Common.Str.{Str, lit, str_eq, str_eq→eq}
use missive.Common.StrMap.{is_some}
use missive.Core.Error.{Result, ok, fail_if, check_all}
use missive.Core.Error.Laws.{ok-injective, >>=-eq-ok, fail_if-ok}
use missive.Core.Config.Text.{Parsers}
use missive.Core.Config.References.{>>-eq-ok}
use missive.A2a.Card.{
  AgentCard, AgentInterface, canonical_protocol_binding, is_locally_supported_binding, url_host,
  validate_agent_interface, validate_agent_card, validate_non_empty, looks_like_grpc_authority,
}
use missive.A2a.Negotiate.{
  NegotiatedInterface, NegotiatedInterfaceSource, InterfaceNegotiationOptions, first_interface,
  first_card_interface, interface_from_agent_card, validate_interface_url, fallback_interface,
  checked_fallback, base_url_interface, registered_interface, fallback_interface_for_binding,
  or_next, negotiate_missing_interfaces_fallback, base_url_for, registered_url,
}

abbrev pub has_host : Parsers → Str → Bool
has_host parsers url = is_some (url_host (parsers.parse_url url))

-- The binding is the override, when there is one.
abbrev pub is_requested : Option Str → Str → Bool
is_requested none binding = true
is_requested (some value) binding = str_eq (canonical_protocol_binding value) binding

pub record IsUsable (parsers : Parsers) (card : AgentCard) (options : InterfaceNegotiationOptions)
    (chosen : NegotiatedInterface) : Type 0 where
  pub supported : is_locally_supported_binding chosen.binding ≡ true
  pub requested : is_requested options.binding_override chosen.binding ≡ true
  pub reachable : has_host parsers chosen.url ≡ true
  pub origin :
      ((interface : AgentInterface) × (first_card_interface card chosen.binding ≡ some interface)
        × (chosen ≡ interface_from_agent_card interface))
      ⊎ (card.supported_interfaces ≡ [])

some-injective {ℓ} : {A : Type ℓ} {a b : A} → some a ≡ some b → a ≡ b
some-injective h = cc

module _ (parsers : Parsers) where
  first_interface-valid :
      (xs : List AgentInterface) (binding : Str) (i : AgentInterface)
      → check_all (validate_agent_interface parsers) xs ≡ ok tt
      → first_interface xs binding ≡ some i
      → (canonical_protocol_binding i.protocol_binding ≡ binding)
        × (validate_agent_interface parsers i ≡ ok tt)
  unfolding check_all first_interface
  first_interface-valid [] binding i h e = absurd cc
  first_interface-valid (x ∷ xs) binding i h e =
      let (here, there) = >>-eq-ok (validate_agent_interface parsers x) _ h in
      elim (Bool-cases (str_eq (canonical_protocol_binding x.protocol_binding) binding)) [
        | inl same ↦
            ground (arith, str_eq→eq (canonical_protocol_binding x.protocol_binding) binding)
        | inr other ↦ ground (arith, first_interface-valid xs binding i there)
      ]

  grpc-unsupported :
      (binding : Str)
      → is_locally_supported_binding binding ≡ true
      → str_eq binding (lit "grpc") ≡ false
  unfolding is_locally_supported_binding str_eq
  grpc-unsupported binding h = elim (Bool-cases (str_eq binding (lit "grpc"))) [
    | inl same ↦
        let b : binding ≡ lit "grpc" = str_eq→eq binding (lit "grpc") same in
        let bad : is_locally_supported_binding (lit "grpc") ≡ true =
          subst (λ x. is_locally_supported_binding x ≡ true) b h in
        absurd cc
    | inr other ↦ other
  ]

  or-not-false : (a b : Bool) (c : Bool) → b ≡ false → not (a || (b && c)) ≡ false → a ≡ true
  or-not-false true b c h g = refl
  or-not-false false b c h g = absurd (ground arith)

  advertised-has_host :
      (i : AgentInterface)
      → validate_agent_interface parsers i ≡ ok tt
      → is_locally_supported_binding (canonical_protocol_binding i.protocol_binding) ≡ true
      → has_host parsers i.url ≡ true
  unfolding validate_agent_interface
  advertised-has_host i h known =
      let (u, h1) = >>-eq-ok (validate_non_empty i.url) _ h in
      let (b, h2) = >>-eq-ok (validate_non_empty i.protocol_binding) _ h1 in
      let (v, h3) = >>-eq-ok (validate_non_empty i.protocol_version) _ h2 in
      or-not-false (has_host parsers i.url) _ (looks_like_grpc_authority i.url)
        (grpc-unsupported (canonical_protocol_binding i.protocol_binding) known) (fail_if-ok _ _ h3)

  validate_interface_url-has_host :
      (url : Str) → validate_interface_url parsers url ≡ ok tt → has_host parsers url ≡ true
  unfolding validate_interface_url
  validate_interface_url-has_host url h = ground arith

  -- A fallback has the binding that was asked for, and a URL with a host.
  checked_fallback-has_host :
      (binding url : Str) (source : NegotiatedInterfaceSource) (c : NegotiatedInterface)
      → checked_fallback parsers binding source url ≡ ok (some c)
      → (c.binding ≡ binding) × (has_host parsers c.url ≡ true)
  checked_fallback-has_host binding url source c h =
      let (done, valid, e) = >>=-eq-ok (validate_interface_url parsers url) _ h in
      let same : fallback_interface binding url source ≡ c = some-injective (ok-injective e) in
      subst (λ c. (c.binding ≡ binding) × (has_host parsers c.url ≡ true)) same
        (refl, validate_interface_url-has_host url valid)

  base_url-has_host :
      (binding : Str) (base : Option Str) (c : NegotiatedInterface)
      → base_url_interface parsers binding base ≡ ok (some c)
      → (c.binding ≡ binding) × (has_host parsers c.url ≡ true)
  base_url-has_host binding none c h = absurd (ground arith)
  base_url-has_host binding (some url) c h =
      checked_fallback-has_host binding url NegotiatedInterfaceSource.base_url_fallback c h

  registered-has_host :
      (options : InterfaceNegotiationOptions) (binding : Str) (url : Option Str)
      (c : NegotiatedInterface)
      → registered_interface parsers options binding url ≡ ok (some c)
      → (c.binding ≡ binding) × (has_host parsers c.url ≡ true)
  registered-has_host options binding none c h =
      base_url-has_host binding (base_url_for options.fallback_base_url binding) c h
  registered-has_host options binding (some url) c h =
      checked_fallback-has_host binding url NegotiatedInterfaceSource.registry_override c h

  found-has_host :
      (has : Str → Bool) (options : InterfaceNegotiationOptions) (b : Str)
      (found : Option NegotiatedInterface) (next : Result NegotiatedInterface)
      (c : NegotiatedInterface)
      → has b ≡ true
      → fallback_interface_for_binding parsers options b ≡ ok found
      → or_next parsers found next ≡ ok c
      → (next ≡ ok c → (has c.binding ≡ true) × (has_host parsers c.url ≡ true))
      → (has c.binding ≡ true) × (has_host parsers c.url ≡ true)
  unfolding fallback_interface_for_binding
  found-has_host has options b none next c here called e later = later e
  found-has_host has options b (some d) next c here called e later =
      let (same, reachable) =
        registered-has_host options b (registered_url options.fallback_interface_urls b) d called in
      subst (λ c. (has c.binding ≡ true) × (has_host parsers c.url ≡ true)) (ok-injective e)
        (subst (λ b. has b ≡ true) (sym same) here, reachable)

  -- What every binding on the list has, the binding of the fallback has too.
  missing-has_host :
      (has : Str → Bool) (options : InterfaceNegotiationOptions) (bindings : List Str)
      (c : NegotiatedInterface)
      → all has bindings ≡ true
      → negotiate_missing_interfaces_fallback parsers options bindings ≡ ok c
      → (has c.binding ≡ true) × (has_host parsers c.url ≡ true)
  unfolding negotiate_missing_interfaces_fallback
  missing-has_host has options [] c h e = absurd cc
  missing-has_host has options (b ∷ bs) c h e =
      let (here, there) = and-split (has b) (all has bs) h in
      let (found, called, next) =
        >>=-eq-ok (fallback_interface_for_binding parsers options b) _ e in
      found-has_host has options b found _ c here called next
        (missing-has_host has options bs c there)

  module _ (card : AgentCard) (options : InterfaceNegotiationOptions)
      (valid : validate_agent_card parsers card ≡ ok tt) where
    interfaces-valid :
        check_all (validate_agent_interface parsers) card.supported_interfaces ≡ ok tt
    unfolding validate_agent_card
    interfaces-valid =
        let (n, h1) = >>-eq-ok (validate_non_empty card.name) _ valid in
        let (d, h2) = >>-eq-ok (validate_non_empty card.description) _ h1 in
        let (v, h3) = >>-eq-ok (validate_non_empty card.version) _ h2 in
        let (s, h4) = >>-eq-ok (fail_if (is_empty card.skills) _) _ h3 in
        let (i, h5) =
          >>-eq-ok (check_all (validate_agent_interface parsers) card.supported_interfaces) _ h4 in
        i

    -- An interface of the card under a supported binding.
    pub advertised-IsUsable :
        (binding : Str) (i : AgentInterface)
        → is_locally_supported_binding binding ≡ true
        → is_requested options.binding_override binding ≡ true
        → first_card_interface card binding ≡ some i
        → IsUsable parsers card options (interface_from_agent_card i)
    unfolding interface_from_agent_card
    advertised-IsUsable binding i known asked e =
        let (same, checked) =
          first_interface-valid card.supported_interfaces binding i interfaces-valid e in
        let here : is_locally_supported_binding (canonical_protocol_binding i.protocol_binding)
            ≡ true =
          subst (λ b. is_locally_supported_binding b ≡ true) (sym same) known in
        record {
          supported = here;
          requested = subst (λ b. is_requested options.binding_override b ≡ true) (sym same) asked;
          reachable = advertised-has_host i checked here;
          origin = inl (i, subst (λ b. first_card_interface card b ≡ some i) (sym same) e, refl);
        }

    pub fallback-IsUsable :
        (bindings : List Str) (c : NegotiatedInterface)
        → all
            (λ b. is_locally_supported_binding b && is_requested options.binding_override b)
            bindings
          ≡ true
        → card.supported_interfaces ≡ []
        → negotiate_missing_interfaces_fallback parsers options bindings ≡ ok c
        → IsUsable parsers card options c
    fallback-IsUsable bindings c h none_declared e =
        let (both, host) =
          missing-has_host
            (λ b. is_locally_supported_binding b && is_requested options.binding_override b) options
            bindings c h e in
        let (known, asked) = and-split (is_locally_supported_binding c.binding) _ both in
        record {
          supported = known;
          requested = asked;
          reachable = host;
          origin = inr none_declared;
        }
