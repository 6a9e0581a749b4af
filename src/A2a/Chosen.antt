-- ===== src/A2a/Chosen.antt =====
-- The interface that crates/missive-a2a/src/lib.rs negotiates with a validated Agent Card.
use missive.Common.{
  ◌∙◌, or_else, any, Bool, true, not, ◌&&◌, Option, none, some, List, [], ◌∷◌, is_empty, all,
  filter_by, ◌≡◌, refl, subst, inl, inr, arith, Bool-cases, Option-cases, and-split, and-join,
}
use missive.Common.Str.{Str, str_eq, str_eq_refl}
use missive.Core.Error.{ok, fail_if, validation_error}
use missive.Core.Error.Laws.{ok-injective, >>=-eq-ok, fail_if-ok}
use missive.Core.Config.Text.{Parsers}
use missive.Core.Config.References.{not-false}
use missive.A2a.Card.{
  AgentCard, AgentInterface, canonical_protocol_binding, is_locally_supported_binding,
  validate_agent_card,
}
use missive.A2a.Negotiate.{
  is_binding_char, NegotiatedInterface, InterfaceNegotiationOptions, first_card_interface,
  negotiate_requested_binding, first_preferred, negotiate_preferred, negotiate_with,
  negotiate_agent_interface, normalize_requested_binding, ensure_locally_supported,
  normalized_preferences,
}
use missive.A2a.Usable.{IsUsable, is_requested, advertised-IsUsable, fallback-IsUsable}

is_empty→eq {ℓ} : {A : Type ℓ} (xs : List A) → is_empty xs ≡ true → xs ≡ []
is_empty→eq [] h = refl
is_empty→eq (x ∷ xs) h = absurd cc

normalize_requested_binding-canonical :
    (value binding : Str)
    → normalize_requested_binding value ≡ ok binding
    → str_eq (canonical_protocol_binding value) binding ≡ true
unfolding normalize_requested_binding
normalize_requested_binding-canonical value binding h =
    let canonical = canonical_protocol_binding value in
    let (a, e, h1) = >>=-eq-ok (fail_if (is_empty canonical) _) _ h in
    let (b, f, h2) =
      >>=-eq-ok
        (fail_if (any (λ c. not (is_binding_char c)) canonical)
          (validation_error "{label} {value:?} is not a valid protocol binding name"))
        (λ done. ok canonical) h1 in
    subst (λ b. str_eq canonical b ≡ true) (ok-injective h2) (str_eq_refl canonical)

all-filter_by {ℓ} : {A : Type ℓ} (p : A → Bool) (xs : List A) → all p (filter_by p xs) ≡ true
all-filter_by p [] = refl
all-filter_by p (x ∷ xs) = ground (arith, all-filter_by p xs)

module _ (parsers : Parsers) (card : AgentCard) (options : InterfaceNegotiationOptions)
    (valid : validate_agent_card parsers card ≡ ok tt) where
  requested-IsUsable :
      (binding : Str) (c : NegotiatedInterface)
      → is_locally_supported_binding binding ≡ true
      → is_requested options.binding_override binding ≡ true
      → negotiate_requested_binding parsers card options binding (first_card_interface card binding)
        ≡ ok c
      → IsUsable parsers card options c
  unfolding negotiate_requested_binding
  requested-IsUsable binding c known asked h =
      elim (Option-cases (first_card_interface card binding)) [
        | inr (i, e) ↦
            subst (IsUsable parsers card options)
              (ok-injective (
                subst (λ o. negotiate_requested_binding parsers card options binding o ≡ ok c) e h))
              (advertised-IsUsable parsers card options valid binding i known asked e)
        | inl missing ↦ elim (Bool-cases (is_empty card.supported_interfaces)) [
          | inl empty ↦
              fallback-IsUsable parsers card options valid (binding ∷ []) c (rw (known, asked) refl)
                (is_empty→eq card.supported_interfaces empty) (ground arith)
          | inr declared ↦ absurd (ground arith)
        ]
      ]

  or_else-found :
      (b : Str) (o : Option AgentInterface) {later : Option AgentInterface} {i : AgentInterface}
      → first_card_interface card b ≡ o
      → or_else o later ≡ some i
      → (later ≡ some i
          → (binding : Str) × (is_locally_supported_binding binding ≡ true)
            × (first_card_interface card binding ≡ some i))
      → is_locally_supported_binding b ≡ true
      → (binding : Str) × (is_locally_supported_binding binding ≡ true)
        × (first_card_interface card binding ≡ some i)
  or_else-found b none f e next here = next e
  or_else-found b (some j) f e next here = (b, here, f ∙ e)

  first_preferred-found :
      (bindings : List Str) (i : AgentInterface)
      → all is_locally_supported_binding bindings ≡ true
      → first_preferred parsers card bindings ≡ some i
      → (binding : Str) × (is_locally_supported_binding binding ≡ true)
        × (first_card_interface card binding ≡ some i)
  unfolding first_preferred
  first_preferred-found [] i h e = absurd cc
  first_preferred-found (b ∷ bs) i h e =
      let (here, there) = and-split (is_locally_supported_binding b) _ h in
      or_else-found b (first_card_interface card b) refl e
        (λ later. first_preferred-found bs i there later) here

  all-unasked :
      (bindings : List Str)
      → options.binding_override ≡ none
      → all is_locally_supported_binding bindings ≡ true
      → all
          (λ b. is_locally_supported_binding b && is_requested options.binding_override b)
          bindings
        ≡ true
  all-unasked [] u h = refl
  all-unasked (b ∷ bs) u h =
      let (here, there) = and-split (is_locally_supported_binding b) _ h in
      let more = all-unasked bs u there in
      and-join (is_locally_supported_binding b && is_requested options.binding_override b) _
        (and-join (is_locally_supported_binding b) _ here (rw u refl)) more

  preferred-IsUsable :
      (bindings : List Str) (found : Option AgentInterface) (c : NegotiatedInterface)
      → options.binding_override ≡ none
      → all is_locally_supported_binding bindings ≡ true
      → first_preferred parsers card bindings ≡ found
      → negotiate_preferred parsers card options bindings found ≡ ok c
      → IsUsable parsers card options c
  unfolding negotiate_preferred
  preferred-IsUsable bindings (some i) c u h e k =
      let (b, known, f) = first_preferred-found bindings i h e in
      subst (IsUsable parsers card options) (ok-injective k)
        (advertised-IsUsable parsers card options valid b i known (rw u refl) f)
  preferred-IsUsable bindings none c u h e k =
      elim (Bool-cases (is_empty card.supported_interfaces)) [
        | inl empty ↦
            fallback-IsUsable parsers card options valid bindings c (all-unasked bindings u h)
              (is_empty→eq card.supported_interfaces empty) (ground arith)
        | inr declared ↦ absurd (ground arith)
      ]

  with-IsUsable :
      (preferences : List Str) (override : Option Str) (c : NegotiatedInterface)
      → options.binding_override ≡ override
      → negotiate_with parsers card options preferences override ≡ ok c
      → IsUsable parsers card options c
  unfolding negotiate_with ensure_locally_supported
  with-IsUsable preferences (some o) c u h =
      let (binding, named, h1) = >>=-eq-ok (normalize_requested_binding o) _ h in
      let (done, known, h2) = >>=-eq-ok (ensure_locally_supported binding) _ h1 in
      requested-IsUsable binding c
        (not-false (is_locally_supported_binding binding) (fail_if-ok _ _ known))
        (rw u (normalize_requested_binding-canonical o binding named)) h2
  with-IsUsable preferences none c u h =
      let supported = filter_by is_locally_supported_binding preferences in
      let (done, filled, h1) =
        >>=-eq-ok (fail_if (is_empty supported) _)
          (λ done.
            negotiate_preferred parsers card options supported
              (first_preferred parsers card supported))
          h in
      preferred-IsUsable supported (first_preferred parsers card supported) c u
        (all-filter_by is_locally_supported_binding preferences) refl h1

  -- When the Agent Card has passed its validation and negotiation gives an interface, this binding is
  -- implemented locally and is the override if there is one, and the URL is absolute and has a host,
  -- whatever preferences and fallbacks the caller gives. The interface is the first of the card with
  -- that binding, or the card declares none.
  pub negotiate_agent_interface-IsUsable :
      (c : NegotiatedInterface)
      → negotiate_agent_interface parsers card options ≡ ok c
      → IsUsable parsers card options c
  unfolding negotiate_agent_interface
  negotiate_agent_interface-IsUsable c h =
      let (preferences, named, h1) =
        >>=-eq-ok (normalized_preferences options.preferred_bindings) _ h in
      with-IsUsable preferences options.binding_override c refl h1
