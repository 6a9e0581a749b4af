-- ===== src/Gateway/Subscription/Redaction.antt =====
-- crates/missive-gateway/src/subscription.rs: secrets are taken out of the JSON that is logged.
use missive.Common.{
  and-split, Bool, true, false, ◌&&◌, List, [], ◌∷◌, any, filter_by, if◌then◌else◌, ◌≡◌, refl, ap,
  sym, subst, ◌↔◌,
}
use missive.Common.Str.{is_ascii_alphanumeric, Str, lit, str_eq, str_eq→eq, to_ascii_lowercase}
use missive.Core.Json.{Value, Items, Fields}

abbrev pub secret_keys : List Str
secret_keys =
    lit "authorization"
    ∷ lit "proxyauthorization"
    ∷ lit "token"
    ∷ lit "accesstoken"
    ∷ lit "refreshtoken"
    ∷ lit "apikey"
    ∷ lit "password"
    ∷ lit "secret"
    ∷ lit "credentials"
    ∷ lit "cookie"
    ∷ lit "setcookie"
    ∷ []

unfoldable pub is_secret_key : Str → Bool
is_secret_key key =
    any (str_eq (to_ascii_lowercase (filter_by is_ascii_alphanumeric key))) secret_keys

abbrev pub redacted_text : Value
redacted_text = Value.text (lit "[REDACTED]")

abbrev pub redact_value : Bool → Value → Value
redact_value true value = redacted_text
redact_value false value = value

-- The keys of the new map are those of the old one, in order.
unfoldable mutual
  pub redact_json : Value → Value
  redact_json (Value.object fields) = Value.object (redact_fields fields)
  redact_json (Value.array items) = Value.array (redact_items items)
  redact_json Value.null = Value.null
  redact_json (Value.boolean b) = Value.boolean b
  redact_json (Value.number s) = Value.number s
  redact_json (Value.text s) = Value.text s

  pub redact_items : Items → Items
  redact_items Items.nil = Items.nil
  redact_items (Items.item value items) = Items.item (redact_json value) (redact_items items)

  pub redact_fields : Fields → Fields
  redact_fields Fields.end = Fields.end
  redact_fields (Fields.field key value fields) =
      Fields.field key (redact_value (is_secret_key key) (redact_json value)) (redact_fields fields)

abbrev pub is_redacted_text : Value → Bool
is_redacted_text (Value.text s) = str_eq s (lit "[REDACTED]")
is_redacted_text _ = false

-- At every depth, what stands under a secret key is the marker.
unfoldable mutual
  pub is_clean : Value → Bool
  is_clean (Value.object fields) = are_clean_fields fields
  is_clean (Value.array items) = are_clean_items items
  is_clean Value.null = true
  is_clean (Value.boolean b) = true
  is_clean (Value.number s) = true
  is_clean (Value.text s) = true

  pub are_clean_items : Items → Bool
  are_clean_items Items.nil = true
  are_clean_items (Items.item value items) = is_clean value && are_clean_items items

  pub are_clean_fields : Fields → Bool
  are_clean_fields Fields.end = true
  are_clean_fields (Fields.field key value fields) =
      (if is_secret_key key then is_redacted_text value else is_clean value)
      && are_clean_fields fields

clean-value :
    (secret : Bool) (value : Value) (rest : Bool)
    → is_clean value ≡ true
    → rest ≡ true
    → ((if secret
          then is_redacted_text (redact_value secret value)
          else is_clean (redact_value secret value))
        && rest)
      ≡ true
unfolding str_eq
clean-value true value rest g h = h
clean-value false value rest g h = rw (g, h) refl

mutual
  unfolding redact_json is_clean

  redact_json-is_clean : (value : Value) → is_clean (redact_json value) ≡ true
  redact_json-is_clean (Value.object fields) = redact_fields-are_clean fields
  redact_json-is_clean (Value.array items) = redact_items-are_clean items
  redact_json-is_clean Value.null = refl
  redact_json-is_clean (Value.boolean b) = refl
  redact_json-is_clean (Value.number s) = refl
  redact_json-is_clean (Value.text s) = refl

  redact_items-are_clean : (items : Items) → are_clean_items (redact_items items) ≡ true
  redact_items-are_clean Items.nil = refl
  redact_items-are_clean (Items.item value items) =
      rw (redact_json-is_clean value, redact_items-are_clean items) refl

  redact_fields-are_clean : (fields : Fields) → are_clean_fields (redact_fields fields) ≡ true
  redact_fields-are_clean Fields.end = refl
  redact_fields-are_clean (Fields.field key value fields) =
      clean-value (is_secret_key key) (redact_json value) (are_clean_fields (redact_fields fields))
        (redact_json-is_clean value) (redact_fields-are_clean fields)

is_redacted_text→eq : (value : Value) → is_redacted_text value ≡ true → redacted_text ≡ value
is_redacted_text→eq (Value.text s) h = ap Value.text (sym (str_eq→eq s (lit "[REDACTED]") h))
is_redacted_text→eq Value.null h = absurd cc
is_redacted_text→eq (Value.boolean b) h = absurd cc
is_redacted_text→eq (Value.number s) h = absurd cc
is_redacted_text→eq (Value.array items) h = absurd cc
is_redacted_text→eq (Value.object fields) h = absurd cc

kept-value :
    (secret : Bool) (value redacted : Value)
    → (if secret then is_redacted_text value else is_clean value) ≡ true
    → (is_clean value ≡ true → redacted ≡ value)
    → redact_value secret redacted ≡ value
kept-value true value redacted h same = is_redacted_text→eq value h
kept-value false value redacted h same = same h

mutual
  unfolding redact_json is_clean

  redact_json-clean : (value : Value) → is_clean value ≡ true → redact_json value ≡ value
  redact_json-clean (Value.object fields) h = ap Value.object (redact_fields-clean fields h)
  redact_json-clean (Value.array items) h = ap Value.array (redact_items-clean items h)
  redact_json-clean Value.null h = refl
  redact_json-clean (Value.boolean b) h = refl
  redact_json-clean (Value.number s) h = refl
  redact_json-clean (Value.text s) h = refl

  redact_items-clean : (items : Items) → are_clean_items items ≡ true → redact_items items ≡ items
  redact_items-clean Items.nil h = refl
  redact_items-clean (Items.item value items) h =
      let (here, there) = and-split (is_clean value) _ h in
      rw (redact_json-clean value here, redact_items-clean items there) refl

  redact_fields-clean :
      (fields : Fields) → are_clean_fields fields ≡ true → redact_fields fields ≡ fields
  redact_fields-clean Fields.end h = refl
  redact_fields-clean (Fields.field key value fields) h =
      let (here, there) =
        and-split (if is_secret_key key then is_redacted_text value else is_clean value) _ h in
      rw
        (
          kept-value (is_secret_key key) value (redact_json value) here (redact_json-clean value),
          redact_fields-clean fields there,
        )
        refl

-- What is logged holds nothing but the marker under a secret key, at any depth; and a value of which
-- that is true already, as one that was redacted, is logged as it is.
pub redact_json-clean_iff :
    (value : Value)
    → (is_clean (redact_json value) ≡ true)
      × ((is_clean value ≡ true) ↔ (redact_json value ≡ value))
redact_json-clean_iff value = (
  redact_json-is_clean value,
  (redact_json-clean value, λ e. subst (λ v. is_clean v ≡ true) e (redact_json-is_clean value)),
)
