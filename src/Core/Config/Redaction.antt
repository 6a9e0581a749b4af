-- ===== src/Core/Config/Redaction.antt =====
-- crates/missive-core/src/config.rs, lines 1566 to 1735: secrets are taken out of the JSON by which a
-- configuration is shown.
--
-- An index into a text is the text before it and the text after it.
use missive.Common.{
  ℕ, zero, suc, Bool, true, false, ◌||◌, Option, none, some, List, [], ◌∷◌, ◌++◌, any, filter_by,
  ◌==◌, if◌then◌else◌, length,
}
use missive.Common.Str.{
  Str, lit, str_eq, trim, starts_with, ends_with, is_whitespace, is_ascii_alphanumeric,
  to_ascii_lowercase,
}
use missive.Core.Json.{Value, Items, Fields}

abbrev pub config_redacted : Str
config_redacted = lit "[REDACTED]"

-- Of an alphanumeric ASCII character, `char::to_lowercase` is `to_ascii_lowercase`.
abbrev pub normalized_key : Str → Str
normalized_key key = to_ascii_lowercase (filter_by is_ascii_alphanumeric key)

abbrev pub secret_keys : List Str
secret_keys =
    lit "authorization"
    ∷ lit "proxyauthorization"
    ∷ lit "cookie"
    ∷ lit "setcookie"
    ∷ lit "apikey"
    ∷ lit "xapikey"
    ∷ lit "xauthtoken"
    ∷ lit "xcsrftoken"
    ∷ lit "token"
    ∷ lit "secret"
    ∷ lit "password"
    ∷ lit "passwd"
    ∷ lit "credential"
    ∷ lit "credentials"
    ∷ lit "clientsecret"
    ∷ lit "refreshtoken"
    ∷ lit "accesstoken"
    ∷ lit "accesskey"
    ∷ lit "privatekey"
    ∷ lit "sessiontoken"
    ∷ []

unfoldable pub is_secret_key : Str → Bool
is_secret_key key =
    let normalized = normalized_key key in
    any (str_eq normalized) secret_keys
    || ends_with normalized (lit "token")
    || ends_with normalized (lit "secret")
    || ends_with normalized (lit "password")
    || ends_with normalized (lit "apikey")

unfoldable pub is_auth_scheme : Str → Bool
is_auth_scheme value =
    any (str_eq (to_ascii_lowercase value))
      (lit "bearer" ∷ lit "basic" ∷ lit "token" ∷ lit "apikey" ∷ lit "api-key" ∷ [])

-- `split_once(char::is_whitespace)`, of which only the first part is used.
abbrev pub cut_word : Bool → ℕ → Option Str → Option Str
cut_word true c later = some []
cut_word false c none = none
cut_word false c (some word) = some (c ∷ word)

unfoldable pub before_whitespace : Str → Option Str
before_whitespace [] = none
before_whitespace (c ∷ s) = cut_word (is_whitespace c) c (before_whitespace s)

abbrev pub scheme_kept : Option Str → Str
scheme_kept none = config_redacted
scheme_kept (some scheme) =
    if is_auth_scheme scheme then scheme ++ 32 ∷ config_redacted else config_redacted

unfoldable pub redact_header_value : Str → Str
redact_header_value value = scheme_kept (before_whitespace (trim value))

-- `find_ascii_case_insensitive`: the text up to the end of the first match, and the text after it.
abbrev pub drop : ℕ → Str → Str
drop zero s = s
drop (suc n) [] = []
drop (suc n) (c ∷ s) = drop n s

abbrev pub take : ℕ → Str → Str
take zero s = []
take (suc n) [] = []
take (suc n) (c ∷ s) = c ∷ take n s

abbrev pub one_later : ℕ → Option (Str × Str) → Option (Str × Str)
one_later c none = none
one_later c (some (before, after)) = some (c ∷ before, after)

unfoldable pub find_ascii_case_insensitive : Str → Str → Option (Str × Str)
find_ascii_case_insensitive needle [] = none
find_ascii_case_insensitive needle (c ∷ s) =
    let later = one_later c (find_ascii_case_insensitive needle s) in
    if starts_with (to_ascii_lowercase (c ∷ s)) (to_ascii_lowercase needle)
    then some (take (length needle) (c ∷ s), drop (length needle) (c ∷ s))
    else later

-- Where the secret ends: at white space, a comma or a semicolon.
abbrev pub ends_secret : ℕ → Bool
ends_secret c = is_whitespace c || (c == b',') || (c == b';')

unfoldable pub after_secret : Str → Str
after_secret [] = []
after_secret (c ∷ s) = let rest = after_secret s in if ends_secret c then c ∷ s else rest

-- The marker, when there is a secret to replace.
abbrev pub marker : Str → Str
marker [] = []
marker (c ∷ s) = if ends_secret c then [] else config_redacted

-- The loop of `redact_after_auth_scheme`, one round and all of them. Each round takes fuel: it reads
-- the needle at least, so that the length of the text is enough.
abbrev pub redact_round : (Str → Str) → Str → Option (Str × Str) → Str
redact_round next remaining none = remaining
redact_round next remaining (some (before, after)) =
    before ++ marker after ++ next (after_secret after)

unfoldable pub redact_on : ℕ → Str → Str → Str
redact_on zero needle remaining = remaining
redact_on (suc fuel) needle remaining =
    redact_round (redact_on fuel needle) remaining (find_ascii_case_insensitive needle remaining)

abbrev pub needle_of : Str → Str
needle_of scheme = scheme ++ 32 ∷ []

unfoldable pub redact_after_auth_scheme : Str → Str → Str
redact_after_auth_scheme input scheme = redact_on (length input) (needle_of scheme) input

unfoldable pub redact_config_text : Str → Str
redact_config_text input =
    redact_after_auth_scheme
      (redact_after_auth_scheme
        (redact_after_auth_scheme (redact_after_auth_scheme input (lit "Bearer")) (lit "Basic"))
        (lit "Token"))
      (lit "ApiKey")

abbrev pub is_headers_key : Str → Bool
is_headers_key key =
    str_eq (to_ascii_lowercase key) (lit "headers")
    || str_eq (to_ascii_lowercase key) (lit "http_headers")

-- `redact_config_header_value`, with the value that `redact_config_json` gives.
unfoldable pub redact_config_header_value : Bool → Value → Value → Value
redact_config_header_value true (Value.text s) plain = Value.text (redact_header_value s)
redact_config_header_value false (Value.text s) plain = Value.text (redact_config_text s)
redact_config_header_value true _ plain = Value.text config_redacted
redact_config_header_value false _ plain = plain

-- An entry outside a map of headers.
unfoldable pub redact_entry : Bool → Bool → Value → Value → Value
redact_entry true headers as_headers plain = Value.text config_redacted
redact_entry false true as_headers plain = as_headers
redact_entry false false as_headers plain = plain

-- The keys of the new map are those of the old one, in order. The value of an entry that is itself a
-- map of headers is redacted by `redact_headers`.
unfoldable mutual
  pub redact_config_json : Value → Value
  redact_config_json (Value.object fields) = Value.object (redact_config_object fields false)
  redact_config_json (Value.array items) = Value.array (redact_config_items items)
  redact_config_json (Value.text s) = Value.text (redact_config_text s)
  redact_config_json Value.null = Value.null
  redact_config_json (Value.boolean b) = Value.boolean b
  redact_config_json (Value.number s) = Value.number s

  pub redact_config_items : Items → Items
  redact_config_items Items.nil = Items.nil
  redact_config_items (Items.item value items) =
      Items.item (redact_config_json value) (redact_config_items items)

  pub redact_headers : Value → Value
  redact_headers (Value.object fields) = Value.object (redact_config_object fields true)
  redact_headers (Value.array items) = Value.array (redact_config_items items)
  redact_headers (Value.text s) = Value.text (redact_config_text s)
  redact_headers Value.null = Value.null
  redact_headers (Value.boolean b) = Value.boolean b
  redact_headers (Value.number s) = Value.number s

  pub redact_config_object : Fields → Bool → Fields
  redact_config_object Fields.end headers_context = Fields.end
  redact_config_object (Fields.field key value fields) true =
      Fields.field key
        (redact_config_header_value (is_secret_key key) value (redact_config_json value))
        (redact_config_object fields true)
  redact_config_object (Fields.field key value fields) false =
      Fields.field key
        (redact_entry (is_secret_key key) (is_headers_key key) (redact_headers value)
          (redact_config_json value))
        (redact_config_object fields false)
