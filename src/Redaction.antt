-- ===== src/Redaction.antt =====
-- `is_sensitive_key` and `redact_secrets` of novena_gateway/gateway/redaction.py, on JSON values.
pub mod Hidden
use novena_gateway.Common.{
  ℕ, String, Bool, true, false, not, ◌||◌, List, [], ◌∷◌, any, map, ◌==◌, str_eq, if◌then◌else◌,
}
use novena_gateway.Json.{
  special, Value, null, bool, num, str, arr, obj, Items, nil, cons, Fields, end, field, codes,
  lower, contains_text,
}

unfoldable pub redacted_text : String
redacted_text = "[REDACTED]"

unfoldable pub sensitive_key_parts : List String
sensitive_key_parts =
    "password" ∷ "token" ∷ "claim_code" ∷ "claimcode" ∷ "secret" ∷ "privatekey" ∷ "private_key"
    ∷ "authorization" ∷ "bearer" ∷ "keyfile" ∷ []

-- `replace("-", "_")`
abbrev underscored : List ℕ → List ℕ
underscored = map (λ c. if c == b'-' then b'_' else c)

unfoldable pub is_sensitive_key : String → Bool
unfolding sensitive_key_parts
is_sensitive_key key =
    any (λ part. contains_text (codes part) (lower (underscored (codes key)))) sensitive_key_parts

-- `child in (None, "")`
abbrev pub is_empty : Value → Bool
is_empty null = true
is_empty (str s) = str_eq s ""
is_empty _ = false

abbrev pub hide : Value → Value
hide child = if is_empty child then child else str redacted_text

unfoldable mutual
  unfolding redacted_text

  pub redact_secrets : Value → Value
  redact_secrets null = null
  redact_secrets (bool b) = bool b
  redact_secrets (num m k) = num m k
  redact_secrets (special x) = special x
  redact_secrets (str s) = str s
  redact_secrets (arr vs) = arr (redact_items vs)
  redact_secrets (obj fs) = obj (redact_fields fs)

  pub redact_items : Items → Items
  redact_items nil = nil
  redact_items (cons v vs) = cons (redact_secrets v) (redact_items vs)

  pub redact_fields : Fields → Fields
  redact_fields end = end
  redact_fields (field key child fs) =
      let deep : Value = redact_secrets child in
      field key (if is_sensitive_key key then hide child else deep) (redact_fields fs)
