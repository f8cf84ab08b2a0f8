-- ===== src/Redaction/Hidden.antt =====
-- After `redact_secrets` no sensitive key shows anything, at any depth, and a second run is idle.
use novena_gateway.Common.{
  ◌≡◌, refl, ap, ◌⊎◌, true, false, if◌then◌else◌, Bool-cases, inl, inr, arith, eq_iff,
}
use novena_gateway.Json.{
  special, Value, null, bool, num, str, arr, obj, Items, nil, cons, Fields, end, field,
}
use mathlib.Core.Path.{ap₂}
use novena_gateway.Redaction.{
  redacted_text, is_sensitive_key, is_empty, hide, redact_secrets, redact_items, redact_fields,
}

-- What may stand under a sensitive key: nothing, or the mark.
abbrev pub SaysNothing : Value → Type 0
SaysNothing v = (is_empty v ≡ true) ⊎ (v ≡ str redacted_text)

abbrev mutual
  -- No sensitive key shows a value, at any depth.
  pub IsHidden : Value → Type 0
  IsHidden null = Unit
  IsHidden (bool b) = Unit
  IsHidden (num m k) = Unit
  IsHidden (special x) = Unit
  IsHidden (str s) = Unit
  IsHidden (arr vs) = AllHidden vs
  IsHidden (obj fs) = FieldsHidden fs

  pub AllHidden : Items → Type 0
  AllHidden nil = Unit
  AllHidden (cons v vs) = IsHidden v × AllHidden vs

  pub FieldsHidden : Fields → Type 0
  FieldsHidden end = Unit
  FieldsHidden (field key child fs) =
      (if is_sensitive_key key then SaysNothing child else IsHidden child) × FieldsHidden fs

hide-SaysNothing : (v : Value) → SaysNothing (hide v)
hide-SaysNothing v = elim (Bool-cases (is_empty v)) [
  | inl empty ↦ rw empty (inl empty)
  | inr full ↦ rw full (inr refl)
]

mutual
  unfolding redact_secrets

  secrets-IsHidden : (v : Value) → IsHidden (redact_secrets v)
  secrets-IsHidden null = tt
  secrets-IsHidden (bool b) = tt
  secrets-IsHidden (num m k) = tt
  secrets-IsHidden (special x) = tt
  secrets-IsHidden (str s) = tt
  secrets-IsHidden (arr vs) = items-AllHidden vs
  secrets-IsHidden (obj fs) = fields-FieldsHidden fs

  items-AllHidden : (vs : Items) → AllHidden (redact_items vs)
  items-AllHidden nil = tt
  items-AllHidden (cons v vs) = (secrets-IsHidden v, items-AllHidden vs)

  fields-FieldsHidden : (fs : Fields) → FieldsHidden (redact_fields fs)
  fields-FieldsHidden end = tt
  fields-FieldsHidden (field key child fs) = (
    elim (is_sensitive_key key)
        as (λ b.
          if b
          then SaysNothing (if b then hide child else redact_secrets child)
          else IsHidden (if b then hide child else redact_secrets child)) [
            | true ↦ hide-SaysNothing child
            | false ↦ secrets-IsHidden child
          ],
    fields-FieldsHidden fs,
  )

-- After `redact_secrets` every sensitive key, at any depth, shows nothing but the mark.
pub redact_secrets-IsHidden : (v : Value) → IsHidden (redact_secrets v)
redact_secrets-IsHidden v = secrets-IsHidden v

hide_twice : (v : Value) → hide (hide v) ≡ hide v
hide_twice v = elim (Bool-cases (is_empty v)) [
  | inl empty ↦ rw empty (rw empty)
  | inr full ↦ rw full (ground (arith, eq_iff redacted_text ""))
]

mutual
  unfolding redact_secrets

  secrets_twice : (v : Value) → redact_secrets (redact_secrets v) ≡ redact_secrets v
  secrets_twice null = refl
  secrets_twice (bool b) = refl
  secrets_twice (num m k) = refl
  secrets_twice (special x) = refl
  secrets_twice (str s) = refl
  secrets_twice (arr vs) = ap arr (items_twice vs)
  secrets_twice (obj fs) = ap obj (fields_twice fs)

  items_twice : (vs : Items) → redact_items (redact_items vs) ≡ redact_items vs
  items_twice nil = refl
  items_twice (cons v vs) = cc (secrets_twice v, items_twice vs)

  fields_twice : (fs : Fields) → redact_fields (redact_fields fs) ≡ redact_fields fs
  fields_twice end = refl
  fields_twice (field key child fs) = elim (Bool-cases (is_sensitive_key key)) [
    | inl secret ↦ rw secret (ap₂ (λ v r. field key v r) (hide_twice child) (fields_twice fs))
    | inr plain ↦ rw plain (ap₂ (λ v r. field key v r) (secrets_twice child) (fields_twice fs))
  ]

-- Redacting again changes nothing.
pub redact_secrets_twice : (v : Value) → redact_secrets (redact_secrets v) ≡ redact_secrets v
redact_secrets_twice v = secrets_twice v
