-- ===== src/Rpc/Response/Clean.antt =====
-- Which answers of a connector count as an error.
use novena_gateway.Common.{String, ◌≡◌, refl, ◌↔◌, true, false, Bool-cases, inl, inr}
use novena_gateway.Json.{
  special, Value, null, bool, num, str, arr, obj, Items, nil, cons, Fields, end, field, get_field,
  truthy,
}
use novena_gateway.Rpc.Response.{
  field_or_null, is_false, or_else, find_response_error, find_item_error, find_field_error,
}

-- Nothing in an answer speaks of a failure: it is not None and holds no None at any depth, and none of
-- its dicts has a `success` that is False or an `error` that is true.
abbrev mutual
  pub IsClean : Value → Type 0
  IsClean null = ⊥
  IsClean (bool b) = Unit
  IsClean (num m k) = Unit
  IsClean (special x) = Unit
  IsClean (str s) = Unit
  IsClean (arr vs) = AllClean vs
  IsClean (obj fs) =
      (is_false (get_field "success" fs) ≡ false)
      × (truthy (field_or_null (get_field "error" fs)) ≡ false)
      × FieldsClean fs

  pub AllClean : Items → Type 0
  AllClean nil = Unit
  AllClean (cons v vs) = IsClean v × AllClean vs

  pub FieldsClean : Fields → Type 0
  FieldsClean end = Unit
  FieldsClean (field k v fs) = IsClean v × FieldsClean fs

or_else_falsy :
    (a b : Value) → (truthy (or_else a b) ≡ false) ↔ ((truthy a ≡ false) × (truthy b ≡ false))
or_else_falsy a b = elim (Bool-cases (truthy a)) [
  | inl holds ↦ rw (holds, holds) (λ h. cc, λ h. cc)
  | inr fails ↦ rw fails (λ h. (refl, h), λ h. h.1)
]

-- A failure that is reported has a text.
reported : (a : Value) → truthy (or_else a (str "connector reported unsuccessful execution")) ≡ true
reported a = elim (Bool-cases (truthy a)) [ inl holds ↦ rw holds holds | inr fails ↦ rw fails refl ]

module _ (text_of : Value → String)
    (shown : (v : Value) → truthy v ≡ true → truthy (str (text_of v)) ≡ true) where
  mutual
    unfolding find_response_error

    IsClean-response : (v : Value) → (truthy (find_response_error text_of v) ≡ false) ↔ IsClean v
    IsClean-response null = (λ h. cc, λ h. absurd h)
    IsClean-response (bool b) = (λ h. tt, λ h. refl)
    IsClean-response (num m k) = (λ h. tt, λ h. refl)
    IsClean-response (special x) = (λ h. tt, λ h. refl)
    IsClean-response (str s) = (λ h. tt, λ h. refl)
    IsClean-response (arr vs) = clean_items vs
    IsClean-response (obj fs) =
        let (to, from) = clean_fields fs in
        elim (Bool-cases (is_false (get_field "success" fs))) [
          | inl failed ↦
              rw failed (λ h. cc (reported (field_or_null (get_field "message" fs))), λ h. cc)
          | inr fine ↦ elim (Bool-cases (truthy (field_or_null (get_field "error" fs)))) [
            | inl told ↦
                rw (fine, told)
                  (λ h. cc (shown (field_or_null (get_field "error" fs)) told), λ h. cc)
            | inr quiet ↦ rw (fine, quiet) (λ h. (refl, refl, to h), λ h. from h.2)
          ]
        ]

    clean_items : (vs : Items) → (truthy (find_item_error text_of vs) ≡ false) ↔ AllClean vs
    clean_items nil = (λ h. tt, λ h. refl)
    clean_items (cons v vs) =
        let (apart, join) =
          or_else_falsy (find_response_error text_of v) (find_item_error text_of vs) in
        let (to, from) = IsClean-response v in
        let (to', from') = clean_items vs in
        (λ h. (to (apart h).0, to' (apart h).1), λ h. join (from h.0, from' h.1))

    clean_fields : (fs : Fields) → (truthy (find_field_error text_of fs) ≡ false) ↔ FieldsClean fs
    clean_fields end = (λ h. tt, λ h. refl)
    clean_fields (field k v fs) =
        let (apart, join) =
          or_else_falsy (find_response_error text_of v) (find_field_error text_of fs) in
        let (to, from) = IsClean-response v in
        let (to', from') = clean_fields fs in
        (λ h. (to (apart h).0, to' (apart h).1), λ h. join (from h.0, from' h.1))

  -- Where a true value has a text that is not empty, an answer counts as no error exactly when it is not
  -- None and holds no None at any depth, and none of its dicts, at any depth, has a `success` that is
  -- False or an `error` that is true.
  pub no_error_iff_IsClean :
      (v : Value) → (truthy (find_response_error text_of v) ≡ false) ↔ IsClean v
  no_error_iff_IsClean v = IsClean-response v
