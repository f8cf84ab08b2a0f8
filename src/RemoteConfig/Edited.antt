-- ===== src/RemoteConfig/Edited.antt =====
-- Adding a connector and removing it again.
use novena_gateway.Common.{
  suc, String, ◌≡◌, refl, ap, ◌∙◌, true, false, some, arith, eq_iff, ◌==◌, ok,
}
use novena_gateway.Json.{
  Value, str, arr, obj, Items, nil, cons, Fields, end, field, get, get_or, get_field, truthy,
  eq_value,
}
use novena_gateway.RemoteConfig.{connectors_of}
use novena_gateway.RemoteConfig.Edits.{
  set_field, set_key, has_named, append_item, without_named, count, read_connectors, name_of,
  edit_add, edit_remove,
}

get_field-set_field :
    (k : String) (v : Value) (fs : Fields) → get_field k (set_field k v fs) ≡ some v
unfolding get_field set_field
get_field-set_field k v end = ground (arith, eq_iff k k)
get_field-set_field k v (field j w fs) = ground (arith, eq_iff j k, get_field-set_field k v fs)

set_field_twice :
    (k : String) (v w : Value) (fs : Fields) → set_field k w (set_field k v fs) ≡ set_field k w fs
unfolding set_field
set_field_twice k v w end = ground (arith, eq_iff k k)
set_field_twice k v w (field j u fs) = ground (arith, eq_iff j k, set_field_twice k v w fs)

-- Removing a name that the list does not have leaves the list, and one that was appended goes.
without-append :
    (name : String) (c : Value) (vs : Items)
    → get c "name" ≡ ok (str name)
    → has_named (str name) vs ≡ ok false
    → without_named (str name) (append_item vs c) ≡ ok vs
unfolding has_named without_named append_item eq_value
without-append name c nil h none_yet = ground (arith, h, eq_iff name name)
without-append name c (cons v vs) h none_yet = ground (arith, without-append name c vs h)

count-append : (vs : Items) (c : Value) → count (append_item vs c) ≡ suc (count vs)
unfolding count append_item
count-append nil c = refl
count-append (cons v vs) c = ap suc (count-append vs c)

edit_add-eq-ok :
    (name : String) (connector : Value) (fs : Fields) (vs : Items) {added : Value}
    → get connector "name" ≡ ok (str name)
    → get_field "connectors" fs ≡ some (arr vs)
    → edit_add connector (obj fs) ≡ ok added
    → (truthy (str name) ≡ true)
      × (has_named (str name) vs ≡ ok false)
      × (added ≡ obj (set_field "connectors" (arr (append_item vs connector)) fs))
unfolding edit_add read_connectors name_of connectors_of set_key get_or
edit_add-eq-ok name connector fs vs named held e =
    (ground (arith, named, held, e), ground (arith, named, held, e), ground (arith, named, held, e))

count_differs : (vs : Items) (c : Value) → (count vs == count (append_item vs c)) ≡ false
count_differs vs c = ground (arith, count-append vs c)

edit_remove_added :
    (name : String) (connector : Value) (fs gs : Fields) (vs : Items)
    → get connector "name" ≡ ok (str name)
    → truthy (str name) ≡ true
    → has_named (str name) vs ≡ ok false
    → get_field "connectors" gs ≡ some (arr (append_item vs connector))
    → edit_remove connector (obj gs) ≡ ok (obj (set_field "connectors" (arr vs) gs))
unfolding edit_remove read_connectors name_of connectors_of set_key get_or
edit_remove_added name connector fs gs vs named there none_yet held =
    ground (arith, without-append name connector vs named none_yet, count_differs vs connector)

-- Adding a connector, under a name that is a text, to a configuration whose connectors are a list, and
-- then removing that name gives a configuration with the connectors of before.
pub remove_add :
    (name : String) (connector : Value) (fs : Fields) (vs : Items) {added : Value}
    → get connector "name" ≡ ok (str name)
    → get_field "connectors" fs ≡ some (arr vs)
    → edit_add connector (obj fs) ≡ ok added
    → edit_remove connector added ≡ ok (obj (set_field "connectors" (arr vs) fs))
remove_add name connector fs vs {added} named held e =
    let (there, none_yet, same) = edit_add-eq-ok name connector fs vs named held e in
    let gs : Fields = set_field "connectors" (arr (append_item vs connector)) fs in
    ap (edit_remove connector) same
    ∙ edit_remove_added name connector fs gs vs named there none_yet
        (get_field-set_field "connectors" (arr (append_item vs connector)) fs)
    ∙ ap (λ (hs : Fields). ok (obj hs))
        (set_field_twice "connectors" (arr (append_item vs connector)) (arr vs) fs)
