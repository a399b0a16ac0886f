-- ===== src/Web/Form/Fields.antt =====
-- What the form handler reads of the posted fields.
use mathlib.Core.List.{append_assoc, append-nil}
use mathlib.Core.Path.{subst}
use thebalance.Prelude.{
  ◌≡◌, refl, sym, ap, ◌∙◌, inl, inr, String, Bool, true, false, some, List, [], ◌∷◌, ◌++◌,
  if◌then◌else◌, str_eq, eq_iff, arith, Bool-cases,
}
use thebalance.Web.Form.{KeysListForm, empty_form, read_field, read_fields}

-- The values posted under a name, in order.
unfoldable pub values_of : String → List (String × String) → List String
values_of name [] = []
values_of name ((key, value) ∷ fields) =
    let behind = values_of name fields in if str_eq key name then value ∷ behind else behind

-- The last of the values, or `first` if there is none.
abbrev pub last_or {ℓ} : {A : Type ℓ} → A → List A → A
last_or first [] = first
last_or first (x ∷ xs) = last_or x xs

read_other :
    (form : KeysListForm) (value : String) (is_action is_keys is_model : Bool)
    → (if is_action
        then record form { action = value }
        else if is_keys
        then record form { keys = some value }
        else if is_model
        then record form { model = some value }
        else form).key_id
      ≡ form.key_id ++ []
read_other form value true is_keys is_model = sym (append-nil form.key_id)
read_other form value false true is_model = sym (append-nil form.key_id)
read_other form value false false true = sym (append-nil form.key_id)
read_other form value false false false = sym (append-nil form.key_id)

abbrev id_of : Bool → String → List String
id_of is_id value = if is_id then value ∷ [] else []

read_id :
    (form : KeysListForm) (key value : String)
    → (read_field form (key, value)).key_id ≡ form.key_id ++ id_of (str_eq key "key_id[]") value
unfolding read_field
read_id form key value = elim (Bool-cases (str_eq key "key_id[]")) [
  | inl e ↦
      subst
        (λ k.
          (read_field form (k, value)).key_id ≡ form.key_id ++ id_of (str_eq k "key_id[]") value)
        (sym ((eq_iff key "key_id[]").0 e)) refl
  | inr e ↦
      rw e (read_other form value (str_eq key "action") (str_eq key "keys") (str_eq key "model"))
]

read_action :
    (form : KeysListForm) (key value : String)
    → (read_field form (key, value)).action ≡ (if str_eq key "action" then value else form.action)
unfolding read_field
read_action form key value = ground arith

ids_lem :
    (form : KeysListForm) (fields : List (String × String))
    → (read_fields form fields).key_id ≡ form.key_id ++ values_of "key_id[]" fields
unfolding read_fields values_of
ids_lem form [] = sym (append-nil form.key_id)
ids_lem form ((key, value) ∷ fields) =
    ids_lem (read_field form (key, value)) fields
    ∙ ap (λ ids. ids ++ values_of "key_id[]" fields) (read_id form key value)
    ∙ append_assoc form.key_id (id_of (str_eq key "key_id[]") value) (values_of "key_id[]" fields)
    ∙ ap (λ ids. form.key_id ++ ids) (one_more (str_eq key "key_id[]"))
  where
    one_more :
        (b : Bool)
        → id_of b value ++ values_of "key_id[]" fields
          ≡ (if b then value ∷ values_of "key_id[]" fields else values_of "key_id[]" fields)
    one_more true = refl
    one_more false = refl

action_lem :
    (form : KeysListForm) (fields : List (String × String))
    → (read_fields form fields).action ≡ last_or form.action (values_of "action" fields)
unfolding read_fields values_of
action_lem form [] = refl
action_lem form ((key, value) ∷ fields) =
    action_lem (read_field form (key, value)) fields
    ∙ ap (λ a. last_or a (values_of "action" fields)) (read_action form key value)
    ∙ one_more (str_eq key "action")
  where
    one_more :
        (b : Bool)
        → last_or (if b then value else form.action) (values_of "action" fields)
          ≡ last_or form.action
              (if b then value ∷ values_of "action" fields else values_of "action" fields)
    one_more true = refl
    one_more false = refl

-- Whatever other fields are posted around them: the ids of the form are all that were posted under
-- `key_id[]`, in order, and its action is the last that was posted, or the empty text.
read_fields-values :
    (fields : List (String × String))
    → ((read_fields empty_form fields).key_id ≡ values_of "key_id[]" fields)
      × ((read_fields empty_form fields).action ≡ last_or "" (values_of "action" fields))
read_fields-values fields = (ids_lem empty_form fields, action_lem empty_form fields)
