-- ===== src/Web/Pages/Fields.antt =====
-- The forms of the list of keys and their controls.
use Prim.Native.String
use mathlib.Core.List.{append-nil, append_assoc}
use thebalance.Prelude.{
  ℕ, zero, suc, ◌≡◌, refl, sym, ap, ◌∙◌, inl, inr, String, Option, none, some, List, [], ◌∷◌, ◌++◌,
  map, str_eq, Bool-cases, if◌then◌else◌,
}
use thebalance.Prelude.Int.{ℤ, pos, negsuc}
use thebalance.Prelude.Assoc.{Assoc, lookup}
use thebalance.Storage.Model.{ApiKey}
use thebalance.Web.Form.{TestResult}
use thebalance.Web.Session.{KeysListPage}
use thebalance.Web.Controls.{PageButton, PaginationControls, build_pagination_controls}
use thebalance.Web.Markup.{Token, Markup, open_tag, close_tag, chars, raw, for_each}
use thebalance.Web.Pages.{build_keys_table, keys_list_page}
use thebalance.Web.Pages.Parts.{
  build_breadcrumb, build_add_keys_form, build_model_coolings_modal, build_test_results_modal,
  build_test_results_table, result_row,
}
use thebalance.Web.Pages.Buttons.{
  pagination_markup, build_pagination_button, build_page_number_button, page_item, controls_markup,
}
use thebalance.Web.Pages.Header.{
  delete_all_button, test_controls, build_status_tabs, build_table_header, build_search_form,
}
use thebalance.Web.Pages.Table.{
  sortable_th, build_table_content, build_copyable_key, key_row, build_key_rows, build_table_footer,
}

-- What a form is made of, in the order of the page: where it begins, with its method (`get` where
-- none is given), the address that it asks (empty: the page's own) and its id; where it ends; and the
-- controls, each with the id of the form that it names, its kind, its name, its value, and
-- the address that it asks instead of the form's; empty where there is none.
pub data Control : Type 0 where
  form_opens : (method action id : String) → Control
  form_closes : Control
  control : (form kind name value formaction : String) → Control

abbrev or_text : Option String → String → String
or_text none text = text
or_text (some found) text = found

abbrev control_with : String → Assoc String → Control
control_with kind attributes =
    control (or_text (lookup "form" attributes) "") kind (or_text (lookup "name" attributes) "")
      (or_text (lookup "value" attributes) "") (or_text (lookup "formaction" attributes) "")

-- An `input` is a text field and a `button` submits, if their type says nothing else.
abbrev control_of : Token → List Control
control_of (open_tag tag attributes) =
    if str_eq tag "form"
    then form_opens (or_text (lookup "method" attributes) "get")
        (or_text (lookup "action" attributes) "") (or_text (lookup "id" attributes) "")
      ∷ []
    else if str_eq tag "input"
    then control_with (or_text (lookup "type" attributes) "text") attributes ∷ []
    else if str_eq tag "button"
    then control_with (or_text (lookup "type" attributes) "submit") attributes ∷ []
    else if str_eq tag "textarea"
    then control_with "textarea" attributes ∷ []
    else []
control_of (close_tag tag) = if str_eq tag "form" then form_closes ∷ [] else []
control_of (chars s) = []
control_of (raw s) = []

unfoldable pub controls : Markup → List Control
unfolding lookup
controls [] = []
controls (t ∷ page) = control_of t ++ controls page

controls-append : (xs ys : Markup) → controls (xs ++ ys) ≡ controls xs ++ controls ys
unfolding controls
controls-append [] ys = refl
controls-append (t ∷ xs) ys =
    ap (λ rest. control_of t ++ rest) (controls-append xs ys)
    ∙ sym (append_assoc (control_of t) (controls xs) (controls ys))

-- The checkbox of a row.
abbrev pub checkbox : ApiKey → Control
checkbox k = control "" "checkbox" "key_id[]" k.id ""

abbrev submit : String → Control
submit action = control "" "submit" "action" action ""

key_row-controls : (now : ℕ) (k : ApiKey) → controls (key_row now k) ≡ checkbox k ∷ []
unfolding controls key_row build_copyable_key
key_row-controls now k = refl

tabs-controls :
    (provider current_status q sort_by sort_order : String)
    → controls (build_status_tabs provider current_status q sort_by sort_order) ≡ []
unfolding controls build_status_tabs
tabs-controls provider current_status q sort_by sort_order = refl

-- The controls over the table.
abbrev pub over_table : String → String → String → List Control
over_table provider status q =
    control "search-form" "search" "q" q ""
    ∷ ((if str_eq provider "google-ai-studio"
          then control "" "text" "model" "gemini-2.5-pro" "" ∷ submit "test" ∷ []
          else control "" "button" "" "" "" ∷ [])
        ++ submit "delete"
          ∷ (if str_eq status "blocked" then submit "delete-all-blocked" ∷ [] else []))

header-controls :
    (provider current_status q sort_by sort_order : String)
    → controls (build_table_header provider current_status q sort_by sort_order)
      ≡ over_table provider current_status q
unfolding controls build_table_header test_controls delete_all_button build_status_tabs
header-controls provider current_status q sort_by sort_order =
    elim (Bool-cases (str_eq provider "google-ai-studio")) [
      | inl google ↦ elim (Bool-cases (str_eq current_status "blocked")) [
        | inl b ↦ rw (google, b) refl
        | inr b ↦ rw (google, b) refl
      ]
      | inr other ↦ elim (Bool-cases (str_eq current_status "blocked")) [
        | inl b ↦ rw (other, b) refl
        | inr b ↦ rw (other, b) refl
      ]
    ]

column-controls :
    (title sort_key provider status q sort_by sort_order : String)
    → controls (sortable_th title sort_key provider status q sort_by sort_order) ≡ []
unfolding controls sortable_th
column-controls title sort_key provider status q sort_by sort_order =
    elim (Bool-cases (str_eq sort_by sort_key)) [
      | inl own ↦ elim (Bool-cases (str_eq sort_order "asc")) [
        | inl asc ↦ rw (own, asc) refl
        | inr desc ↦ rw (own, desc) refl
      ]
      | inr other ↦ rw other refl
    ]

-- The checkbox over the column of checkboxes has no name.
abbrev pub all_box : Control
all_box = control "" "checkbox" "" "" ""

content-controls :
    (key_rows : Markup) (provider current_status q sort_by sort_order : String)
    → controls (build_table_content key_rows provider current_status q sort_by sort_order)
      ≡ all_box ∷ controls key_rows
unfolding build_table_content controls
content-controls key_rows provider current_status q sort_by sort_order =
    simp (controls-append, column-controls, append-nil)

rows-controls :
    (now : ℕ) (keys : List ApiKey) → controls (for_each (key_row now) keys) ≡ map checkbox keys
unfolding controls
rows-controls now [] = refl
rows-controls now (k ∷ keys) =
    let rest = rows-controls now keys in
    let own = key_row-controls now k in
    controls-append (key_row now k) (for_each (key_row now) keys) ∙ cc

all_rows-controls :
    (now : ℕ) (keys : List ApiKey) → controls (build_key_rows now keys) ≡ map checkbox keys
unfolding controls build_key_rows
all_rows-controls now [] = refl
all_rows-controls now (k ∷ keys) = rows-controls now (k ∷ keys)

item-controls :
    (page : ℕ) (provider current_status q sort_by sort_order : String) (items : List (Option ℕ))
    → controls (for_each (page_item page provider current_status q sort_by sort_order) items) ≡ []
unfolding controls build_page_number_button
item-controls page provider current_status q sort_by sort_order [] = refl
item-controls page provider current_status q sort_by sort_order (some n ∷ items) =
    item-controls page provider current_status q sort_by sort_order items
item-controls page provider current_status q sort_by sort_order (none ∷ items) =
    item-controls page provider current_status q sort_by sort_order items

button-controls :
    (btn_type : String) (button : PageButton) (provider status q sort_by sort_order : String)
    → controls (build_pagination_button btn_type button provider status q sort_by sort_order) ≡ []
unfolding controls build_pagination_button
button-controls btn_type button provider status q sort_by sort_order =
    elim (Bool-cases (str_eq btn_type "prev")) [ inl prev ↦ rw prev refl | inr next ↦ rw next refl ]

pager-controls :
    (page : ℕ) (provider current_status q sort_by sort_order : String)
    (pager : Option PaginationControls)
    → controls (controls_markup page provider current_status q sort_by sort_order pager) ≡ []
unfolding controls
pager-controls page provider current_status q sort_by sort_order none = refl
pager-controls page provider current_status q sort_by sort_order (some pager) =
    simp (controls-append, button-controls, item-controls)

footer-controls :
    (total : ℤ) (pager : Markup)
    → controls pager ≡ []
    → controls (build_table_footer total pager) ≡ []
unfolding controls build_table_footer
footer-controls (pos zero) pager h = refl
footer-controls (pos (suc n)) pager h = simp (controls-append, h)
footer-controls (negsuc n) pager h = simp (controls-append, h)

result_rows-controls : (results : List TestResult) → controls (for_each result_row results) ≡ []
unfolding controls result_row
result_rows-controls [] = refl
result_rows-controls (r ∷ results) = elim (Bool-cases r.passed) [
  | inl passed ↦ rw passed (result_rows-controls results)
  | inr refused ↦ rw refused (result_rows-controls results)
]

-- The button that closes a dialog.
abbrev pub close_button : Control
close_button = control "" "submit" "" "" ""

results-controls :
    (results : Option (List TestResult))
    → controls (build_test_results_modal results) ≡ close_button ∷ []
unfolding controls build_test_results_modal build_test_results_table
results-controls none = refl
results-controls (some results) = simp (controls-append, result_rows-controls)

last-controls :
    (total : ℤ) (provider status q : String) (page page_size size : ℕ) (sort_by sort_order : String)
    → controls (
        build_table_footer total
          (pagination_markup provider status q page page_size size sort_by sort_order))
      ≡ []
unfolding pagination_markup
last-controls total provider status q page page_size size sort_by sort_order =
    footer-controls total _ (
      pager-controls page provider status q sort_by sort_order
        (build_pagination_controls page page_size size))

table-controls :
    (now : ℕ) (provider status q : String) (keys : List ApiKey) (total : ℤ) (page page_size : ℕ)
    (sort_by sort_order : String)
    → controls (build_keys_table now provider status q keys total page page_size sort_by sort_order)
      ≡ form_opens "POST" "" ""
        ∷ (over_table provider status q
            ++ all_box
              ∷ (map checkbox keys
                  ++ form_closes
                    ∷ form_opens "GET" (String.◌++◌ "/keys/" provider) "search-form"
                    ∷ control "" "hidden" "status" status ""
                    ∷ form_closes
                    ∷ []))
unfolding controls build_keys_table build_search_form
table-controls now provider status q keys total page page_size sort_by sort_order = simp (
  controls-append, header-controls, content-controls, all_rows-controls, last-controls, append-nil,
  append_assoc,
)

-- What the page of the keys can send, and where. One form posts to the page's own address: it has the
-- model and the test where the provider is the one whose keys the handler tests, a button without
-- effect where not; the deletion of the chosen keys, that of all blocked ones where these are shown;
-- and for each key shown, in order, a checkbox with its id. A second form asks for the page with the
-- status and, from the control over the table that names it, the text of the search. A third posts the
-- new keys with their action to the page of the provider. The buttons that close the dialogs stand
-- outside of the forms.
pub keys_list_page-controls :
    (now : ℕ) (p : KeysListPage)
    → controls (keys_list_page now p)
      ≡ form_opens "POST" "" ""
        ∷ (over_table p.provider p.status p.q
            ++ all_box
              ∷ (map checkbox p.keys
                  ++ form_closes
                    ∷ form_opens "GET" (String.◌++◌ "/keys/" p.provider) "search-form"
                    ∷ control "" "hidden" "status" p.status ""
                    ∷ form_closes
                    ∷ form_opens "POST" "" ""
                    ∷ control "" "hidden" "action" "add" ""
                    ∷ control "" "textarea" "keys" "" ""
                    ∷ control "" "submit" "" "" (String.◌++◌ "/keys/" p.provider)
                    ∷ form_closes
                    ∷ close_button
                    ∷ close_button
                    ∷ []))
unfolding controls build_breadcrumb build_add_keys_form build_model_coolings_modal keys_list_page
keys_list_page-controls now p =
    simp (controls-append, table-controls, results-controls, append_assoc)
