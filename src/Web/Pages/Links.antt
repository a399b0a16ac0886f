-- ===== src/Web/Pages/Links.antt =====
-- Where the list of keys leads, and what it writes without an escape.
use mathlib.Core.Path.{subst}
use mathlib.Core.List.{append-nil, append_assoc}
use thebalance.Prelude.{
  ℕ, zero, suc, ◌≡◌, refl, sym, inl, inr, String, Option, none, some, List, [], ◌∷◌, ◌++◌, str_eq,
  Bool-cases, All, All-append, ◌==◌,
}
use thebalance.Prelude.Int.{ℤ, pos, negsuc}
use thebalance.Storage.Model.{ApiKey}
use thebalance.Web.Form.{TestResult}
use thebalance.Web.Session.{KeysListPage}
use thebalance.Web.Controls.{PageButton, PaginationControls, build_pagination_controls}
use thebalance.Web.Markup.{Markup, for_each}
use thebalance.Web.Pages.{as_usize, build_keys_table, keys_list_page}
use thebalance.Web.Pages.Parts.{
  build_breadcrumb, build_add_keys_form, build_model_coolings_modal, build_test_results_modal,
  build_test_results_table, result_row,
}
use thebalance.Web.Pages.Buttons.{
  pagination_markup, build_pagination_button, build_page_number_button, page_item, controls_markup,
}
use thebalance.Web.Pages.Header.{
  delete_all_button, test_controls, build_status_tabs, build_table_header, build_search_form,
}
use thebalance.Web.Pages.Table.{
  sortable_th, build_table_content, build_copyable_key, build_empty_state, key_row, build_key_rows,
  build_table_footer,
}
use thebalance.Web.Pages.Exposed.{exposes, IsOwn, exposes-append, OwnAll, link-IsOwn, both}

module _ (provider : String) where
  header-Own :
      (current_status q sort_by sort_order : String)
      → OwnAll provider (build_table_header provider current_status q sort_by sort_order)
  unfolding exposes build_table_header test_controls delete_all_button build_status_tabs
  header-Own current_status q sort_by sort_order =
      let first = link-IsOwn provider "active" q 1 sort_by sort_order in
      let second = link-IsOwn provider "blocked" q 1 sort_by sort_order in
      elim (Bool-cases (str_eq provider "google-ai-studio")) [
        | inl google ↦ elim (Bool-cases (str_eq current_status "blocked")) [
          | inl b ↦ rw (google, b) (first, (second, tt))
          | inr b ↦ rw (google, b) (first, (second, tt))
        ]
        | inr other ↦ elim (Bool-cases (str_eq current_status "blocked")) [
          | inl b ↦ rw (other, b) (first, (second, tt))
          | inr b ↦ rw (other, b) (first, (second, tt))
        ]
      ]

  column-Own :
      (title sort_key status q sort_by sort_order : String)
      → OwnAll provider (sortable_th title sort_key provider status q sort_by sort_order)
  unfolding exposes sortable_th
  column-Own title sort_key status q sort_by sort_order =
      elim (Bool-cases (str_eq sort_by sort_key)) [
        | inl own ↦ elim (Bool-cases (str_eq sort_order "asc")) [
          | inl asc ↦ rw (own, asc) (link-IsOwn provider status q 1 sort_key "desc", tt)
          | inr desc ↦ rw (own, desc) (link-IsOwn provider status q 1 sort_key "asc", tt)
        ]
        | inr other ↦ rw other (link-IsOwn provider status q 1 sort_key "desc", tt)
      ]

  content-exposes :
      (key_rows : Markup) (status q sort_by sort_order : String)
      → exposes (build_table_content key_rows provider status q sort_by sort_order)
        ≡ exposes
            (sortable_th "Cooling Time" "totalCoolingSeconds" provider status q sort_by sort_order)
          ++ (exposes (sortable_th "Used Time" "createdAt" provider status q sort_by sort_order)
              ++ exposes key_rows)
  unfolding build_table_content exposes
  content-exposes key_rows status q sort_by sort_order =
      simp (exposes-append, append-nil, append_assoc)

  content-Own :
      (key_rows : Markup) (status q sort_by sort_order : String)
      → OwnAll provider key_rows
      → OwnAll provider (build_table_content key_rows provider status q sort_by sort_order)
  content-Own key_rows status q sort_by sort_order h =
      subst (All (IsOwn provider)) (sym (content-exposes key_rows status q sort_by sort_order)) (
        All-append (IsOwn provider) _ _
          (column-Own "Cooling Time" "totalCoolingSeconds" status q sort_by sort_order)
          (All-append (IsOwn provider) _ _
            (column-Own "Used Time" "createdAt" status q sort_by sort_order) h))

  rows-Own : (now : ℕ) (keys : List ApiKey) → OwnAll provider (for_each (key_row now) keys)
  unfolding exposes key_row build_copyable_key
  rows-Own now [] = tt
  rows-Own now (k ∷ keys) = rows-Own now keys

  all_rows-Own : (now : ℕ) (keys : List ApiKey) → OwnAll provider (build_key_rows now keys)
  unfolding exposes build_key_rows build_empty_state
  all_rows-Own now [] = tt
  all_rows-Own now (k ∷ keys) = rows-Own now (k ∷ keys)

  number-Own :
      (n page : ℕ) (status q sort_by sort_order : String)
      → OwnAll provider (build_page_number_button n page provider status q sort_by sort_order)
  unfolding exposes build_page_number_button
  number-Own n page status q sort_by sort_order = elim (Bool-cases (n == page)) [
    | inl current ↦ rw current (inr (inl refl), tt)
    | inr other ↦ rw other (link-IsOwn provider status q n sort_by sort_order, tt)
  ]

  items-Own :
      (page : ℕ) (status q sort_by sort_order : String) (items : List (Option ℕ))
      → OwnAll provider (for_each (page_item page provider status q sort_by sort_order) items)
  unfolding exposes
  items-Own page status q sort_by sort_order [] = tt
  items-Own page status q sort_by sort_order (some n ∷ items) =
      both provider (build_page_number_button n page provider status q sort_by sort_order) _
        (number-Own n page status q sort_by sort_order)
        (items-Own page status q sort_by sort_order items)
  items-Own page status q sort_by sort_order (none ∷ items) =
      items-Own page status q sort_by sort_order items

  button-Own :
      (btn_type : String) (button : PageButton) (status q sort_by sort_order : String)
      → OwnAll provider
          (build_pagination_button btn_type button provider status q sort_by sort_order)
  unfolding exposes build_pagination_button
  button-Own btn_type button status q sort_by sort_order =
      elim (Bool-cases (str_eq btn_type "prev")) [
        | inl prev ↦ elim (Bool-cases button.disabled) [
          | inl b ↦ rw (prev, b) (inr (inl refl), tt)
          | inr b ↦
              rw (prev, b) (link-IsOwn provider status q button.target_page sort_by sort_order, tt)
        ]
        | inr next ↦ elim (Bool-cases button.disabled) [
          | inl b ↦ rw (next, b) (inr (inl refl), tt)
          | inr b ↦
              rw (next, b) (link-IsOwn provider status q button.target_page sort_by sort_order, tt)
        ]
      ]

  controls-Own :
      (page : ℕ) (status q sort_by sort_order : String) (controls : Option PaginationControls)
      → OwnAll provider (controls_markup page provider status q sort_by sort_order controls)
  unfolding exposes
  controls-Own page status q sort_by sort_order none = tt
  controls-Own page status q sort_by sort_order (some controls) =
      let prev =
        build_pagination_button "prev" controls.prev provider status q sort_by sort_order in
      let next =
        build_pagination_button "next" controls.next provider status q sort_by sort_order in
      let numbers =
        for_each (page_item page provider status q sort_by sort_order) controls.page_numbers in
      both provider prev (numbers ++ next)
        (button-Own "prev" controls.prev status q sort_by sort_order)
        (both provider numbers next
          (items-Own page status q sort_by sort_order controls.page_numbers)
          (button-Own "next" controls.next status q sort_by sort_order))

  footer-Own :
      (total : ℤ) (controls : Markup)
      → OwnAll provider controls
      → OwnAll provider (build_table_footer total controls)
  unfolding exposes build_table_footer
  footer-Own (pos zero) controls h = tt
  footer-Own (pos (suc n)) controls h = simp (exposes-append, append-nil) h
  footer-Own (negsuc n) controls h = simp (exposes-append, append-nil) h

  result_rows-exposes : (results : List TestResult) → exposes (for_each result_row results) ≡ []
  unfolding exposes result_row
  result_rows-exposes [] = refl
  result_rows-exposes (r ∷ results) = elim (Bool-cases r.passed) [
    | inl passed ↦ rw passed (result_rows-exposes results)
    | inr refused ↦ rw refused (result_rows-exposes results)
  ]

  results-exposes :
      (results : Option (List TestResult)) → exposes (build_test_results_modal results) ≡ []
  unfolding exposes build_test_results_modal build_test_results_table
  results-exposes none = refl
  results-exposes (some results) = simp (exposes-append, result_rows-exposes)

  breadcrumb-Own : OwnAll provider (build_breadcrumb provider)
  unfolding exposes build_breadcrumb
  breadcrumb-Own = (inl refl, tt)

  search-Own : (status : String) → OwnAll provider (build_search_form provider status)
  unfolding exposes build_search_form
  search-Own status = (inr (inr (inl refl)), tt)

  add-Own : OwnAll provider (build_add_keys_form provider)
  unfolding exposes build_add_keys_form
  add-Own = (inr (inr (inl refl)), tt)

  cooling-Own : OwnAll provider build_model_coolings_modal
  unfolding exposes build_model_coolings_modal
  cooling-Own = tt

  results-Own :
      (results : Option (List TestResult)) → OwnAll provider (build_test_results_modal results)
  results-Own results = subst (All (IsOwn provider)) (sym (results-exposes results)) tt

table-exposes :
    (now : ℕ) (provider status q : String) (keys : List ApiKey) (total : ℤ) (page page_size : ℕ)
    (sort_by sort_order : String)
    → exposes (build_keys_table now provider status q keys total page page_size sort_by sort_order)
      ≡ exposes (build_table_header provider status q sort_by sort_order)
        ++ (exposes
              (build_table_content (build_key_rows now keys) provider status q sort_by sort_order)
            ++ (exposes (
                  build_table_footer total (
                    pagination_markup provider status q page page_size
                      (as_usize total)
                      sort_by
                      sort_order))
                ++ exposes (build_search_form provider status)))
unfolding exposes build_keys_table
table-exposes now provider status q keys total page page_size sort_by sort_order =
    simp (exposes-append, append-nil, append_assoc)

table-Own :
    (now : ℕ) (provider status q : String) (keys : List ApiKey) (total : ℤ) (page page_size : ℕ)
    (sort_by sort_order : String)
    → OwnAll provider
        (build_keys_table now provider status q keys total page page_size sort_by sort_order)
unfolding pagination_markup
table-Own now provider status q keys total page page_size sort_by sort_order =
    subst (All (IsOwn provider))
      (sym (table-exposes now provider status q keys total page page_size sort_by sort_order))
      (All-append (IsOwn provider) _ _ (header-Own provider status q sort_by sort_order) (
        All-append (IsOwn provider) _ _
          (content-Own provider _ status q sort_by sort_order (all_rows-Own provider now keys))
          (All-append (IsOwn provider) _ _
            (footer-Own provider total _ (
              controls-Own provider page status q sort_by sort_order
                (build_pagination_controls page page_size (as_usize total))))
            (search-Own provider status))))

page-exposes :
    (now : ℕ) (p : KeysListPage)
    → exposes (keys_list_page now p)
      ≡ exposes (build_breadcrumb p.provider)
        ++ (exposes (
              build_keys_table now p.provider p.status p.q p.keys p.total p.page p.page_size
                p.sort_by p.sort_order)
            ++ (exposes (build_add_keys_form p.provider)
                ++ (exposes build_model_coolings_modal
                    ++ exposes (build_test_results_modal p.test_results))))
unfolding keys_list_page
page-exposes now p = simp exposes-append

pub keys_list_page-IsOwn :
    (now : ℕ) (p : KeysListPage) → All (IsOwn p.provider) (exposes (keys_list_page now p))
keys_list_page-IsOwn now p = subst (All (IsOwn p.provider)) (sym (page-exposes now p)) (
    All-append (IsOwn p.provider) _ _ (breadcrumb-Own p.provider) (
      All-append (IsOwn p.provider) _ _
        (table-Own now p.provider p.status p.q p.keys p.total p.page p.page_size p.sort_by
          p.sort_order)
        (All-append (IsOwn p.provider) _ _ (add-Own p.provider) (
          All-append (IsOwn p.provider) _ _ (cooling-Own p.provider)
            (results-Own p.provider p.test_results)))))
