-- ===== src/Web/Pages.antt =====
-- The markup of web.rs, as the stream of tags and texts that `maud` writes.
pub mod Layout
pub mod Providers
pub mod Parts
pub mod Buttons
pub mod Header
pub mod Table
pub mod Fields
pub mod Exposed
pub mod Links
pub mod Home
mod Tests
use thebalance.Prelude.{ℕ, ◌^◌, String, List, [], ◌∷◌, ◌++◌}
use thebalance.Prelude.Int.{ℤ, pattern_of}
use thebalance.Storage.Model.{ApiKey}
use thebalance.Web.Session.{KeysListPage}
use thebalance.Web.Markup.{Markup, element}
use thebalance.Web.Pages.Parts.{
  build_breadcrumb, build_add_keys_form, build_model_coolings_modal, build_test_results_modal,
}
use thebalance.Web.Pages.Buttons.{pagination_markup}
use thebalance.Web.Pages.Header.{build_table_header, build_search_form}
use thebalance.Web.Pages.Table.{build_table_content, build_key_rows, build_table_footer}

-- `total as usize`, of 32 bits in the worker.
abbrev pub as_usize : ℤ → ℕ
as_usize z = pattern_of 32 z

unfoldable pub build_keys_table :
    ℕ → String → String → String → List ApiKey → ℤ → ℕ → ℕ → String → String → Markup
unfolding pattern_of
build_keys_table now provider current_status q keys total page page_size sort_by sort_order =
    element "div"
      ((
        "class",
        "glass-card bg-white/80 rounded-3xl shadow-xl border border-gray-200 overflow-hidden mb-8 max-w-5xl mx-auto backdrop-blur-xl",
      )
        ∷ [])
      (element "form" (("method", "POST") ∷ []) (
          (build_table_header provider current_status q sort_by sort_order)
          ++ ((build_table_content (build_key_rows now keys) provider current_status q sort_by
                sort_order)
              ++ (build_table_footer total (
                  pagination_markup provider current_status q page page_size (as_usize total)
                    sort_by sort_order))))
        ++ (build_search_form provider current_status))

unfoldable pub keys_list_page : ℕ → KeysListPage → Markup
keys_list_page now p =
    (build_breadcrumb p.provider)
    ++ ((build_keys_table now p.provider p.status p.q p.keys p.total p.page p.page_size p.sort_by
          p.sort_order)
        ++ ((build_add_keys_form p.provider)
            ++ (build_model_coolings_modal ++ (build_test_results_modal p.test_results))))
