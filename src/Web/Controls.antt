-- ===== src/Web/Controls.antt =====
-- The controls under and over the list of keys: build_pagination_controls and sortable_th of web.rs,
-- without their markup.
pub mod Cover
use thebalance.Prelude.{
  ℕ, ◌+◌, ◌-◌, ◌/◌, ◌%◌, ◌^◌, String, Bool, Option, none, some, List, min, leb, str_eq,
  if◌then◌else◌,
}
use thebalance.Web.{generate_page_numbers, build_page_link}

-- `(total as f64 / page_size as f64).ceil()`, which is exact for numbers of 32 bits.
unfoldable pub num_pages : ℕ → ℕ → ℕ
num_pages total page_size = (total + page_size - 1) / page_size

-- A button: the page that it leads to, and whether it is disabled.
pub record PageButton : Type 0 where
  pub target_page : ℕ
  pub disabled : Bool

pub record PaginationControls : Type 0 where
  pub prev : PageButton
  pub page_numbers : List (Option ℕ)
  pub next : PageButton

unfoldable pub build_pagination_controls : ℕ → ℕ → ℕ → Option PaginationControls
unfolding num_pages generate_page_numbers
build_pagination_controls page page_size total =
    let pages = num_pages total page_size in
    if leb pages 1
    then none
    else some (record {
      prev = record { target_page = page - 1; disabled = leb page 1 };
      page_numbers = generate_page_numbers page pages;
      next = record { target_page = min ((page + 1) % 2 ^ 32) pages; disabled = leb pages page };
    })

-- The order that a click on a column asks for, and the mark that the column shows.
unfoldable pub sort_toggle : String → String → String → String × String
sort_toggle sort_key sort_by sort_order =
    if str_eq sort_by sort_key
    then (if str_eq sort_order "asc" then ("desc", "▲") else ("asc", "▼"))
    else ("desc", "")

unfoldable pub sortable_link : String → String → String → String → String → String → String
unfolding sort_toggle build_page_link
sortable_link sort_key provider status q sort_by sort_order =
    build_page_link provider status q 1 sort_key (sort_toggle sort_key sort_by sort_order).0
