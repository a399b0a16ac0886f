-- ===== src/Web.antt =====
-- web.rs: what the pages compute around their markup.
pub mod Pager
pub mod Controls
pub mod Form
pub mod Session
pub mod Markup
pub mod Pages
mod Tests
use Prim.Native.String
use thebalance.Prelude.{
  ℕ, suc, ◌+◌, ◌-◌, ◌*◌, ◌/◌, ◌%◌, ◌^◌, String, Bool, Option, none, some, List, [], ◌∷◌, ◌++◌, map,
  upto, min, max, ltb, leb, ◌==◌, if◌then◌else◌,
}
use thebalance.Prelude.Text.{is_empty_text, decimal, join}

-- `(first..=last).map(Some)`.
abbrev pages_between : ℕ → ℕ → List (Option ℕ)
pages_between first last_page = map some (upto first (suc last_page - first))

abbrev ellipsis_if : Bool → List (Option ℕ)
ellipsis_if b = if b then none ∷ [] else []

-- The numbers under the list; `none` is an ellipsis. `usize` has 32 bits in the worker, and its sums
-- wrap in the release build.
unfoldable pub generate_page_numbers : ℕ → ℕ → List (Option ℕ)
generate_page_numbers current_page total_pages =
    if leb total_pages 7
    then pages_between 1 total_pages
    else (let start = max (current_page - 2) 2 in
        let end = min ((current_page + 2) % 2 ^ 32) (total_pages - 1) in
        some 1 ∷ ellipsis_if (ltb 4 current_page)
        ++ (pages_between start end
            ++ (ellipsis_if (ltb current_page (total_pages - 3)) ++ some total_pages ∷ [])))

abbrev param_if : Bool → String → String → List String
param_if b name value = if b then String.◌++◌ name (String.◌++◌ "=" value) ∷ [] else []

abbrev unless_empty : String → List String → List String
unless_empty s params = if is_empty_text s then [] else params

-- The source takes the page size too, and does not use it.
unfoldable pub build_page_link : String → String → String → ℕ → String → String → String
unfolding decimal join
build_page_link provider status q page sort_by sort_order =
    let params =
      unless_empty status (String.◌++◌ "status=" status ∷ [])
      ++ unless_empty q (String.◌++◌ "q=" q ∷ [])
      ++ unless_empty sort_by
          (String.◌++◌ "sort_by=" sort_by ∷ String.◌++◌ "sort_order=" sort_order ∷ [])
      ++ (if ltb 1 page then String.◌++◌ "page=" (decimal page) ∷ [] else []) in
    String.◌++◌ "/keys/" (String.◌++◌ provider (String.◌++◌ "?" (join "&" params)))

abbrev two_units : ℕ → String → ℕ → String → String
two_units a a_unit b b_unit =
    String.◌++◌ (decimal a) (String.◌++◌ a_unit (String.◌++◌ (decimal b) b_unit))

-- The two largest units that count.
unfoldable pub format_seconds : ℕ → String
unfolding decimal
format_seconds seconds =
    let days = seconds / 86400 in
    let hours = seconds % 86400 / 3600 in
    let minutes = seconds % 3600 / 60 in
    if ltb 0 days
    then two_units days "d" hours "h"
    else if ltb 0 hours
    then two_units hours "h" minutes "m"
    else String.◌++◌ (decimal minutes) "m"

unfoldable pub format_used_time : ℕ → ℕ → String
unfolding format_seconds
format_used_time now created_at = format_seconds (now - created_at)

unfoldable pub format_cooling_time : ℕ → String
unfolding format_seconds
format_cooling_time total_seconds = if total_seconds == 0 then "-" else format_seconds total_seconds
