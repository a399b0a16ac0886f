-- ===== src/Web/Pages/Buttons.antt =====
-- The buttons of the pager.
use Prim.Native.String
use thebalance.Prelude.{ℕ, String, Option, none, some, [], ◌∷◌, ◌++◌, ◌==◌, str_eq, if◌then◌else◌}
use thebalance.Prelude.Text.{decimal}
use thebalance.Web.{build_page_link}
use thebalance.Web.Controls.{PageButton, PaginationControls, build_pagination_controls}
use thebalance.Web.Markup.{Markup, chars, element, for_each}

abbrev disabled_classes : String
disabled_classes =
    "bg-gray-200 text-gray-400 cursor-not-allowed border border-gray-300 pointer-events-none"

abbrev enabled_classes : String
enabled_classes =
    "bg-white text-gray-800 hover:bg-gray-50 border border-gray-300 hover:border-gray-400 shadow-sm"

abbrev current_classes : String
current_classes =
    "bg-blue-600 text-white shadow-lg shadow-blue-600/30 border border-blue-600 pointer-events-none"

abbrev other_classes : String
other_classes =
    "bg-white text-gray-800 hover:bg-gray-50 border border-gray-300 hover:border-gray-400 shadow-sm"

abbrev chevron : String → Markup
chevron btn_type =
    if str_eq btn_type "prev"
    then element "path"
        (("stroke-linecap", "round")
          ∷ ("stroke-linejoin", "round")
          ∷ ("stroke-width", "2")
          ∷ ("d", "M15 19l-7-7 7-7")
          ∷ [])
        []
    else element "path"
        (("stroke-linecap", "round")
          ∷ ("stroke-linejoin", "round")
          ∷ ("stroke-width", "2")
          ∷ ("d", "M9 5l7 7-7 7")
          ∷ [])
        []

unfoldable pub build_pagination_button :
    String → PageButton → String → String → String → String → String → Markup
unfolding build_page_link
build_pagination_button btn_type button provider status q sort_by sort_order =
    let icon = chevron btn_type in
    let link = build_page_link provider status q button.target_page sort_by sort_order in
    let disabled = button.disabled in
    element "a"
      (("href", (if disabled then "#" else link))
        ∷ (
          "class",
          (String.◌++◌ "p-2 rounded-lg text-sm font-medium transition-all duration-200"
              (String.◌++◌ " " (if disabled then disabled_classes else enabled_classes))),
        )
        ∷ [])
      (element "svg"
        (("class", "w-4 h-4")
          ∷ ("fill", "none")
          ∷ ("stroke", "currentColor")
          ∷ ("viewBox", "0 0 24 24")
          ∷ [])
        icon)

unfoldable pub build_page_number_button :
    ℕ → ℕ → String → String → String → String → String → Markup
unfolding build_page_link decimal
build_page_number_button page_item current_page provider status q sort_by sort_order =
    let is_current = page_item == current_page in
    let link = build_page_link provider status q page_item sort_by sort_order in
    element "a"
      (("href", (if is_current then "#" else link))
        ∷ (
          "class",
          (String.◌++◌ "px-3 py-2 rounded-lg text-sm font-medium transition-all duration-200"
              (String.◌++◌ " " (if is_current then current_classes else other_classes))),
        )
        ∷ [])
      (chars (decimal page_item) ∷ [])

abbrev pub page_item : ℕ → String → String → String → String → String → Option ℕ → Markup
page_item page provider current_status q sort_by sort_order (some page_num) =
    (build_page_number_button page_num page provider current_status q sort_by sort_order)
page_item page provider current_status q sort_by sort_order none =
    element "span" (("class", "px-3 py-2 text-sm font-medium text-gray-500") ∷ [])
      (chars "..." ∷ [])

abbrev pub controls_markup :
    ℕ → String → String → String → String → String → Option PaginationControls → Markup
controls_markup page provider current_status q sort_by sort_order none = []
controls_markup page provider current_status q sort_by sort_order (some controls) =
    (build_pagination_button "prev" controls.prev provider current_status q sort_by sort_order)
    ++ ((for_each (page_item page provider current_status q sort_by sort_order)
          controls.page_numbers)
        ++ (build_pagination_button "next" controls.next provider current_status q sort_by
            sort_order))

-- `build_pagination_controls`, with its markup.
unfoldable pub pagination_markup : String → String → String → ℕ → ℕ → ℕ → String → String → Markup
unfolding build_pagination_controls build_pagination_button build_page_number_button
pagination_markup provider current_status q page page_size total sort_by sort_order =
    controls_markup page provider current_status q sort_by sort_order
      (build_pagination_controls page page_size total)
