-- ===== src/Web/Pages/Table.antt =====
-- The table of keys: its columns, its rows and its footer.
use Prim.Native.String
use thebalance.Prelude.{
  ℕ, zero, suc, String, Bool, true, false, not, List, [], ◌∷◌, ◌++◌, if◌then◌else◌,
}
use thebalance.Prelude.Int.{ℤ, pos, negsuc}
use thebalance.Prelude.Text.{decimal, is_empty_text}
use thebalance.Storage.Model.{ApiKey}
use thebalance.Web.{build_page_link, format_used_time, format_cooling_time}
use thebalance.Web.Controls.{sort_toggle}
use thebalance.Web.Markup.{Markup, chars, element, void, for_each}

unfoldable pub sortable_th : String → String → String → String → String → String → String → Markup
unfolding sort_toggle build_page_link
sortable_th title sort_key provider status q sort_by sort_order =
    let (new_sort_order, icon) = sort_toggle sort_key sort_by sort_order in
    element "th"
      (("class", "p-4 text-left font-semibold text-slate-800 text-sm tracking-wide") ∷ [])
      (element "a"
        (("href", (build_page_link provider status q 1 sort_key new_sort_order))
          ∷ ("class", "flex items-center gap-1 hover:text-blue-600 transition-colors")
          ∷ [])
        (chars title ∷ []
          ++ (if not (is_empty_text icon)
              then element "span" (("class", "text-blue-600") ∷ []) (chars icon ∷ [])
              else [])))

unfoldable pub build_table_content : Markup → String → String → String → String → String → Markup
build_table_content key_rows provider current_status q sort_by sort_order =
    element "div" (("class", "overflow-x-auto") ∷ []) (
      element "table" (("class", "w-full table-fixed") ∷ []) (
        element "colgroup" [] (
          void "col" (("class", "w-12") ∷ [])
          ++ (void "col" (("class", "w-80") ∷ [])
              ++ (void "col" (("class", "w-32") ∷ []) ++ void "col" (("class", "w-24") ∷ []))))
        ++ (element "thead" [] (
              element "tr"
                ((
                  "class",
                  "bg-gradient-to-r from-slate-100/90 to-gray-100/90 border-b border-gray-400/80 backdrop-blur-sm",
                )
                  ∷ [])
                (element "th" (("class", "p-4 text-left") ∷ []) (
                    void "input" (
                      ("type", "checkbox")
                      ∷ (
                        "onchange",
                        "document.querySelectorAll('[name=\"key_id[]\"]').forEach(c => c.checked = this.checked)",
                      )
                      ∷ (
                        "class",
                        "h-4 w-4 text-blue-600 bg-white border-gray-500 rounded focus:ring-blue-500 transition-colors backdrop-blur-sm",
                      )
                      ∷ []))
                  ++ (element "th"
                        ((
                          "class",
                          "p-4 text-left font-semibold text-slate-800 text-sm tracking-wide",
                        )
                          ∷ [])
                        (chars "API Key" ∷ [])
                      ++ ((sortable_th "Cooling Time" "totalCoolingSeconds" provider current_status
                            q sort_by sort_order)
                          ++ (sortable_th "Used Time" "createdAt" provider current_status q sort_by
                              sort_order)))))
            ++ element "tbody" (("class", "divide-y divide-gray-300/60") ∷ []) key_rows)))

unfoldable pub build_copyable_key : String → Markup
build_copyable_key key = element "div" (("class", "relative inline-block") ∷ []) (
    element "code"
      ((
        "class",
        "px-3 py-2 bg-slate-200/80 border border-slate-300/70 rounded-lg text-sm font-mono text-slate-900 cursor-pointer hover:bg-slate-300/80 hover:border-slate-400/70 transition-all duration-200 inline-block truncate max-w-full group-hover:shadow-sm backdrop-blur-sm",
      )
        ∷ ("onclick", (String.◌++◌ "copyToClipboard('" (String.◌++◌ key "', this)")))
        ∷ ("title", "Click to copy")
        ∷ [])
      (chars key ∷ [])
    ++ element "div"
        ((
          "class",
          "absolute -top-8 left-1/2 transform -translate-x-1/2 bg-emerald-700 text-white text-xs px-2 py-1 rounded opacity-0 pointer-events-none transition-opacity duration-300 whitespace-nowrap copy-tooltip backdrop-blur-sm",
        )
          ∷ [])
        (chars "Copied!" ∷ []))

unfoldable pub build_empty_state : Markup
build_empty_state = element "tr" [] (
    element "td"
      (("colspan", "4")
        ∷ ("class", "text-center p-12 text-gray-700 bg-slate-100/40 backdrop-blur-sm")
        ∷ [])
      (element "div" (("class", "flex flex-col items-center gap-3") ∷ []) (
        element "svg"
          (("class", "w-12 h-12 text-gray-500")
            ∷ ("fill", "none")
            ∷ ("stroke", "currentColor")
            ∷ ("viewBox", "0 0 24 24")
            ∷ [])
          (element "path"
            (("stroke-linecap", "round")
              ∷ ("stroke-linejoin", "round")
              ∷ ("stroke-width", "2")
              ∷ (
                "d",
                "M20 13V6a2 2 0 00-2-2H6a2 2 0 00-2 2v7m16 0v5a2 2 0 01-2 2H6a2 2 0 01-2-2v-5m16 0h-2.586a1 1 0 00-.707.293l-2.414 2.414a1 1 0 01-.707.293h-3.172a1 1 0 01-.707-.293l-2.414-2.414A1 1 0 006.586 13H4",
              )
              ∷ [])
            [])
        ++ element "p" (("class", "font-medium") ∷ []) (chars "No keys found" ∷ []))))

unfoldable pub key_row : ℕ → ApiKey → Markup
unfolding build_copyable_key format_cooling_time format_used_time
key_row now k =
    element "tr"
      ((
        "class",
        "group hover:bg-blue-100/60 even:bg-slate-100/40 odd:bg-white/60 transition-all duration-300 hover:shadow-md backdrop-blur-sm border-b border-gray-300/50",
      )
        ∷ [])
      (element "td" (("class", "p-4") ∷ []) (
          void "input" (
            ("type", "checkbox")
            ∷ ("name", "key_id[]")
            ∷ ("value", k.id)
            ∷ (
              "class",
              "h-4 w-4 text-blue-600 bg-white border-gray-500 rounded focus:ring-blue-500 focus:ring-2 transition-colors backdrop-blur-sm",
            )
            ∷ []))
        ++ (element "td" (("class", "p-4") ∷ []) (build_copyable_key k.key)
            ++ (element "td" (("class", "p-4") ∷ []) (
                  element "span"
                    ((
                      "class",
                      "text-sm text-slate-800 cursor-pointer hover:text-blue-700 transition-colors duration-200 font-medium px-2 py-1 rounded-md hover:bg-blue-100/80 backdrop-blur-sm",
                    )
                      ∷ ("title", "Click to view model cooling details")
                      ∷ (
                        "onclick",
                        (String.◌++◌ "showModelCoolings('"
                            (String.◌++◌ k.id (String.◌++◌ "', '" (String.◌++◌ k.key "')")))),
                      )
                      ∷ [])
                    (chars (format_cooling_time k.total_cooling_seconds) ∷ []))
                ++ element "td" (("class", "p-4 text-sm text-slate-700 font-medium") ∷ [])
                    (chars (format_used_time now k.created_at) ∷ []))))

-- `now` is the clock in seconds.
unfoldable pub build_key_rows : ℕ → List ApiKey → Markup
unfolding build_empty_state key_row
build_key_rows now [] = build_empty_state
build_key_rows now (k ∷ keys) = for_each (key_row now) (k ∷ keys)

abbrev int_text : ℤ → String
int_text (pos n) = decimal n
int_text (negsuc n) = String.◌++◌ "-" (decimal (suc n))

abbrev is_zero : ℤ → Bool
is_zero (pos zero) = true
is_zero z = false

unfoldable pub build_table_footer : ℤ → Markup → Markup
unfolding decimal
build_table_footer total pagination_controls =
    if is_zero total
    then []
    else element "div"
        ((
          "class",
          "flex justify-center items-center p-6 border-t border-gray-300/80 bg-gray-100/60 backdrop-blur-sm",
        )
          ∷ [])
        (element "div"
          ((
            "class",
            "flex items-center gap-2 p-3 bg-white/90 rounded-xl border border-gray-300/80 shadow-sm backdrop-blur-sm",
          )
            ∷ [])
          (pagination_controls
            ++ (element "div" (("class", "h-6 w-px bg-gray-300/80") ∷ []) []
                ++ element "div" (("class", "px-3 text-gray-600 text-sm font-semibold") ∷ [])
                    (chars (int_text total) ∷ []))))
