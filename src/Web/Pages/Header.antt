-- ===== src/Web/Pages/Header.antt =====
-- What stands over the table of keys: the tabs, the search and the buttons of the form.
use Prim.Native.String
use thebalance.Prelude.{String, Bool, List, [], ◌∷◌, ◌++◌, str_eq, if◌then◌else◌}
use thebalance.Web.{build_page_link}
use thebalance.Web.Markup.{Markup, chars, element, void, for_each}

-- A status, and the label of its tab, with a capital.
abbrev pub statuses : List (String × String)
statuses = ("active", "Active") ∷ ("blocked", "Blocked") ∷ []

abbrev tab_classes : Bool → String
tab_classes b =
    if b
    then "bg-blue-600 text-white shadow-lg shadow-blue-600/30 border border-blue-600"
    else "bg-white/80 text-gray-800 hover:bg-white border border-gray-300 hover:border-gray-400"

unfoldable pub status_tab : String → String → String → String → String → String × String → Markup
unfolding build_page_link
status_tab provider current_status q sort_by sort_order (s, label) =
    element "a"
      (("href", (build_page_link provider s q 1 sort_by sort_order))
        ∷ (
          "class",
          (String.◌++◌ "px-6 py-2.5 rounded-xl text-sm font-semibold transition-all duration-200 "
              (tab_classes (str_eq s current_status))),
        )
        ∷ [])
      (chars label ∷ [])

unfoldable pub build_status_tabs : String → String → String → String → String → Markup
unfolding status_tab
build_status_tabs provider current_status q sort_by sort_order =
    for_each (status_tab provider current_status q sort_by sort_order) statuses

unfoldable pub delete_all_button : String → Markup
delete_all_button current_status =
    if str_eq current_status "blocked"
    then element "button"
        (("type", "submit")
          ∷ ("name", "action")
          ∷ ("value", "delete-all-blocked")
          ∷ (
            "onclick",
            "return confirm('Are you sure you want to delete all blocked keys? This action cannot be undone.');",
          )
          ∷ (
            "class",
            "px-4 py-2.5 bg-red-800 hover:bg-red-900 text-white font-semibold rounded-xl text-sm transition-all duration-200 hover:shadow-lg hover:shadow-red-800/25 hover:-translate-y-0.5 border border-red-800",
          )
          ∷ [])
        (chars "Delete ALL" ∷ [])
    else []

unfoldable pub test_controls : String → Markup
test_controls provider =
    if str_eq provider "google-ai-studio"
    then element "div" (("class", "flex items-center gap-2") ∷ []) (
        element "div" (("class", "relative") ∷ []) (
          void "input" (
            ("type", "text")
            ∷ ("name", "model")
            ∷ ("value", "gemini-2.5-pro")
            ∷ ("placeholder", "Test Model")
            ∷ (
              "class",
              "input-field w-48 pr-4 py-2.5 bg-white border border-gray-300 rounded-xl text-gray-900 placeholder-gray-500 focus:outline-none text-sm shadow-sm",
            )
            ∷ []))
        ++ element "button"
            (("type", "submit")
              ∷ ("name", "action")
              ∷ ("value", "test")
              ∷ (
                "class",
                "px-4 py-2.5 bg-blue-600 hover:bg-blue-700 text-white font-semibold rounded-xl text-sm transition-all duration-200 hover:shadow-lg hover:shadow-blue-600/25 hover:-translate-y-0.5 border border-blue-600",
              )
              ∷ [])
            (chars "Test Selected" ∷ []))
    else element "button"
        (("type", "button")
          ∷ ("disabled", "")
          ∷ ("title", "Testing is only enabled for google-ai-studio currently")
          ∷ (
            "class",
            "px-4 py-2.5 bg-gray-400 text-white font-semibold rounded-xl text-sm cursor-not-allowed border border-gray-400",
          )
          ∷ [])
        (chars "Test Selected" ∷ [])

unfoldable pub build_table_header : String → String → String → String → String → Markup
unfolding build_status_tabs delete_all_button test_controls
build_table_header provider current_status q sort_by sort_order =
    element "div" (("class", "p-6 border-b border-gray-200/60 bg-white/30 backdrop-blur-sm") ∷ []) (
      element "div"
        (("class", "flex flex-col lg:flex-row lg:items-center lg:justify-between gap-4") ∷ [])
        (element "div"
            (("class", "flex flex-col sm:flex-row items-start sm:items-center gap-4") ∷ [])
            (element "div" (("class", "flex gap-2") ∷ [])
                (build_status_tabs provider current_status q sort_by sort_order)
              ++ element "div" (("class", "flex items-center") ∷ []) (
                  element "div" (("class", "relative") ∷ []) (
                    element "svg"
                      ((
                        "class",
                        "absolute left-3 top-1/2 transform -translate-y-1/2 w-4 h-4 text-gray-500",
                      )
                        ∷ ("fill", "none")
                        ∷ ("stroke", "currentColor")
                        ∷ ("viewBox", "0 0 24 24")
                        ∷ [])
                      (element "path"
                        (("stroke-linecap", "round")
                          ∷ ("stroke-linejoin", "round")
                          ∷ ("stroke-width", "2")
                          ∷ ("d", "M21 21l-6-6m2-5a7 7 0 11-14 0 7 7 0 0114 0z")
                          ∷ [])
                        [])
                    ++ void "input" (
                        ("form", "search-form")
                        ∷ ("type", "search")
                        ∷ ("name", "q")
                        ∷ ("value", q)
                        ∷ ("placeholder", "Search keys...")
                        ∷ (
                          "class",
                          "input-field w-64 pl-10 pr-4 py-2.5 bg-white border border-gray-300 rounded-xl text-gray-900 placeholder-gray-500 focus:outline-none text-sm shadow-sm",
                        )
                        ∷ []))))
          ++ element "div" (("class", "flex items-center gap-2") ∷ []) (
              (test_controls provider)
              ++ (element "button"
                    (("type", "submit")
                      ∷ ("name", "action")
                      ∷ ("value", "delete")
                      ∷ (
                        "class",
                        "px-4 py-2.5 bg-red-600 hover:bg-red-700 text-white font-semibold rounded-xl text-sm transition-all duration-200 hover:shadow-lg hover:shadow-red-600/25 hover:-translate-y-0.5 border border-red-600",
                      )
                      ∷ [])
                    (chars "Delete Selected" ∷ [])
                  ++ (delete_all_button current_status)))))

unfoldable pub build_search_form : String → String → Markup
build_search_form provider current_status =
    element "form"
      (("id", "search-form")
        ∷ ("method", "GET")
        ∷ ("action", (String.◌++◌ "/keys/" provider))
        ∷ ("class", "hidden")
        ∷ [])
      (void "input" (("type", "hidden") ∷ ("name", "status") ∷ ("value", current_status) ∷ []))
