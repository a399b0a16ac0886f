-- ===== src/Web/Pages/Parts.antt =====
-- What stands around the table: the way back, the form for new keys and the two dialogs.
use Prim.Native.String
use thebalance.Prelude.{String, Option, none, some, List, [], ◌∷◌, ◌++◌, if◌then◌else◌}
use thebalance.Web.Form.{TestResult}
use thebalance.Web.Markup.{Markup, chars, element, void, for_each}

unfoldable pub build_breadcrumb : String → Markup
build_breadcrumb provider = element "div" (("class", "mb-8") ∷ []) (
    element "nav" (("class", "flex items-center space-x-2 text-sm text-gray-600 mb-4") ∷ []) (
      element "a"
        (("href", "/")
          ∷ ("class", "hover:text-blue-600 transition-colors duration-200 font-medium")
          ∷ [])
        (chars "Providers" ∷ [])
      ++ (element "svg"
            (("class", "w-4 h-4")
              ∷ ("fill", "none")
              ∷ ("stroke", "currentColor")
              ∷ ("viewBox", "0 0 24 24")
              ∷ [])
            (element "path"
              (("stroke-linecap", "round")
                ∷ ("stroke-linejoin", "round")
                ∷ ("stroke-width", "2")
                ∷ ("d", "M9 5l7 7-7 7")
                ∷ [])
              [])
          ++ element "span" (("class", "text-gray-900 font-semibold") ∷ []) (chars provider ∷ []))))

-- The source takes the status, the search, the page and the order too, and does not use them.
unfoldable pub build_add_keys_form : String → Markup
build_add_keys_form provider =
    element "div"
      ((
        "class",
        "glass-card bg-white/80 rounded-3xl shadow-xl p-6 border border-gray-200 max-w-5xl mx-auto",
      )
        ∷ [])
      (element "div" (("class", "flex items-center gap-3 mb-6") ∷ []) (
          element "div" (("class", "p-2 bg-blue-100 rounded-xl border border-blue-200") ∷ []) (
            element "svg"
              (("class", "w-5 h-5 text-blue-700")
                ∷ ("fill", "none")
                ∷ ("stroke", "currentColor")
                ∷ ("viewBox", "0 0 24 24")
                ∷ [])
              (element "path"
                (("stroke-linecap", "round")
                  ∷ ("stroke-linejoin", "round")
                  ∷ ("stroke-width", "2")
                  ∷ ("d", "M12 6v6m0 0v6m0-6h6m-6 0H6")
                  ∷ [])
                []))
          ++ element "h2" (("class", "text-xl font-bold text-gray-900") ∷ [])
              (chars "Add New Keys" ∷ []))
        ++ element "form" (("method", "POST") ∷ []) (
            void "input" (("type", "hidden") ∷ ("name", "action") ∷ ("value", "add") ∷ [])
            ++ (element "div" (("class", "mb-6") ∷ []) (
                  element "label" (("class", "block text-gray-800 text-sm font-semibold mb-3") ∷ [])
                    (chars "API Keys" ∷ [])
                  ++ element "textarea"
                      (("name", "keys")
                        ∷ (
                          "class",
                          "input-field w-full p-4 bg-white border border-gray-300 rounded-xl text-gray-900 placeholder-gray-500 focus:outline-none font-mono text-sm resize-none shadow-sm",
                        )
                        ∷ ("rows", "4")
                        ∷ ("placeholder", "Enter API keys, one per line or separated by commas")
                        ∷ [])
                      [])
                ++ element "div" (("class", "flex justify-end") ∷ []) (
                    element "button"
                      (("type", "submit")
                        ∷ ("formaction", (String.◌++◌ "/keys/" provider))
                        ∷ (
                          "class",
                          "btn-primary px-6 py-3 text-white font-semibold rounded-xl focus:outline-none focus:ring-4 focus:ring-blue-200",
                        )
                        ∷ [])
                      (chars "Add Keys" ∷ [])))))

unfoldable pub build_model_coolings_modal : Markup
build_model_coolings_modal =
    element "div"
      (("id", "modelCoolingsModal")
        ∷ (
          "class",
          "fixed inset-0 bg-black bg-opacity-50 backdrop-blur-sm hidden items-center justify-center z-50",
        )
        ∷ ("onclick", "closeModal(event)")
        ∷ [])
      (element "div"
        ((
          "class",
          "glass-card bg-white rounded-3xl shadow-2xl border border-gray-200 max-w-2xl w-full mx-6 max-h-[80vh] overflow-hidden",
        )
          ∷ ("onclick", "event.stopPropagation()")
          ∷ [])
        (element "div" (("class", "p-6 border-b border-gray-200 bg-white/80") ∷ []) (
            element "div" (("class", "flex items-center justify-between") ∷ []) (
              element "h3" (("class", "text-xl font-bold text-gray-900") ∷ [])
                (chars "Model Cooling Details" ∷ [])
              ++ element "button"
                  (("onclick", "closeModal()")
                    ∷ ("class", "p-2 hover:bg-gray-100 rounded-lg transition-colors duration-200")
                    ∷ [])
                  (element "svg"
                    (("class", "w-5 h-5 text-gray-500")
                      ∷ ("fill", "none")
                      ∷ ("stroke", "currentColor")
                      ∷ ("viewBox", "0 0 24 24")
                      ∷ [])
                    (element "path"
                      (("stroke-linecap", "round")
                        ∷ ("stroke-linejoin", "round")
                        ∷ ("stroke-width", "2")
                        ∷ ("d", "M6 18L18 6M6 6l12 12")
                        ∷ [])
                      [])))
            ++ element "p" (("class", "text-sm text-gray-600 mt-2") ∷ []) (
                chars "Key: " ∷ []
                ++ element "span" (("id", "modalKeyName") ∷ ("class", "font-mono") ∷ []) []))
          ++ element "div" (("class", "p-6 overflow-y-auto max-h-96") ∷ [])
              (element "div" (("id", "modelCoolingsTable") ∷ []) [])))

unfoldable pub result_row : TestResult → Markup
result_row result = element "tr" (("class", "border-b border-gray-200") ∷ []) (
    element "td" (("class", "p-4 font-mono text-sm") ∷ []) (chars result.key ∷ [])
    ++ (element "td" (("class", "p-4") ∷ []) (
          if result.passed
          then element "span"
              (("class", "px-3 py-1 bg-green-100 text-green-800 text-xs font-semibold rounded-full")
                ∷ [])
              (chars "Passed" ∷ [])
          else element "span"
              (("class", "px-3 py-1 bg-red-100 text-red-800 text-xs font-semibold rounded-full")
                ∷ [])
              (chars "Failed" ∷ []))
        ++ element "td" (("class", "p-4 text-sm text-gray-600") ∷ []) (chars result.details ∷ [])))

unfoldable pub build_test_results_table : List TestResult → Markup
unfolding result_row
build_test_results_table results = element "table" (("class", "w-full text-left") ∷ []) (
    element "thead" [] (
      element "tr" (("class", "border-b border-gray-300") ∷ []) (
        element "th" (("class", "p-4 font-semibold") ∷ []) (chars "Key" ∷ [])
        ++ (element "th" (("class", "p-4 font-semibold") ∷ []) (chars "Status" ∷ [])
            ++ element "th" (("class", "p-4 font-semibold") ∷ []) (chars "Details" ∷ []))))
    ++ element "tbody" [] ((for_each result_row results)))

abbrev modal : String → Markup → Markup
modal hidden_class results_table =
    element "div"
      (("id", "testResultsModal")
        ∷ (
          "class",
          (String.◌++◌
              "fixed inset-0 bg-black bg-opacity-50 backdrop-blur-sm flex items-center justify-center z-50 "
              hidden_class),
        )
        ∷ ("onclick", "closeTestResultsModal(event)")
        ∷ [])
      (element "div"
        ((
          "class",
          "glass-card bg-white rounded-3xl shadow-2xl border border-gray-200 max-w-4xl w-full mx-6 max-h-[80vh] overflow-hidden",
        )
          ∷ ("onclick", "event.stopPropagation()")
          ∷ [])
        (element "div" (("class", "p-6 border-b border-gray-200 bg-white/80") ∷ []) (
            element "div" (("class", "flex items-center justify-between") ∷ []) (
              element "h3" (("class", "text-xl font-bold text-gray-900") ∷ [])
                (chars "Test Results" ∷ [])
              ++ element "button"
                  (("onclick", "closeTestResultsModal()")
                    ∷ ("class", "p-2 hover:bg-gray-100 rounded-lg transition-colors duration-200")
                    ∷ [])
                  (element "svg"
                    (("class", "w-5 h-5 text-gray-500")
                      ∷ ("fill", "none")
                      ∷ ("stroke", "currentColor")
                      ∷ ("viewBox", "0 0 24 24")
                      ∷ [])
                    (element "path"
                      (("stroke-linecap", "round")
                        ∷ ("stroke-linejoin", "round")
                        ∷ ("stroke-width", "2")
                        ∷ ("d", "M6 18L18 6M6 6l12 12")
                        ∷ [])
                      []))))
          ++ element "div" (("class", "p-6 overflow-y-auto max-h-[calc(80vh-140px)]") ∷ [])
              results_table))

unfoldable pub build_test_results_modal : Option (List TestResult) → Markup
unfolding build_test_results_table
build_test_results_modal (some results) = modal "" (build_test_results_table results)
build_test_results_modal none = modal "hidden" []
