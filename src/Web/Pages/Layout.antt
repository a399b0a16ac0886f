-- ===== src/Web/Pages/Layout.antt =====
-- The layout of all pages, and the login.
use thebalance.Prelude.{String, [], ◌∷◌, ◌++◌}
use thebalance.Web.Markup.{Markup, raw, chars, element, void}

-- `style` and `script` are the files web/style.css and web/script.js.
unfoldable pub page_layout_of : String → String → Markup → Markup
page_layout_of style script content =
    (raw "<!DOCTYPE html>" ∷ [])
    ++ element "html" (("lang", "en") ∷ []) (
        element "head" [] (
          void "meta" (("charset", "UTF-8") ∷ [])
          ++ (void "meta"
                (("name", "viewport") ∷ ("content", "width=device-width, initial-scale=1.0") ∷ [])
              ++ (element "title" [] (chars "One Balance" ∷ [])
                  ++ (void "link" (
                        ("rel", "icon")
                        ∷ (
                          "href",
                          "data:image/svg+xml,<svg xmlns=%22http://www.w3.org/2000/svg%22 viewBox=%220 0 100 100%22><text y=%22.9em%22 font-size=%2290%22>⚖\u{fe0f}</text></svg>",
                        )
                        ∷ [])
                      ++ (element "script" (("src", "https://cdn.tailwindcss.com") ∷ []) []
                          ++ (element "style" [] (raw style ∷ [])
                              ++ element "script" [] (raw script ∷ [])))))))
        ++ element "body" (("class", "breathing-bg min-h-screen text-gray-900 flex flex-col") ∷ [])
            (element "main" (("class", "container mx-auto mt-12 px-6 max-w-7xl flex-grow") ∷ [])
                content
              ++ element "footer"
                  (("class", "text-center py-12 text-sm text-gray-600 space-y-3") ∷ [])
                  (element "p" [] (
                      element "a"
                        (("href", "https://github.com/inevity/theone")
                          ∷ ("target", "_blank")
                          ∷ ("rel", "noopener noreferrer")
                          ∷ (
                            "class",
                            "hover:text-blue-600 transition-colors duration-300 font-medium",
                          )
                          ∷ [])
                        (chars "THEONE on GitHub" ∷ []))
                    ++ element "p" [] (
                        element "a"
                          (("href", "https://github.com/glidea/zenfeed")
                            ∷ ("target", "_blank")
                            ∷ ("rel", "noopener noreferrer")
                            ∷ (
                              "class",
                              "hover:text-blue-600 transition-colors duration-300 font-medium",
                            )
                            ∷ [])
                          (chars "zenfeed — Make RSS 📰 great again with AI 🧠✨!!" ∷ [])))))

unfoldable pub login_page : Markup
login_page =
    element "div" (("class", "flex items-center justify-center min-h-[70vh] relative") ∷ []) (
      element "div"
        ((
          "class",
          "absolute top-20 left-1/4 w-32 h-32 bg-blue-200/30 rounded-full blur-3xl floating-element",
        )
          ∷ [])
        []
      ++ (element "div"
            ((
              "class",
              "absolute bottom-20 right-1/4 w-40 h-40 bg-amber-200/30 rounded-full blur-3xl floating-element",
            )
              ∷ ("style", "animation-delay: -3s;")
              ∷ [])
            []
          ++ element "div" (("class", "max-w-md w-full mx-6 relative z-10") ∷ []) (
              element "div" (("class", "text-center mb-16") ∷ []) (
                element "div"
                  ((
                    "class",
                    "pulse-glow inline-block p-6 bg-gradient-to-br from-blue-100 to-indigo-100 rounded-3xl mb-6",
                  )
                    ∷ [])
                  (element "h1" (("class", "text-6xl font-bold") ∷ []) (chars "⚖\u{fe0f}" ∷ []))
                ++ (element "h2"
                      ((
                        "class",
                        "text-4xl font-bold bg-gradient-to-r from-gray-900 to-gray-700 bg-clip-text text-transparent mb-3",
                      )
                        ∷ [])
                      (chars "One Balance" ∷ [])
                    ++ element "p" (("class", "text-gray-600 text-lg") ∷ [])
                        (chars "Manage your API keys with perfect balance" ∷ [])))
              ++ element "div"
                  ((
                    "class",
                    "glass-card-warm rounded-3xl p-10 transition-all duration-500 hover:scale-[1.02]",
                  )
                    ∷ [])
                  (element "form"
                    (("action", "/login") ∷ ("method", "POST") ∷ ("class", "space-y-8") ∷ [])
                    (element "div" [] (
                        element "label"
                          (("for", "auth_key")
                            ∷ ("class", "block text-gray-800 text-sm font-bold mb-4 tracking-wide")
                            ∷ [])
                          (chars "Authentication Key" ∷ [])
                        ++ void "input" (
                            ("type", "password")
                            ∷ ("id", "auth_key")
                            ∷ ("name", "auth_key")
                            ∷ (
                              "class",
                              "input-field w-full px-5 py-4 rounded-2xl text-gray-900 placeholder-gray-500 focus:outline-none text-base font-medium",
                            )
                            ∷ ("placeholder", "Enter your auth key")
                            ∷ ("required", "")
                            ∷ []))
                      ++ element "button"
                          (("type", "submit")
                            ∷ (
                              "class",
                              "btn-primary w-full py-4 px-6 text-white font-bold rounded-2xl focus:outline-none focus:ring-4 focus:ring-blue-200 text-base tracking-wide",
                            )
                            ∷ [])
                          (chars "Sign In" ∷ []))))))
