-- ===== src/Web/Pages/Providers.antt =====
-- The list of providers.
use Prim.Native.String
use thebalance.Prelude.{String, List, [], ◌∷◌, ◌++◌}
use thebalance.Web.Markup.{Markup, chars, element, for_each}

pub record ProviderConfig : Type 0 where
  pub color : String
  pub icon : String
  pub bg_color : String

-- The order of a `phf::Map` is not specified; here it is that of the source.
abbrev pub provider_configs : List (String × ProviderConfig)
provider_configs =
    (
      "google-ai-studio",
      record {
        color = "from-red-400 to-yellow-400";
        icon = "G";
        bg_color = "from-red-50 to-yellow-50";
      },
    )
    ∷ (
      "google-vertex-ai",
      record {
        color = "from-blue-400 to-green-400";
        icon = "▲";
        bg_color = "from-blue-50 to-green-50";
      },
    )
    ∷ (
      "anthropic",
      record {
        color = "from-orange-400 to-red-400";
        icon = "A";
        bg_color = "from-orange-50 to-red-50";
      },
    )
    ∷ (
      "azure-openai",
      record {
        color = "from-blue-500 to-cyan-400";
        icon = "⊞";
        bg_color = "from-blue-50 to-cyan-50";
      },
    )
    ∷ (
      "aws-bedrock",
      record {
        color = "from-yellow-500 to-orange-500";
        icon = "◆";
        bg_color = "from-yellow-50 to-orange-50";
      },
    )
    ∷ (
      "cartesia",
      record {
        color = "from-purple-400 to-pink-400";
        icon = "C";
        bg_color = "from-purple-50 to-pink-50";
      },
    )
    ∷ (
      "cerebras-ai",
      record {
        color = "from-gray-600 to-gray-800";
        icon = "◉";
        bg_color = "from-gray-50 to-gray-100";
      },
    )
    ∷ (
      "cohere",
      record {
        color = "from-green-400 to-teal-500";
        icon = "●";
        bg_color = "from-green-50 to-teal-50";
      },
    )
    ∷ (
      "deepseek",
      record {
        color = "from-indigo-500 to-purple-600";
        icon = "◈";
        bg_color = "from-indigo-50 to-purple-50";
      },
    )
    ∷ (
      "elevenlabs",
      record {
        color = "from-pink-400 to-rose-500";
        icon = "♫";
        bg_color = "from-pink-50 to-rose-50";
      },
    )
    ∷ (
      "grok",
      record {
        color = "from-gray-700 to-black";
        icon = "X";
        bg_color = "from-gray-50 to-gray-100";
      },
    )
    ∷ (
      "groq",
      record {
        color = "from-orange-500 to-red-600";
        icon = "⚡";
        bg_color = "from-orange-50 to-red-50";
      },
    )
    ∷ (
      "huggingface",
      record {
        color = "from-yellow-400 to-amber-500";
        icon = "🤗";
        bg_color = "from-yellow-50 to-amber-50";
      },
    )
    ∷ (
      "mistral",
      record {
        color = "from-blue-600 to-indigo-700";
        icon = "M";
        bg_color = "from-blue-50 to-indigo-50";
      },
    )
    ∷ (
      "openai",
      record {
        color = "from-emerald-400 to-teal-600";
        icon = "◯";
        bg_color = "from-emerald-50 to-teal-50";
      },
    )
    ∷ (
      "openrouter",
      record {
        color = "from-violet-500 to-purple-600";
        icon = "⟲";
        bg_color = "from-violet-50 to-purple-50";
      },
    )
    ∷ (
      "perplexity-ai",
      record {
        color = "from-cyan-500 to-blue-600";
        icon = "?";
        bg_color = "from-cyan-50 to-blue-50";
      },
    )
    ∷ (
      "replicate",
      record {
        color = "from-slate-500 to-gray-600";
        icon = "⧉";
        bg_color = "from-slate-50 to-gray-50";
      },
    )
    ∷ []

unfoldable pub provider_card : String × ProviderConfig → Markup
provider_card (p_name, config) =
    element "div"
      ((
        "class",
        "glass-card rounded-3xl p-8 transition-all duration-500 hover:cursor-pointer group hover:shadow-2xl",
      )
        ∷ [])
      (element "a"
        (("href", (String.◌++◌ "/keys/" (String.◌++◌ p_name "?status=active")))
          ∷ ("class", "block")
          ∷ [])
        (element "div" (("class", "flex items-center justify-between") ∷ []) (
          element "div" (("class", "flex items-center space-x-5") ∷ []) (
            element "div" (("class", "relative") ∷ []) (
              element "div"
                ((
                  "class",
                  (String.◌++◌ "w-14 h-14 bg-gradient-to-br " (
                      String.◌++◌ config.bg_color
                        " rounded-2xl flex items-center justify-center group-hover:scale-110 transition-all duration-300 shadow-lg")),
                )
                  ∷ [])
                (element "div"
                  ((
                    "class",
                    (String.◌++◌ "w-8 h-8 bg-gradient-to-br " (
                        String.◌++◌ config.color
                          " rounded-xl flex items-center justify-center text-white font-bold text-sm shadow-inner")),
                  )
                    ∷ [])
                  (chars config.icon ∷ []))
              ++ element "div"
                  ((
                    "class",
                    (String.◌++◌ "absolute -top-1 -right-1 w-4 h-4 bg-gradient-to-br " (
                        String.◌++◌ config.color
                          " rounded-full opacity-60 group-hover:opacity-100 transition-opacity duration-300")),
                  )
                    ∷ [])
                  [])
            ++ element "div" [] (
                element "h3"
                  ((
                    "class",
                    "text-xl font-bold text-gray-900 group-hover:text-blue-600 transition-colors duration-300 mb-1",
                  )
                    ∷ [])
                  (chars p_name ∷ [])))
          ++ element "div" (("class", "flex items-center space-x-2") ∷ []) (
              element "div"
                ((
                  "class",
                  (String.◌++◌ "w-2 h-2 bg-gradient-to-r " (
                      String.◌++◌ config.color
                        " rounded-full opacity-60 group-hover:opacity-100 transition-opacity duration-300")),
                )
                  ∷ [])
                []
              ++ element "svg"
                  ((
                    "class",
                    "w-6 h-6 text-gray-400 transform transition-all duration-300 group-hover:translate-x-2 group-hover:text-blue-500",
                  )
                    ∷ ("fill", "none")
                    ∷ ("stroke", "currentColor")
                    ∷ ("viewBox", "0 0 24 24")
                    ∷ [])
                  (element "path"
                    (("stroke-linecap", "round")
                      ∷ ("stroke-linejoin", "round")
                      ∷ ("stroke-width", "2")
                      ∷ ("d", "M9 5l7 7-7 7")
                      ∷ [])
                    [])))))

unfoldable pub providers_page : Markup
providers_page =
    element "div" (("class", "text-center mb-20 relative") ∷ []) (
      element "div"
        ((
          "class",
          "absolute top-0 left-1/2 transform -translate-x-1/2 -translate-y-8 w-64 h-32 bg-gradient-to-r from-blue-200/20 to-purple-200/20 rounded-full blur-3xl",
        )
          ∷ [])
        []
      ++ element "h1"
          ((
            "class",
            "text-6xl font-bold bg-gradient-to-r from-gray-900 via-blue-800 to-gray-900 bg-clip-text text-transparent mb-6 relative",
          )
            ∷ [])
          (chars "Select Provider" ∷ []))
    ++ element "div"
        ((
          "class",
          "grid grid-cols-1 sm:grid-cols-2 lg:grid-cols-3 xl:grid-cols-4 gap-8 max-w-7xl mx-auto",
        )
          ∷ [])
        ((for_each provider_card provider_configs))
