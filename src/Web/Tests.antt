-- ===== src/Web/Tests.antt =====
-- Runs and instances for the pages.
use thebalance.Prelude.{ℕ, ◌≤◌, ◌<◌, ◌+◌}
use thebalance.Storage.Reads.{list_query}
use thebalance.Storage.Platform.Binding.{bind_query}
use thebalance.Web.Controls.{num_pages}
use thebalance.Web.Controls.Cover.{list_query-num_pages}
use thebalance.Prelude.{◌≡◌, refl, none, some, [], ◌∷◌, arith}
use thebalance.Prelude.Int.{pos}
use thebalance.Web.{generate_page_numbers, build_page_link}
use thebalance.Web.Pager.{GoesOn, generate_page_numbers-GoesOn}

in_the_middle :
    generate_page_numbers 6 12
    ≡ some 1 ∷ none ∷ some 4 ∷ some 5 ∷ some 6 ∷ some 7 ∷ some 8 ∷ none ∷ some 12 ∷ []
unfolding generate_page_numbers
in_the_middle = refl

link :
    build_page_link "openai" "active" "" 3 "updatedAt" "desc"
    ≡ "/keys/openai?status=active&sort_by=updatedAt&sort_order=desc&page=3"
unfolding build_page_link
link = refl

generate_page_numbers-GoesOn_example : GoesOn 0 (generate_page_numbers 6 12) 12
generate_page_numbers-GoesOn_example =
    generate_page_numbers-GoesOn 6 12 (omega arith) (omega arith) (omega arith)

list_query-num_pages_example :
    (page start : ℕ) × (1 ≤ page)
    × (page ≤ num_pages 45 20)
    × ((bind_query (list_query "openai" "active" page 20 "updatedAt" "asc")).offset
        ≡ some (pos start))
    × ((bind_query (list_query "openai" "active" page 20 "updatedAt" "asc")).limit ≡ some (pos 20))
    × (start ≤ 44)
    × (44 < start + 20)
list_query-num_pages_example =
    list_query-num_pages "openai" "active" "updatedAt" "asc" 45 44 (omega arith) (omega arith)
