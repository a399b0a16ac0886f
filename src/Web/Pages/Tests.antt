-- ===== src/Web/Pages/Tests.antt =====
-- A page with two keys of Google's.
use thebalance.Prelude.{◌≡◌, refl, some, [], ◌∷◌, ◌++◌, map, All, true}
use thebalance.Prelude.Int.{pos}
use thebalance.Storage.Model.{db_key_to_api_key}
use thebalance.Storage.Memory.{column_json}
use thebalance.Storage.Samples.{row, other_row}
use thebalance.Web.Session.{KeysListPage}
use thebalance.Web.Pages.{keys_list_page}
use thebalance.Web.Pages.Fields.{
  form_opens, form_closes, control, controls, over_table, all_box, checkbox, close_button,
  keys_list_page-controls,
}
use thebalance.Web.Pages.Exposed.{exposes}
use thebalance.Manager.Paths.{is_plain_id}
use thebalance.Web.Pages.Home.{LeadsHome, keys_list_page-LeadsHome}

abbrev two_keys : KeysListPage
two_keys = record {
  provider = "google-ai-studio";
  status = "blocked";
  q = "<b>";
  keys = db_key_to_api_key column_json row ∷ db_key_to_api_key column_json other_row ∷ [];
  total = pos 42;
  page = 2;
  page_size = 20;
  sort_by = "createdAt";
  sort_order = "asc";
  test_results = some (record { key = "AIza"; passed = true; details = "OK" } ∷ []);
}

keys_list_page-controls_example :
    controls (keys_list_page 1700000100 two_keys)
    ≡ form_opens "POST" "" ""
      ∷ (over_table "google-ai-studio" "blocked" "<b>"
          ++ all_box
            ∷ (map checkbox two_keys.keys
                ++ form_closes
                  ∷ form_opens "GET" "/keys/google-ai-studio" "search-form"
                  ∷ control "" "hidden" "status" "blocked" ""
                  ∷ form_closes
                  ∷ form_opens "POST" "" ""
                  ∷ control "" "hidden" "action" "add" ""
                  ∷ control "" "textarea" "keys" "" ""
                  ∷ control "" "submit" "" "" "/keys/google-ai-studio"
                  ∷ form_closes
                  ∷ close_button
                  ∷ close_button
                  ∷ []))
keys_list_page-controls_example = keys_list_page-controls 1700000100 two_keys

keys_list_page-LeadsHome_example :
    All (LeadsHome "google-ai-studio") (exposes (keys_list_page 1700000100 two_keys))
unfolding is_plain_id
keys_list_page-LeadsHome_example = keys_list_page-LeadsHome 1700000100 two_keys refl
