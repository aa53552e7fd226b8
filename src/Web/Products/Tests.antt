-- ===== src/Web/Products/Tests.antt =====
-- productsSlice on concrete pages.
use pipeline_azure.Prelude.{
  ℕ, ◌≡◌, refl, Option, none, List, [], ◌∷◌, arith, includes, remove, take,
}
use pipeline_azure.Json.{plain_json}
use pipeline_azure.Web.Products.{
  Action, add_to_compare, add_to_recently_viewed, Page, no_filters, reduce, run,
}
use pipeline_azure.Web.Products.Bounds.{IsBounded, run-IsBounded}
use pipeline_azure.Web.Products.Recent.{latest, history, extend, recently_viewed-run}

abbrev fresh : Page ℕ (Option (List ℕ))
fresh = record {
  state = record {
    filters = no_filters;
    selected_product_id = none;
    compare_list = [];
    recently_viewed = [];
  };
  storage = [];
}

abbrev visit : List (Action ℕ)
visit =
    add_to_compare 7
    ∷ add_to_recently_viewed 7
    ∷ add_to_recently_viewed 8
    ∷ add_to_compare 7
    ∷ add_to_recently_viewed 7
    ∷ []

visit_test : (run plain_json fresh visit).state.recently_viewed ≡ 7 ∷ 8 ∷ []
unfolding run reduce includes remove
visit_test = refl

visit_compare_test : (run plain_json fresh visit).state.compare_list ≡ 7 ∷ []
unfolding run reduce includes remove
visit_compare_test = refl

run-IsBounded_example : IsBounded (run plain_json fresh visit).state
run-IsBounded_example = run-IsBounded plain_json fresh visit (record {
  few_compared = omega arith;
  compared_once = tt;
  few_viewed = omega arith;
  viewed_once = tt;
})

recently_viewed-run_example :
    (run plain_json fresh visit).state.recently_viewed ≡ take 10 (latest (7 ∷ 8 ∷ 7 ∷ []))
unfolding latest history extend
recently_viewed-run_example = recently_viewed-run plain_json fresh visit [] refl
