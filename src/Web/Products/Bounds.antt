-- ===== src/Web/Products/Bounds.antt =====
-- productsSlice: the sizes of the two lists, and that no product stands twice in either.
use pipeline_azure.Prelude.{
  ℕ, ◌≤◌, List, [], ◌∷◌, arith, length, length-append, length-take-le, remove, nat_eq, IsDistinct,
  concat-IsDistinct, remove-IsDistinct, take-IsDistinct, length-remove-le, includes-remove_self,
}
use pipeline_azure.Json.{Json}
use pipeline_azure.Web.Products.{
  Action, add_to_compare, remove_from_compare, add_to_recently_viewed, ProductsState, Page, view,
  reduce, run,
}

pub record IsBounded {Number : Type 0} (s : ProductsState Number) : Type 0 where
  pub few_compared : length s.compare_list ≤ 4
  pub compared_once : IsDistinct s.compare_list
  pub few_viewed : length s.recently_viewed ≤ 10
  pub viewed_once : IsDistinct s.recently_viewed

pub view-IsDistinct : (id : ℕ) (ids : List ℕ) → IsDistinct ids → IsDistinct (view id ids)
view-IsDistinct id ids d = ground (arith, fresh, take-IsDistinct 10 (id ∷ remove id ids) fresh)
  where
    fresh : IsDistinct (id ∷ remove id ids)
    fresh = (includes-remove_self id ids, remove-IsDistinct id ids d)

length-view-le : (id : ℕ) (ids : List ℕ) → length (view id ids) ≤ 10
length-view-le id ids = ground (arith, length-take-le 10 (id ∷ remove id ids))

module _ {Number Text : Type 0} (json : Json Text (List ℕ)) where
  reduce-IsBounded :
      (p : Page Number Text) (a : Action Number)
      → IsBounded p.state
      → IsBounded (reduce json p a).state
  unfolding reduce
  reduce-IsBounded p (add_to_compare id) b = ground (
    arith,
    length-append p.state.compare_list (id ∷ []),
    concat-IsDistinct p.state.compare_list id b.compared_once,
  )
  reduce-IsBounded p (remove_from_compare id) b = ground (
    arith,
    length-remove-le id p.state.compare_list,
    remove-IsDistinct id p.state.compare_list b.compared_once,
  )
  reduce-IsBounded p (add_to_recently_viewed id) b = record {
    few_compared = b.few_compared;
    compared_once = b.compared_once;
    few_viewed = length-view-le id p.state.recently_viewed;
    viewed_once = view-IsDistinct id p.state.recently_viewed b.viewed_once;
  }
  reduce-IsBounded p a b = ground arith

  -- Every history of actions keeps at most 4 products to compare and at most 10 recently viewed
  -- ones, with no product twice in either list, if the page started so.
  pub run-IsBounded :
      (p : Page Number Text) (actions : List (Action Number))
      → IsBounded p.state
      → IsBounded (run json p actions).state
  unfolding run
  run-IsBounded p [] b = b
  run-IsBounded p (a ∷ actions) b = run-IsBounded (reduce json p a) actions (reduce-IsBounded p a b)
