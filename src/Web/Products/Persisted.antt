-- ===== src/Web/Products/Persisted.antt =====
-- productsSlice: what `localStorage` holds, and what a reload of the page finds there.
use pipeline_azure.Prelude.{ℕ, ◌≡◌, none, some, List, [], ◌∷◌, ◌++◌, ◌∙◌, arith, remove, nat_eq}
use pipeline_azure.Json.{Json}
use pipeline_azure.Storage.{load_list, load_list-set_item, load_list-remove_item, set_item}
use pipeline_azure.Web.Products.{
  Action, add_to_compare, remove_from_compare, clear_compare_list, add_to_recently_viewed,
  clear_recently_viewed, Page, no_filters, view, initial_state, reduce, run,
}

module _ {Number Text : Type 0} (json : Json Text (List ℕ)) where
  pub record IsPersisted (p : Page Number Text) : Type 0 where
    pub compared : load_list json "compareList" p.storage ≡ some p.state.compare_list
    pub viewed : load_list json "recentlyViewed" p.storage ≡ some p.state.recently_viewed

  saves_compared :
      (p : Page Number Text) (ids : List ℕ)
      → IsPersisted p
      → IsPersisted (record {
        state = record p.state { compare_list = ids };
        storage = set_item "compareList" (json.stringify ids) p.storage;
      })
  saves_compared p ids s = record {
    compared = load_list-set_item json "compareList" "compareList" ids p.storage;
    viewed = load_list-set_item json "compareList" "recentlyViewed" ids p.storage ∙ s.viewed;
  }

  saves_viewed :
      (p : Page Number Text) (ids : List ℕ)
      → IsPersisted p
      → IsPersisted (record {
        state = record p.state { recently_viewed = ids };
        storage = set_item "recentlyViewed" (json.stringify ids) p.storage;
      })
  saves_viewed p ids s = record {
    compared = load_list-set_item json "recentlyViewed" "compareList" ids p.storage ∙ s.compared;
    viewed = load_list-set_item json "recentlyViewed" "recentlyViewed" ids p.storage;
  }

  reduce-IsPersisted :
      (p : Page Number Text) (a : Action Number) → IsPersisted p → IsPersisted (reduce json p a)
  unfolding reduce
  reduce-IsPersisted p (add_to_compare id) s =
      ground (arith, s, saves_compared p (p.state.compare_list ++ id ∷ []) s)
  reduce-IsPersisted p (remove_from_compare id) s =
      saves_compared p (remove id p.state.compare_list) s
  reduce-IsPersisted p (add_to_recently_viewed id) s =
      saves_viewed p (view id p.state.recently_viewed) s
  reduce-IsPersisted p clear_compare_list s = record {
    compared = load_list-remove_item json "compareList" "compareList" p.storage;
    viewed = load_list-remove_item json "compareList" "recentlyViewed" p.storage ∙ s.viewed;
  }
  reduce-IsPersisted p clear_recently_viewed s = record {
    compared = load_list-remove_item json "recentlyViewed" "compareList" p.storage ∙ s.compared;
    viewed = load_list-remove_item json "recentlyViewed" "recentlyViewed" p.storage;
  }
  reduce-IsPersisted p a s = record { compared = s.compared; viewed = s.viewed }

  run-IsPersisted :
      (p : Page Number Text) (actions : List (Action Number))
      → IsPersisted p
      → IsPersisted (run json p actions)
  unfolding run
  run-IsPersisted p [] s = s
  run-IsPersisted p (a ∷ actions) s =
      run-IsPersisted (reduce json p a) actions (reduce-IsPersisted p a s)

  -- After any actions a reload of the page finds both lists as they were, with no product
  -- selected and no filter set, if the storage held the lists at the start.
  initial_state-run :
      (p : Page Number Text) (actions : List (Action Number))
      → IsPersisted p
      → let q = run json p actions in
        initial_state json q.storage
        ≡ some (record {
          filters = no_filters {Number = Number};
          selected_product_id = none;
          compare_list = q.state.compare_list;
          recently_viewed = q.state.recently_viewed;
        })
  unfolding initial_state
  initial_state-run p actions s =
      let t = run-IsPersisted p actions s in ground (arith, t.compared, t.viewed)
