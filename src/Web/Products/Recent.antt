-- ===== src/Web/Products/Recent.antt =====
-- productsSlice: the recently viewed products against the whole history of views.
use pipeline_azure.Prelude.{
  ℕ, zero, suc, ◌≡◌, refl, ap, ◌∙◌, false, List, [], ◌∷◌, arith, take, take_of_length-le,
  length-take-le, not_includes-take, includes, remove, nat_eq, nat_beq_iff, IsDistinct,
  remove-IsDistinct, includes-remove_self,
}
use pipeline_azure.Json.{Json}
use pipeline_azure.Web.Products.{
  Action, add_to_recently_viewed, clear_recently_viewed, Page, view, reduce, run,
}

-- The products of a history, given newest first, each at its latest view.
unfoldable pub latest : List ℕ → List ℕ
latest [] = []
latest (id ∷ older) = id ∷ remove id (latest older)

-- What an action makes of the history of views, newest first.
unfoldable pub extend : {Number : Type 0} → List ℕ → Action Number → List ℕ
extend h (add_to_recently_viewed id) = id ∷ h
extend h clear_recently_viewed = []
extend h _ = h

unfoldable pub history : {Number : Type 0} → List ℕ → List (Action Number) → List ℕ
history h [] = h
history h (a ∷ actions) = history (extend h a) actions

latest-IsDistinct : (h : List ℕ) → IsDistinct (latest h)
unfolding latest
latest-IsDistinct [] = tt
latest-IsDistinct (id ∷ h) =
    (includes-remove_self id (latest h), remove-IsDistinct id (latest h) (latest-IsDistinct h))

remove_absent : (id : ℕ) (xs : List ℕ) → includes xs id ≡ false → remove id xs ≡ xs
unfolding includes remove
remove_absent id [] h = refl
remove_absent id (x ∷ xs) h = ground (arith, remove_absent id xs)

-- Where the product is not in the list, neither the cut nor the removal does anything twice.
take-absent :
    (n id : ℕ) (xs : List ℕ) → includes xs id ≡ false → take n (remove id (take n xs)) ≡ take n xs
take-absent n id xs h =
    rw (remove_absent id (take n xs) (not_includes-take n id xs h))
      (take_of_length-le n (take n xs) (length-take-le n xs))

-- To move a product to the front and keep `n`, the first `n` products are all that matter.
take-remove-take :
    (n id : ℕ) (xs : List ℕ)
    → IsDistinct xs
    → take n (remove id (take (suc n) xs)) ≡ take n (remove id xs)
unfolding remove
take-remove-take zero id xs d = refl
take-remove-take (suc n) id [] d = refl
take-remove-take (suc n) id (x ∷ xs) (new, d) = ground (
  arith,
  take-remove-take n id xs d,
  nat_beq_iff x id,
  take-absent (suc n) x xs new,
  remove_absent x xs new,
)

-- The `if` before the cut changes nothing.
view-eq-take : (id : ℕ) (xs : List ℕ) → view id xs ≡ take 10 (id ∷ remove id xs)
view-eq-take id xs = ground (arith, take_of_length-le 10 (id ∷ remove id xs))

-- The view of a product, in terms of the history.
view-take :
    (id : ℕ) (xs : List ℕ) → IsDistinct xs → view id (take 10 xs) ≡ take 10 (id ∷ remove id xs)
view-take id xs d = view-eq-take id (take 10 xs) ∙ ap (◌∷◌ id) (take-remove-take 9 id xs d)

module _ {Number Text : Type 0} (json : Json Text (List ℕ)) where
  reduce-latest :
      (p : Page Number Text) (a : Action Number) (h : List ℕ)
      → p.state.recently_viewed ≡ take 10 (latest h)
      → (reduce json p a).state.recently_viewed ≡ take 10 (latest (extend h a))
  unfolding reduce extend latest
  reduce-latest p (add_to_recently_viewed id) h e =
      ap (view id) e ∙ view-take id (latest h) (latest-IsDistinct h)
  reduce-latest p a h e = ground arith

  -- After any actions the recently viewed products are the ten latest of the whole history of
  -- views since the last clear, each product at its latest view, newest first, if they were so
  -- at the start.
  pub recently_viewed-run :
      (p : Page Number Text) (actions : List (Action Number)) (h : List ℕ)
      → p.state.recently_viewed ≡ take 10 (latest h)
      → (run json p actions).state.recently_viewed ≡ take 10 (latest (history h actions))
  unfolding run history
  recently_viewed-run p [] h e = e
  recently_viewed-run p (a ∷ actions) h e =
      recently_viewed-run (reduce json p a) actions (extend h a) (reduce-latest p a h e)
