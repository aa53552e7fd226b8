-- ===== src/Admin/Facets/Selected.antt =====
-- The faceted filter: which options are selected after any choices.
use pipeline_azure.Prelude.{
  ◌≡◌, refl, ◌∙◌, ap, Bool, false, not, ◌||◌, Option, List, [], ◌∷◌, arith, Eq, ◌==◌, includes,
  remove, includes-append, includes-remove_self, includes-remove_ne, Bool-cases, inl, inr,
  if◌then◌else◌,
}
use pipeline_azure.Admin.Facets.{
  add, add_all, selected_values, filter_of, on_select, clear_unless_empty, clear_filters, Event,
  selects, clears, run,
}

-- What the filter promises: an option that is chosen changes whether it is selected, and no other.
module _ {A : Type 0} ⦃e : Eq A⦄ where
  unfoldable pub choose : List (Event A) → (A → Bool) → A → Bool
  choose [] selected = selected
  choose (selects a ∷ events) selected =
      choose events (λ b. if a == b then not (selected b) else selected b)
  choose (clears ∷ events) selected = choose events (λ b. false)

  abbrev pub is_selected : Option (List A) → A → Bool
  is_selected filter = includes (selected_values filter)

  includes-add : (a b : A) (set : List A) → includes (add a set) b ≡ (a == b || includes set b)
  unfolding includes add
  includes-add a b set = ground (arith, includes-append set (a ∷ []) b, e.same_iff a b)

  includes-add_all :
      (values set : List A) (b : A)
      → includes (add_all values set) b ≡ (includes values b || includes set b)
  unfolding includes add_all
  includes-add_all [] set b = refl
  includes-add_all (a ∷ values) set b =
      includes-add_all values (add a set) b ∙ ground (arith, includes-add a b set)

  is_selected-filter_of :
      (values : List A) (b : A) → is_selected (filter_of values) b ≡ includes values b
  unfolding selected_values includes
  is_selected-filter_of [] b = refl
  is_selected-filter_of (a ∷ values) b = includes-add_all (a ∷ values) [] b ∙ ground arith

  includes-toggled :
      (a b : A) (set : List A)
      → includes (if includes set a then remove a set else add a set) b
        ≡ (if a == b then not (includes set b) else includes set b)
  includes-toggled a b set = elim (Bool-cases (a == b)) [
    | inl same ↦
        ground (arith, same, e.same_iff a b, includes-remove_self a set, includes-add a b set)
    | inr other ↦
        ground (arith, other, e.same_iff a b, includes-remove_ne a b set, includes-add a b set)
  ]

  is_selected-on_select :
      (a b : A) (filter : Option (List A))
      → is_selected (on_select a filter) b
        ≡ (if a == b then not (is_selected filter b) else is_selected filter b)
  unfolding on_select
  is_selected-on_select a b filter =
      let set = selected_values filter in
      is_selected-filter_of (if includes set a then remove a set else add a set) b
      ∙ includes-toggled a b set

  cleared :
      (set : List A) (filter : Option (List A)) (b : A)
      → selected_values filter ≡ set
      → is_selected (clear_unless_empty set filter) b ≡ false
  unfolding selected_values includes
  cleared [] filter b h = ap (λ s. includes s b) h
  cleared (a ∷ set) filter b h = refl

  choose-same :
      (events : List (Event A)) (p q : A → Bool)
      → ((b : A) → p b ≡ q b)
      → (b : A) → choose events p b ≡ choose events q b
  unfolding choose
  choose-same [] p q h b = h b
  choose-same (selects a ∷ events) p q h b =
      choose-same events _ _ (λ c. ap (λ x. if a == c then not x else x) (h c)) b
  choose-same (clears ∷ events) p q h b = refl

  -- After any choices of options and of "Clear filters", from whatever filter, the options that are
  -- selected are those of the same choices on a set: each turns the selection of its own option over
  -- and of no other, and "Clear filters" ends every selection.
  pub is_selected-run :
      (events : List (Event A)) (filter : Option (List A)) (b : A)
      → is_selected (run events filter) b ≡ choose events (is_selected filter) b
  unfolding run choose clear_filters
  is_selected-run [] filter b = refl
  is_selected-run (selects a ∷ events) filter b =
      is_selected-run events (on_select a filter) b
      ∙ choose-same events _ _ (λ c. is_selected-on_select a c filter) b
  is_selected-run (clears ∷ events) filter b =
      is_selected-run events (clear_filters filter) b
      ∙ choose-same events _ _ (λ c. cleared (selected_values filter) filter c refl) b
