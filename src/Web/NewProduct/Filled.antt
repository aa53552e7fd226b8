-- ===== src/Web/NewProduct/Filled.antt =====
-- AddProductPage.tsx: which request the page makes of what was typed.
use mathlib.Core.List.{append_assoc, append-nil}
use pipeline_azure.Prelude.{
  ℕ, ◌≡◌, refl, ◌∙◌, Bool, true, false, not, Option, none, some, String, List, [], ◌∷◌, ◌++◌,
  Result, ok, throw, string_eq, ◌==◌, if◌then◌else◌, arith, sym, Bool-cases, inl, inr,
}
use pipeline_azure.Queries.Cache.{QueryClient, Key}
use pipeline_azure.Queries.Hooks.{
  Effect, success, error, navigate, error_toast, Panel, use_mutation, settled,
}
use pipeline_azure.Web.Catalog.{CatalogApi, Value, create, use_create_product}
use pipeline_azure.Web.NewProduct.{
  ProductFormData, Field, title, description, price, category, image, Change, initial_form, or_zero,
  put_field, handle_change, type_all, refusal, then_admin, submit_unless, click, handle_submit,
}

abbrev field_same : Field → Field → Bool
field_same title title = true
field_same description description = true
field_same price price = true
field_same category category = true
field_same image image = true
field_same _ _ = false

-- The text of the last change of the field, or else the given one.
unfoldable pub last_of : {A : Type 0} → (String → A) → Field → A → List Change → A
last_of read f a [] = a
last_of read f a (c ∷ changes) =
    last_of read f (if field_same c.name f then read c.value else a) changes

abbrev typed : String → String
typed value = value

abbrev pub first_of : List String → Option String
first_of [] = none
first_of (t ∷ texts) = some t

unfoldable pub texts_of : List (Bool × String) → List String
texts_of [] = []
texts_of ((failed, text) ∷ checks) =
    let texts = texts_of checks in if failed then text ∷ texts else texts

module _ {Price : Type 0} (zero : Price) (parse_float : String → Option Price)
    (is_positive : Price → Bool) (is_blank : String → Bool) where
  abbrev read_price : String → Price
  read_price value = or_zero zero parse_float is_positive is_blank (parse_float value)

  -- The form after the changes, field by field.
  abbrev pub filled : ProductFormData Price → List Change → ProductFormData Price
  filled form changes = record {
    title = last_of typed title form.title changes;
    description = last_of typed description form.description changes;
    price = last_of read_price price form.price changes;
    category = last_of typed category form.category changes;
    image = last_of typed image form.image changes;
  }

  -- The texts of all checks that fail, in the order of the page.
  abbrev pub failed : ProductFormData Price → List String
  failed form = texts_of (
      (is_blank form.title, "Product title is required")
      ∷ (is_blank form.description, "Product description is required")
      ∷ (not (is_positive form.price), "Price must be greater than 0")
      ∷ (form.category == "", "Please select a category")
      ∷ (is_blank form.image, "Product image URL is required")
      ∷ [])

  put_field-filled :
      (f : Field) (value : String) (form : ProductFormData Price) (changes : List Change)
      → filled (put_field zero parse_float is_positive is_blank f value form) changes
        ≡ filled form (record { name = f; value = value } ∷ changes)
  unfolding last_of
  put_field-filled title value form changes = refl
  put_field-filled description value form changes = refl
  put_field-filled price value form changes = refl
  put_field-filled category value form changes = refl
  put_field-filled image value form changes = refl

  type_all-filled :
      (form : ProductFormData Price) (changes : List Change)
      → type_all zero parse_float is_positive is_blank changes form ≡ filled form changes
  unfolding last_of type_all handle_change
  type_all-filled form [] = refl
  type_all-filled form (c ∷ changes) =
      type_all-filled (handle_change zero parse_float is_positive is_blank c form) changes
      ∙ put_field-filled c.name c.value form changes

  refusal-failed :
      (form : ProductFormData Price)
      → refusal zero parse_float is_positive is_blank form ≡ first_of (failed form)
  unfolding refusal texts_of
  refusal-failed form = ground arith

  module _ {S Product Page : Type 0} (api : CatalogApi S Product (ProductFormData Price) Page Price)
      (not_found : ℕ → String) (no_results : Page) (client : QueryClient (Value Product Page)) where
    -- What the user sees when the request was made.
    abbrev pub outcome : Result String Product → List Effect
    outcome (ok product) = success "Product created successfully" ∷ navigate "/admin" ∷ []
    outcome (throw e) = error_toast "Failed to create product" e

    -- The server afterwards, and what is shown, by the checks that fail.
    abbrev pub promised : List String → ProductFormData Price → S → S × List Effect
    promised [] form s =
        let (result, after) = create api not_found no_results form s in (after, outcome result)
    promised (text ∷ texts) form s = (s, error text ∷ [])

    outcome-settled :
        (keys : List Key) (result : Result String Product) (server : S) (p : Panel client.Cache S)
        → let q =
            then_admin zero parse_float is_positive is_blank api not_found no_results client result
              (settled client keys
                (some (success "Product created successfully"))
                (error_toast "Failed to create product")
                result
                (record p { server = server })) in
          (q.server ≡ server) × (q.effects ≡ p.effects ++ outcome result)
    outcome-settled keys (ok product) server p = (refl, append_assoc p.effects _ _)
    outcome-settled keys (throw e) server p = (refl, refl)

    submit_unless-promised :
        (texts : List String) (form : ProductFormData Price) (p : Panel client.Cache S)
        → let q =
            submit_unless zero parse_float is_positive is_blank api not_found no_results client
              (first_of texts)
              form
              p in
          (q.server ≡ (promised texts form p.server).0)
          × (q.effects ≡ p.effects ++ (promised texts form p.server).1)
    unfolding use_mutation use_create_product
    submit_unless-promised [] form p =
        let (result, after) = create api not_found no_results form p.server in
        outcome-settled (use_create_product api not_found no_results form).invalidates result after
          p
    submit_unless-promised (t ∷ texts) form p = (refl, refl)

    -- The page after a click on the button, by what the browser says of the form.
    abbrev pub clicked : Bool → ProductFormData Price → S → S × List Effect
    clicked false form s = (s, [])
    clicked true form s = promised (failed form) form s

    -- After any changes of the form and a click on its button: if the browser does not find the inputs
    -- valid, no request is made and the page shows nothing of its own. If it does, and no check of the
    -- page fails for what was typed last into each field, then the request of exactly these values is
    -- made, and the user sees its success and the admin page, or its error; if some check of the page
    -- fails, no request is made, and the user sees the text of the first one.
    pub click-type_all :
        (is_valid : Bool) (changes : List Change) (p : Panel client.Cache S)
        → let start = initial_form zero parse_float is_positive is_blank in
          let form = filled start changes in
          let q =
            click zero parse_float is_positive is_blank api not_found no_results client is_valid
              (type_all zero parse_float is_positive is_blank changes start)
              p in
          (q.server ≡ (clicked is_valid form p.server).0)
          × (q.effects ≡ p.effects ++ (clicked is_valid form p.server).1)
    unfolding click handle_submit
    click-type_all is_valid changes p =
        let start = initial_form zero parse_float is_positive is_blank in
        let form = filled start changes in
        rw (type_all-filled start changes) (elim (Bool-cases is_valid) [
          | inl valid ↦
              rw (valid, refusal-failed form) (submit_unless-promised (failed form) form p)
          | inr invalid ↦ rw invalid (refl, sym (append-nil p.effects))
        ])
