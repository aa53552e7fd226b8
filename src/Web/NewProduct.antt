-- ===== src/Web/NewProduct.antt =====
-- src/Presentation/Web/src/presentation/features/admin/pages/AddProductPage.tsx
-- The form of the page, its checks, and the request that it hands to the hook of Web.Catalog. What
-- `trim` makes empty, what `parseFloat` reads, if it reads a number, and the order of the numbers are
-- parameters, and so is what the browser says of the form when its button is clicked: the inputs are
-- `required`, the price has a least value and the image is a `url`, and the browser hands no form to
-- `handleSubmit` that breaks one of these.
pub mod Filled
mod Tests
use pipeline_azure.Prelude.{
  ℕ, Bool, true, false, not, Option, none, some, String, List, [], ◌∷◌, ◌++◌, Result, ok, throw,
  string_eq, ◌==◌, if◌then◌else◌,
}
use pipeline_azure.Queries.Cache.{QueryClient}
use pipeline_azure.Queries.Hooks.{Effect, error, navigate, Panel, use_mutation}
use pipeline_azure.Web.Catalog.{CatalogApi, Value, create, use_create_product}

pub record ProductFormData (Price : Type 0) : Type 0 where
  pub title : String
  pub description : String
  pub price : Price
  pub category : String
  pub image : String

-- A field by its `name` in the form.
pub data Field : Type 0 where
  title description price category image : Field

-- A change of a field, with the text in it.
pub record Change : Type 0 where
  pub name : Field
  pub value : String

module _ {Price : Type 0} (zero : Price) (parse_float : String → Option Price)
    (is_positive : Price → Bool) (is_blank : String → Bool) where
  abbrev pub initial_form : ProductFormData Price
  initial_form = record { title = ""; description = ""; price = zero; category = ""; image = "" }

  -- `parseFloat(value) || 0`
  abbrev pub or_zero : Option Price → Price
  or_zero none = zero
  or_zero (some p) = p

  abbrev pub put_field : Field → String → ProductFormData Price → ProductFormData Price
  put_field title value form = record form { title = value }
  put_field description value form = record form { description = value }
  put_field price value form = record form { price = or_zero (parse_float value) }
  put_field category value form = record form { category = value }
  put_field image value form = record form { image = value }

  unfoldable pub handle_change : Change → ProductFormData Price → ProductFormData Price
  handle_change c form = put_field c.name c.value form

  unfoldable pub type_all : List Change → ProductFormData Price → ProductFormData Price
  unfolding handle_change
  type_all [] form = form
  type_all (c ∷ changes) form = type_all changes (handle_change c form)

  -- The first check that fails.
  unfoldable pub refusal : ProductFormData Price → Option String
  refusal form =
      if is_blank form.title
      then some "Product title is required"
      else if is_blank form.description
      then some "Product description is required"
      else if not (is_positive form.price)
      then some "Price must be greater than 0"
      else if form.category == ""
      then some "Please select a category"
      else if is_blank form.image
      then some "Product image URL is required"
      else none

  module _ {S Product Page : Type 0} (api : CatalogApi S Product (ProductFormData Price) Page Price)
      (not_found : ℕ → String) (no_results : Page) (client : QueryClient (Value Product Page)) where
    -- The `onSuccess` of the page, which runs after that of the hook.
    abbrev pub then_admin : Result String Product → Panel client.Cache S → Panel client.Cache S
    then_admin (ok product) p = record p { effects = p.effects ++ navigate "/admin" ∷ [] }
    then_admin (throw e) p = p

    abbrev pub submit_unless :
        Option String → ProductFormData Price → Panel client.Cache S → Panel client.Cache S
    submit_unless (some text) form p = record p { effects = p.effects ++ error text ∷ [] }
    submit_unless none form p =
        then_admin (create api not_found no_results form p.server).0
          (use_mutation client (use_create_product api not_found no_results form) p)

    unfoldable pub handle_submit :
        ProductFormData Price → Panel client.Cache S → Panel client.Cache S
    unfolding refusal
    handle_submit form p = submit_unless (refusal form) form p

    -- A click on the button of the form, with whether the browser finds its inputs valid.
    unfoldable pub click :
        (is_valid : Bool) → ProductFormData Price → Panel client.Cache S → Panel client.Cache S
    unfolding handle_submit
    click is_valid form p = if is_valid then handle_submit form p else p

    -- With the answer to the question of the button.
    unfoldable pub handle_cancel : (confirmed : Bool) → Panel client.Cache S → Panel client.Cache S
    handle_cancel confirmed p =
        if confirmed then record p { effects = p.effects ++ navigate "/admin" ∷ [] } else p
