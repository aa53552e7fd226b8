-- ===== src/Web/NewProduct/Tests.antt =====
-- AddProductPage on a small server, which keeps the titles of its products.
use pipeline_azure.Prelude.{
  false, true, ℕ, ◌≡◌, refl, Bool, not, Option, none, some, String, List, [], ◌∷◌, ok, throw,
  string_eq, nat_eq, ◌==◌, ◌||◌, if◌then◌else◌,
}
use pipeline_azure.Queries.Cache.{plain_client, Key}
use pipeline_azure.Queries.Hooks.{error, use_mutation, Effect, Panel, success, navigate}
use pipeline_azure.Web.Catalog.{get_by_id, create, use_create_product, CatalogApi, Value}
use pipeline_azure.Web.NewProduct.{
  refusal, handle_change, ProductFormData, title, description, price, category, image, Change,
  initial_form, type_all, click, handle_submit,
}
use pipeline_azure.Web.NewProduct.Filled.{filled, clicked, click-type_all}

abbrev Form : Type 0
Form = ProductFormData ℕ

abbrev Titles : Type 0
Titles = List String

abbrev api : CatalogApi Titles String Form ℕ ℕ
api = record {
  get_all = λ s. ok (some s);
  get_by_id = λ i s. ok (some "product");
  search = λ body s. ok none;
  create = λ n s. (ok (some 4), n.title ∷ s);
  update = λ i n s. (throw "no", s);
  delete = λ i s. (throw "no", s);
  create-throw = λ n s e h. cc;
  create-none = λ n s h. cc;
  create-ne-zero = λ n s h. cc;
  update-throw = λ i n s e h. refl;
  delete-throw = λ i s e h. refl;
  get_by_id-create = λ j n s p h. h;
  get_by_id-update = λ i j n s h. refl;
  get_by_id-delete = λ i j s h. refl;
}

-- The only number that is read.
abbrev parse_float : String → Option ℕ
parse_float s = if s == "15" then some 15 else none

abbrev is_positive : ℕ → Bool
is_positive n = not (n == 0)

abbrev is_blank : String → Bool
is_blank s = s == ""

abbrev change : Change
change = record { name = title; value = "Cup" }

abbrev changes : List Change
changes =
    change
    ∷ record { name = description; value = "white" }
    ∷ record { name = price; value = "15" }
    ∷ record { name = category; value = "Books" }
    ∷ record { name = image; value = "cup.png" }
    ∷ record { name = title; value = "Mug" }
    ∷ []

abbrev empty : Panel (Key → Option (Value String ℕ)) Titles
empty = record { cache = λ k. none; server = []; effects = [] }

-- The browser asks for every field, and here for nothing else.
abbrev is_valid : Form → Bool
is_valid form = not (
    form.title == ""
    || form.description == ""
    || form.price == 0
    || form.category == ""
    || form.image == "")

abbrev page : Bool → List Change → Panel (Key → Option (Value String ℕ)) Titles
page is_valid typed =
    click 0 parse_float is_positive is_blank api (λ i. "not found") 0 (plain_client _) is_valid
      (type_all 0 parse_float is_positive is_blank typed
        (initial_form 0 parse_float is_positive is_blank))
      empty

abbrev expected : Bool → List Change → Titles × List Effect
expected is_valid typed =
    let form =
      filled 0 parse_float is_positive is_blank (initial_form 0 parse_float is_positive is_blank)
        typed in
    clicked 0 parse_float is_positive is_blank api (λ i. "not found") 0 (plain_client _) is_valid
      form []

click-type_all_example :
    ((page true changes).server ≡ (expected true changes).0)
    × ((page true changes).effects ≡ (expected true changes).1)
click-type_all_example =
    click-type_all 0 parse_float is_positive is_blank api (λ i. "not found") 0 (plain_client _) true
      changes empty

page_example :
    ((page true changes).server ≡ "Mug" ∷ [])
    × ((page true changes).effects
        ≡ success "Product created successfully" ∷ navigate "/admin" ∷ [])
    × ((page true (change ∷ [])).effects ≡ error "Product description is required" ∷ [])
    × ((page false (change ∷ [])).effects ≡ [])
unfolding click handle_submit type_all handle_change refusal use_mutation use_create_product create
    get_by_id
page_example = (refl, refl, refl, refl)
