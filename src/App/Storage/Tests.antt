-- ===== src/App/Storage/Tests.antt =====
-- LocalStorageRepository on a small database, and its theorems at it.
use pipeline_azure.Prelude.{
  arith, All, ℕ, ◌≡◌, refl, false, Option, none, some, List, [], ◌∷◌, nat_eq, ◌==◌,
}
use pipeline_azure.Json.{plain_json}
use pipeline_azure.App.Cart.{CartItem}
use pipeline_azure.App.Database.{Database, World, Session}
use pipeline_azure.App.Storage.{Payload}
use pipeline_azure.App.Storage.Queue.{
  Change, adds, updates, removes, perform, outcome, perform-eq-outcome,
}
use pipeline_azure.App.Storage.Log.{
  row_quantity, replay, IsLogged, perform_all, Holds, Differs, HasQuantity, perform_all-Holds,
}

abbrev pub fresh : Database ℕ (Option (Payload ℕ))
fresh = record { products = []; cart_items = []; offline_queue = []; next_id = 1 }

abbrev pub start : Session ℕ (Option (Payload ℕ))
start = record { db = some fresh; moment = 0 }

abbrev pub steady : World
steady = record { fails = λ _. false; stamp = λ n. n }

-- The second statement fails.
abbrev pub cut_off : World
cut_off = record { fails = λ n. n == 1; stamp = λ n. n }

abbrev pub pen : CartItem ℕ
pen = record {
  id = 4;
  title = "pen";
  price = 120;
  description = "";
  category = "office";
  image = "";
  rating = record { rate = 4; count = 17 };
  quantity = 0;
}

abbrev pens : CartItem ℕ
pens = record pen { quantity = 2 }

abbrev changes : List (Change ℕ)
changes = adds pens ∷ updates 4 3 ∷ removes 5 ∷ []

perform-eq-outcome_example :
    perform plain_json cut_off (adds pen) start ≡ outcome plain_json cut_off (adds pen) start
perform-eq-outcome_example = perform-eq-outcome plain_json cut_off (adds pen) start

changes-HasQuantity : All (HasQuantity plain_json) changes
changes-HasQuantity = (omega arith, (tt, (tt, tt)))

fresh-IsLogged : IsLogged plain_json (λ _. none) fresh
unfolding IsLogged row_quantity replay
fresh-IsLogged = refl

perform_all-Holds_example :
    Holds plain_json steady (λ _. none) (perform_all plain_json steady changes start)
    × Differs plain_json steady
        (λ _. none)
        4
        (perform plain_json steady (adds pen) (perform_all plain_json steady changes start)).1
perform_all-Holds_example =
    perform_all-Holds plain_json steady (λ _. none) changes pen start (λ n. refl)
      changes-HasQuantity refl (fresh, refl, fresh-IsLogged)
