-- ===== src/Prelude/Remove.antt =====
-- Sets kept as arrays without repetition: `includes`, `filter(x => x !== a)`, and what they keep.
use Prim.Native.Nat.{ℕ, zero, suc, ◌≤◌}
use mathlib.Core.Path.{◌≡◌, refl}
use mathlib.Core.Logic.{◌≢◌}
use mathlib.Core.Bool.{Bool, false, not, ◌||◌}
use mathlib.Core.List.{List, [], ◌∷◌, ◌++◌}
use native.Mathlib.Omega.{arith}
use pipeline_azure.Prelude.Tests.{Eq, ◌==◌}
use pipeline_azure.Prelude.Lists.{length, filter_by, take}

module _ {ℓ} {A : Type ℓ} ⦃e : Eq A⦄ where
  -- `xs.includes(a)`
  unfoldable pub includes : List A → A → Bool
  includes [] a = false
  includes (x ∷ xs) a = x == a || includes xs a

  -- `xs.filter(x => x !== a)`
  unfoldable pub remove : A → List A → List A
  remove a xs = filter_by (λ x. not (x == a)) xs

  -- No value stands twice in the array.
  abbrev pub IsDistinct : List A → Type ℓ
  IsDistinct [] = Unit
  IsDistinct (x ∷ xs) = (includes xs x ≡ false) × IsDistinct xs

  pub includes-remove_self : (a : A) (xs : List A) → includes (remove a xs) a ≡ false
  unfolding includes remove
  includes-remove_self a [] = refl
  includes-remove_self a (x ∷ xs) = ground (arith, includes-remove_self a xs)

  pub includes-remove_ne :
      (a b : A) (xs : List A) → a ≢ b → includes (remove a xs) b ≡ includes xs b
  unfolding includes remove
  includes-remove_ne a b [] h = refl
  includes-remove_ne a b (x ∷ xs) h =
      ground (arith, includes-remove_ne a b xs h, e.same_iff x a, e.same_iff x b)

  pub length-remove-le : (a : A) (xs : List A) → length (remove a xs) ≤ length xs
  unfolding remove
  length-remove-le a [] = omega arith
  length-remove-le a (x ∷ xs) = ground (arith, length-remove-le a xs)

  not_includes-remove :
      (a b : A) (xs : List A) → includes xs b ≡ false → includes (remove a xs) b ≡ false
  unfolding includes remove
  not_includes-remove a b [] h = refl
  not_includes-remove a b (x ∷ xs) h = ground (arith, not_includes-remove a b xs)

  pub remove-IsDistinct : (a : A) (xs : List A) → IsDistinct xs → IsDistinct (remove a xs)
  unfolding remove
  remove-IsDistinct a [] h = tt
  remove-IsDistinct a (x ∷ xs) (new, h) =
      ground (arith, remove-IsDistinct a xs h, not_includes-remove a x xs new)

  pub not_includes-take :
      (n : ℕ) (b : A) (xs : List A) → includes xs b ≡ false → includes (take n xs) b ≡ false
  unfolding includes
  not_includes-take zero b xs h = refl
  not_includes-take (suc n) b [] h = refl
  not_includes-take (suc n) b (x ∷ xs) h = ground (arith, not_includes-take n b xs)

  pub take-IsDistinct : (n : ℕ) (xs : List A) → IsDistinct xs → IsDistinct (take n xs)
  take-IsDistinct zero xs h = tt
  take-IsDistinct (suc n) [] h = tt
  take-IsDistinct (suc n) (x ∷ xs) (new, h) = (not_includes-take n x xs new, take-IsDistinct n xs h)

  pub includes-append :
      (xs ys : List A) (b : A) → includes (xs ++ ys) b ≡ (includes xs b || includes ys b)
  unfolding includes
  includes-append [] ys b = refl
  includes-append (x ∷ xs) ys b = ground (arith, includes-append xs ys b)

  pub concat-IsDistinct :
      (xs : List A) (a : A) → IsDistinct xs → includes xs a ≡ false → IsDistinct (xs ++ a ∷ [])
  unfolding includes
  concat-IsDistinct [] a h new = (refl, tt)
  concat-IsDistinct (x ∷ xs) a (first, h) new = (
    ground (arith, includes-append xs (a ∷ []) x, e.same_iff a x, e.same_iff x a),
    concat-IsDistinct xs a h (ground arith),
  )
