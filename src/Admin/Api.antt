-- ===== src/Admin/Api.antt =====
-- src/Presentation/Admin/src/lib/api/types.ts, ServiceResult, and what the hooks of
-- src/Presentation/Admin/src/hooks do with one. A call of the API throws with the text of the error,
-- or comes back with a result.
pub mod Shop
use pipeline_azure.Prelude.{
  List, [], ◌∷◌, refl, arith, ◌≡◌, arith, ◌≡◌, Bool, false, Option, none, some, String, Result, ok,
  throw, or_default, if◌then◌else◌,
}

-- `isSuccess` that is missing counts as false.
pub record ServiceResult (A : Type 0) : Type 0 where
  pub is_success : Bool
  pub value : Option A
  pub message : Option String

abbrev pub Reply : Type 0 → Type 0
Reply A = Result String (ServiceResult A)

module _ {A : Type 0} where
  abbrev pub is_accepted : Reply A → Bool
  is_accepted (throw e) = false
  is_accepted (ok r) = r.is_success

  -- `if (!result.isSuccess) throw new Error(result.message || text)`, and then `result.data`
  unfoldable pub accepted : String → Reply A → Result String (Option A)
  accepted text (throw e) = throw e
  accepted text (ok r) = if r.is_success then ok r.value else throw (or_default r.message text)

  abbrev found_or : Option A → Option String → String → Result String (Option A)
  found_or none message text = throw (or_default message text)
  found_or (some a) message text = ok (some a)

  -- `if (!result.isSuccess || !result.data) throw …`
  unfoldable pub found : String → Reply A → Result String (Option A)
  found text (throw e) = throw e
  found text (ok r) =
      if r.is_success then found_or r.value r.message text else throw (or_default r.message text)

  pub accepted-throw :
      (text e : String) (r : Reply A) → accepted text r ≡ throw e → is_accepted r ≡ false
  unfolding accepted
  accepted-throw text e (throw x) h = refl
  accepted-throw text e (ok r) h = ground arith
