-- ===== src/App/Auth/Stored.antt =====
-- authSlice: what the stores of the phone hold after the statements of `login` and `logout`.
use package.text.Mathlib.Text.{◌==◌ as str_eq}
use pipeline_azure.Prelude.{
  ◌≡◌, refl, ap, ◌∙◌, false, Option, none, some, String, Result, ok, throw, arith,
}
use pipeline_azure.App.Api.{ApiError}
use pipeline_azure.App.Auth.{
  Device, LoginRequest, AuthResponse, Phone, Statement, on_secure, secure_set_item,
  secure_remove_item, secure_get_item, save_session, remove_session,
}

module _ {A B : Type 0} (storage : Device A) (secure : Device B) where
  -- A statement runs through and leaves the phone so.
  abbrev pub Leads : Statement storage secure → Phone A B → Phone A B → Type 0
  Leads m p p' = m p ≡ (ok tt, p')

  pub then-Leads :
      (r : Result ApiError (Unit {0}) × Phone A B) (k : Statement storage secure) (p'' : Phone A B)
      → (elim r.0 [ ok u ↦ k r.1 | throw e ↦ (throw e, r.1) ]) ≡ (ok tt, p'')
      → (p' : Phone A B) × (r ≡ (ok tt, p')) × Leads k p' p''
  then-Leads (ok tt, p') k p'' h = (p', refl, h)
  then-Leads (throw e, p') k p'' h = absurd (ground arith)

  read_secure :
      (r : Result ApiError B) (p p' : Phone A B)
      → ◌≡◌ {A = Result ApiError (Unit {0}) × Phone A B}
          (elim r [ ok b ↦ (ok tt, record p { secure_store = b }) | throw e ↦ (throw e, p) ])
          (ok tt, p')
      → r ≡ ok p'.secure_store
  read_secure (ok b) p p' h = λ i. ok (h i).1.secure_store
  read_secure (throw e) p p' h = absurd (ground arith)

  secure-Leads :
      (f : B → Result ApiError B) (p p' : Phone A B)
      → Leads (on_secure storage secure f) p p'
      → f p.secure_store ≡ ok p'.secure_store
  secure-Leads f p p' h = read_secure (f p.secure_store) p p' h

  -- What a key of the secure store is read as.
  abbrev read : String → Phone A B → Option String
  read = secure_get_item storage secure

  abbrev value_of : Result ApiError (Option String) → Option String
  value_of (ok v) = v
  value_of (throw e) = none

  read_set :
      (key value : String) (p p' : Phone A B)
      → Leads (secure_set_item storage secure key value) p p'
      → read key p' ≡ some value
  read_set key value p p' h = ground (
    arith,
    secure.get-set key value p.secure_store p'.secure_store
        (secure-Leads (secure.set_item_async key value) p p' h),
  )

  read_set_other :
      (key other value : String) (p p' : Phone A B)
      → Leads (secure_set_item storage secure key value) p p'
      → str_eq key other ≡ false
      → read other p' ≡ read other p
  read_set_other key other value p p' h d = ap value_of (
      secure.get-set_other key other value p.secure_store p'.secure_store
        (secure-Leads (secure.set_item_async key value) p p' h) d)

  read_remove :
      (key : String) (p p' : Phone A B)
      → Leads (secure_remove_item storage secure key) p p'
      → read key p' ≡ none
  read_remove key p p' h = ap value_of (
      secure.get-delete key p.secure_store p'.secure_store
        (secure-Leads (secure.delete_item_async key) p p' h))

  read_remove_other :
      (key other : String) (p p' : Phone A B)
      → Leads (secure_remove_item storage secure key) p p'
      → str_eq key other ≡ false
      → read other p' ≡ read other p
  read_remove_other key other p p' h d = ap value_of (
      secure.get-delete_other key other p.secure_store p'.secure_store
        (secure-Leads (secure.delete_item_async key) p p' h) d)

  pub save_session-reads :
      (c : LoginRequest) (r : AuthResponse) (p p' : Phone A B)
      → Leads (save_session storage secure c r) p p'
      → (read "user_email" p' ≡ some c.email) × (read "user_password" p' ≡ some c.password)
  unfolding save_session
  save_session-reads c r p p' h =
      let (p3, first, last) =
        then-Leads _ (secure_set_item storage secure "user_password" c.password) p' h in
      let (p2, earlier, mail) =
        then-Leads _ (secure_set_item storage secure "user_email" c.email) p3 first in
      (
        read_set_other "user_password" "user_email" c.password p3 p' last refl
            ∙ read_set "user_email" c.email p2 p3 mail,
        read_set "user_password" c.password p3 p' last,
      )

  pub remove_session-reads :
      (p p' : Phone A B)
      → Leads (remove_session storage secure) p p'
      → (read "user_email" p' ≡ none) × (read "user_password" p' ≡ none)
  unfolding remove_session
  remove_session-reads p p' h =
      let (p3, first, last) =
        then-Leads _ (secure_remove_item storage secure "user_password") p' h in
      let (p2, earlier, mail) =
        then-Leads _ (secure_remove_item storage secure "user_email") p3 first in
      (
        read_remove_other "user_password" "user_email" p3 p' last refl
            ∙ read_remove "user_email" p2 p3 mail,
        read_remove "user_password" p3 p' last,
      )
