-- ===== src/App/Auth/Sessions.antt =====
-- authSlice: what the state of the app is after the thunks.
use pipeline_azure.Prelude.{
  or_default-is_truthy, inr, inl, Bool-cases, ◌≡◌, refl, sym, ap, ◌∙◌, true, false, Option, none,
  some, String, Result, ok, throw, is_truthy,
}
use pipeline_azure.App.Api.{ApiError, error_text, error_text-is_truthy}
use pipeline_azure.App.Auth.{
  ended, login_pending, logout_fulfilled, Device, LoginRequest, AuthResponse, ApiResponse, Phone,
  App, Outcome, fulfilled, rejected, reduce, biometric_pending, save_session, remove_session, login,
  dispatch_login, with_credentials, dispatch_biometric_login, dispatch_logout, secure_get_item,
}
use pipeline_azure.App.Auth.Stored.{save_session-reads, remove_session-reads}

abbrev reason : {A : Type 0} → Outcome A → String
reason (fulfilled a) = "fulfilled"
reason (rejected e) = e

module _ {A B : Type 0} (storage : Device A) (secure : Device B) where
  pub login-saved :
      (c : LoginRequest) (reply : ApiResponse) (p p' : Phone A B) (r : Result ApiError ApiResponse)
      → r ≡ ok reply
      → reply.is_success ≡ true
      → save_session storage secure c reply.payload p ≡ (ok tt, p')
      → login storage secure c r p ≡ (fulfilled reply.payload, p')
  unfolding login
  login-saved c reply p p' r h s saved =
      rw (h, s)
        (ap
          (λ o. elim o.0 [
            | ok u ↦ (fulfilled reply.payload, o.1)
            | throw e ↦ (rejected (error_text e "Login failed"), o.1)
          ])
          saved)

  saved-reason :
      (r : Result ApiError (Unit {0})) (payload : AuthResponse) (p : Phone A B)
      → let o : Outcome AuthResponse × Phone A B = elim r [
        | ok u ↦ (fulfilled payload, p)
        | throw e ↦ (rejected (error_text e "Login failed"), p)
      ] in
        is_truthy (reason o.0) ≡ true
  saved-reason (ok u) payload p = refl
  saved-reason (throw e) payload p = error_text-is_truthy e "Login failed" refl

  login-reason :
      (c : LoginRequest) (r : Result ApiError ApiResponse) (p : Phone A B)
      → is_truthy (reason (login storage secure c r p).0) ≡ true
  unfolding login
  login-reason c (throw e) p = error_text-is_truthy e "Login failed" refl
  login-reason c (ok reply) p = elim (Bool-cases reply.is_success) [
    | inl h ↦ rw h (
        saved-reason (save_session storage secure c reply.payload p).0 reply.payload
          (save_session storage secure c reply.payload p).1)
    | inr h ↦ rw h (or_default-is_truthy reply.message "Login failed" refl)
  ]

module _ {User A B : Type 0} (storage : Device A) (secure : Device B) where
  pub dispatch_logout-removed :
      (app : App User A B) (p : Phone A B)
      → remove_session storage secure app.phone ≡ (ok tt, p)
      → dispatch_logout storage secure app
        ≡ record { state = reduce app.state logout_fulfilled; phone = p }
  unfolding dispatch_logout
  dispatch_logout-removed app p h =
      ap
        (λ o. elim o.0 [
          | ok u ↦ record { state = reduce app.state logout_fulfilled; phone = o.1 }
          | throw e ↦ record app { phone = o.1 }
        ])
        h

  credentials_are_read :
      (post : LoginRequest → Result ApiError ApiResponse) (app : App User A B)
      (email password : Option String)
      → secure_get_item storage secure "user_email" app.phone ≡ email
      → secure_get_item storage secure "user_password" app.phone ≡ password
      → dispatch_biometric_login storage secure post app
        ≡ with_credentials storage secure post email password
            (record app { state = reduce app.state biometric_pending })
  unfolding dispatch_biometric_login
  credentials_are_read post app email password m w = λ i.
      with_credentials storage secure post (m i) (w i)
        (record app { state = reduce app.state biometric_pending })

  -- If all four stored texts could be removed, a login by biometrics after a logout fails for want of
  -- credentials, whatever the server would answer: nobody is logged in, and there is no token.
  pub biometric_login-logout :
      (post : LoginRequest → Result ApiError ApiResponse) (app : App User A B) (p : Phone A B)
      → remove_session storage secure app.phone ≡ (ok tt, p)
      → dispatch_biometric_login storage secure post (dispatch_logout storage secure app) ≡ record {
        state = record {
          user = none;
          token = none;
          is_authenticated = false;
          loading = false;
          error = some "No credentials stored for biometric login";
        };
        phone = p;
      }
  unfolding dispatch_biometric_login dispatch_logout with_credentials
  biometric_login-logout post app p h =
      let gone = remove_session-reads storage secure app.phone p h in
      ap (dispatch_biometric_login storage secure post) (dispatch_logout-removed app p h)
      ∙ credentials_are_read post (record { state = reduce app.state logout_fulfilled; phone = p })
          none none gone.0 gone.1

  -- If the server accepts a login and its four texts could be stored, a later login by biometrics
  -- repeats that login, with the same email and the same password.
  biometric_login-login :
      (post post' : LoginRequest → Result ApiError ApiResponse) (app : App User A B)
      (c : LoginRequest) (reply : ApiResponse) (p : Phone A B)
      → post c ≡ ok reply
      → reply.is_success ≡ true
      → save_session storage secure c reply.payload app.phone ≡ (ok tt, p)
      → let app' = dispatch_login storage secure post c app in
        dispatch_biometric_login storage secure post' app'
        ≡ with_credentials storage secure post'
            (some c.email)
            (some c.password)
            (record app' { state = reduce app'.state biometric_pending })
  unfolding dispatch_biometric_login dispatch_login login
  biometric_login-login post post' app c reply p h s saved =
      let app' = dispatch_login storage secure post c app in
      let stays : app'.phone ≡ p =
        λ i. (login-saved storage secure c reply app.phone p (post c) h s saved i).1 in
      let kept = save_session-reads storage secure c reply.payload app.phone p saved in
      credentials_are_read post' app' (some c.email) (some c.password)
        (ap (secure_get_item storage secure "user_email") stays ∙ kept.0)
        (ap (secure_get_item storage secure "user_password") stays ∙ kept.1)

  -- A login that fails, for whatever reason, leaves the token and whether somebody is logged in as they
  -- were, ends the loading, and shows a text that is not blank.
  dispatch_login-rejected :
      (post : LoginRequest → Result ApiError ApiResponse) (app : App User A B) (c : LoginRequest)
      (e : String) (p : Phone A B)
      → login storage secure c (post c) app.phone ≡ (rejected e, p)
      → (dispatch_login storage secure post c app
          ≡ record { state = record app.state { loading = false; error = some e }; phone = p })
        × (is_truthy e ≡ true)
  unfolding dispatch_login login
  dispatch_login-rejected post app c e p h = (
    λ i.
        let o = h i in
        record {
          state = reduce (reduce app.state login_pending) (ended storage secure o.0);
          phone = o.1;
        },
    ap (λ o. is_truthy (reason o.0)) (sym h) ∙ login-reason storage secure c (post c) app.phone,
  )

  -- A login by biometrics with stored credentials ends with somebody logged in even if the server
  -- refuses the request: the error is shown, and the token stays as it was.
  pub biometric_login-refused :
      (post : LoginRequest → Result ApiError ApiResponse) (app : App User A B) (c : LoginRequest)
      (refusal : ApiError)
      → secure_get_item storage secure "user_email" app.phone ≡ some c.email
      → secure_get_item storage secure "user_password" app.phone ≡ some c.password
      → is_truthy c.email ≡ true
      → is_truthy c.password ≡ true
      → post c ≡ throw refusal
      → dispatch_biometric_login storage secure post app ≡ record app {
        state = record app.state {
          is_authenticated = true;
          loading = false;
          error = some (error_text refusal "Login failed");
        };
      }
  unfolding dispatch_biometric_login with_credentials dispatch_login login
  biometric_login-refused post app c refusal m w e f r =
      credentials_are_read post app (some c.email) (some c.password) m w ∙ rw (e, f, r) refl
