-- ===== src/Admin/Cookies/Jar.antt =====
-- cookies.ts: the three functions together, on a jar whose cookies can be told apart.
use pipeline_azure.Prelude.{
  ap, ℕ, ◌≡◌, refl, ◌∙◌, true, false, none, some, [], ◌∷◌, arith, nat_eq, ◌==◌, Bool-cases, inl,
  inr, if◌then◌else◌,
}
use pipeline_azure.Admin.Cookies.{
  trimmed, Text, text_eq, text_same_iff, semicolon, before, trim_start, trim_end, cookie_value,
  Cookies, get_cookie, drop_cookie, put_cookie, set_cookie, remove_cookie,
}
use pipeline_azure.Admin.Cookies.Split.{free, IsName, lookup, IsClean}
use pipeline_azure.Admin.Cookies.Parts.{get_cookie-lookup}

free-before : (s : Text) → free semicolon (before semicolon s) ≡ true
unfolding free before
free-before [] = refl
free-before (c ∷ s) = ground (arith, free-before s)

free-trim_start : (s : Text) → free semicolon s ≡ true → free semicolon (trim_start s) ≡ true
unfolding free trim_start
free-trim_start [] h = refl
free-trim_start (c ∷ s) h = ground (arith, h, free-trim_start s)

free-trim_end : (s : Text) → free semicolon s ≡ true → free semicolon (trim_end s) ≡ true
unfolding free trim_end
free-trim_end [] h = refl
free-trim_end (c ∷ s) h = ground (arith, h, free-trim_end s)

free-cookie_value : (s : Text) → free semicolon (cookie_value s) ≡ true
unfolding cookie_value trimmed
free-cookie_value s = free-trim_end _ (free-trim_start _ (free-before s))

lookup-drop_cookie :
    (n j : Text) (jar : Cookies)
    → lookup j (drop_cookie n jar) ≡ (if n == j then none else lookup j jar)
unfolding lookup drop_cookie
lookup-drop_cookie n j [] = ground arith
lookup-drop_cookie n j ((m, w) ∷ jar) =
    ground
      (arith, text_same_iff m n, text_same_iff m j, text_same_iff n j, lookup-drop_cookie n j jar)

lookup-put_cookie :
    (n j v : Text) (jar : Cookies)
    → lookup j (put_cookie n v jar) ≡ (if n == j then some v else lookup j jar)
unfolding lookup put_cookie
lookup-put_cookie n j v [] = refl
lookup-put_cookie n j v ((m, w) ∷ jar) =
    ground
      (arith, text_same_iff m n, text_same_iff m j, text_same_iff n j, lookup-put_cookie n j v jar)

drop_cookie-IsClean : (n : Text) (jar : Cookies) → IsClean jar → IsClean (drop_cookie n jar)
unfolding drop_cookie
drop_cookie-IsClean n [] clean = tt
drop_cookie-IsClean n ((m, w) ∷ jar) (name, v_free, alone, clean) = elim (Bool-cases (m == n)) [
  | inl own ↦ rw own (drop_cookie-IsClean n jar clean)
  | inr other ↦ rw other (
    name,
    v_free,
    lookup-drop_cookie n m jar ∙ ground (arith, alone),
    drop_cookie-IsClean n jar clean,
  )
]

put_cookie-IsClean :
    (n v : Text) (jar : Cookies)
    → IsName n
    → free semicolon v ≡ true
    → IsClean jar
    → IsClean (put_cookie n v jar)
unfolding put_cookie lookup
put_cookie-IsClean n v [] name h clean = (name, h, refl, tt)
put_cookie-IsClean n v ((m, w) ∷ jar) name h (m_name, w_free, alone, clean) =
    elim (Bool-cases (m == n)) [
      | inl own ↦ rw own (m_name, h, alone, clean)
      | inr other ↦ rw other (
        m_name,
        w_free,
        lookup-put_cookie n m v jar ∙ ground (arith, alone, text_same_iff n m, text_same_iff m n),
        put_cookie-IsClean n v jar name h clean,
      )
    ]

module _ (n : Text) (jar : Cookies) (name : IsName n) (clean : IsClean jar) where
  set_cookie-named :
      (v : Text) (max_age : ℕ)
      → set_cookie n v max_age jar
        ≡ (if max_age == 0 then drop_cookie n jar else put_cookie n (cookie_value v) jar)
  unfolding set_cookie IsName
  set_cookie-named v max_age =
      ap (λ m. if max_age == 0 then drop_cookie m jar else put_cookie m (cookie_value v) jar) name.2

  remove_cookie-named : remove_cookie n jar ≡ drop_cookie n jar
  unfolding remove_cookie IsName
  remove_cookie-named = ap (λ m. drop_cookie m jar) name.2

  pub set_cookie-IsClean : (v : Text) (max_age : ℕ) → IsClean (set_cookie n v max_age jar)
  set_cookie-IsClean v max_age = rw (set_cookie-named v max_age) (elim (Bool-cases (max_age == 0)) [
    | inl gone ↦ rw gone (drop_cookie-IsClean n jar clean)
    | inr kept ↦
        rw kept (put_cookie-IsClean n (cookie_value v) jar name (free-cookie_value v) clean)
  ])

  pub remove_cookie-IsClean : IsClean (remove_cookie n jar)
  remove_cookie-IsClean = rw remove_cookie-named (drop_cookie-IsClean n jar clean)

  pub get_cookie-set_cookie :
      (j v : Text) (max_age : ℕ)
      → IsName j
      → (max_age == 0) ≡ false
      → get_cookie j (set_cookie n v max_age jar)
        ≡ (if n == j then some (cookie_value v) else get_cookie j jar)
  get_cookie-set_cookie j v max_age j_name kept =
      get_cookie-lookup j _ j_name (set_cookie-IsClean v max_age)
      ∙ rw (set_cookie-named v max_age, kept, get_cookie-lookup j jar j_name clean)
          (lookup-put_cookie n j (cookie_value v) jar)

  -- In such a jar, and for such names: a cookie that was removed is not found, and every other cookie as before.
  pub get_cookie-remove_cookie :
      (j : Text)
      → IsName j
      → get_cookie j (remove_cookie n jar) ≡ (if n == j then none else get_cookie j jar)
  get_cookie-remove_cookie j j_name =
      get_cookie-lookup j _ j_name remove_cookie-IsClean
      ∙ rw (remove_cookie-named, get_cookie-lookup j jar j_name clean) (lookup-drop_cookie n j jar)
