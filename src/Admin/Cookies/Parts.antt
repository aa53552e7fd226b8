-- ===== src/Admin/Cookies/Parts.antt =====
-- cookies.ts: the parts of the text of the cookies, and the value that is read.
use mathlib.Core.Path.{subst}
use mathlib.Core.List.{append-nil}
use pipeline_azure.Prelude.{
  ◌≡◌, refl, sym, ◌∙◌, ap, true, false, Option, none, some, List, [], ◌∷◌, ◌++◌, arith, nat_eq,
  ◌==◌, Bool-cases, inl, inr,
}
use pipeline_azure.Admin.Cookies.{
  Text, text_eq, text_same_iff, semicolon, space, equals, starts_with, push, split_from, before,
  value_of_parts, Cookies, document_cookie, get_cookie,
}
use pipeline_azure.Admin.Cookies.Split.{
  free, IsName, lookup, IsClean, separator, entry, entries, push_all, split_from-own,
  split_from-other,
}

push_all-one : (s p : Text) → push_all s (p ∷ []) ≡ (s ++ p) ∷ []
push_all-one [] p = refl
push_all-one (c ∷ s) p = ap (push c) (push_all-one s p)

push_all-two : (s p q : Text) → push_all s (p ∷ q ∷ []) ≡ (s ++ p) ∷ q ∷ []
push_all-two [] p q = refl
push_all-two (c ∷ s) p q = ap (push c) (push_all-two s p q)

pub before-free : (s : Text) → free semicolon s ≡ true → before semicolon s ≡ s
unfolding before free
before-free [] h = refl
before-free (c ∷ s) h = ground (arith, before-free s)

before-entries :
    (v : Text) (jar : Cookies) → free semicolon v ≡ true → before semicolon (v ++ entries jar) ≡ v
unfolding before free
before-entries [] [] h = refl
before-entries [] ((n, w) ∷ jar) h = refl
before-entries (c ∷ v) jar h = ground (arith, before-entries v jar)

-- The parts that the parser gets, by what is stored under the name.
abbrev Parts : Text → Option Text → List Text → Type 0
Parts text none parts = parts ≡ text ∷ []
Parts text (some v) parts =
    (p : Text) × (q : Text) × (parts ≡ p ∷ q ∷ []) × (before semicolon q ≡ v)

-- A cookie of another name in front.
Parts-push_all :
    (s text : Text) (o : Option Text) (parts : List Text)
    → Parts text o parts
    → Parts (s ++ text) o (push_all s parts)
Parts-push_all s text none parts e = ap (push_all s) e ∙ push_all-one s text
Parts-push_all s text (some v) parts (p, q, e, b) =
    (s ++ p, q, ap (push_all s) e ∙ push_all-two s p q, b)

Parts-own :
    (n v : Text) (jar : Cookies)
    → IsName n
    → free semicolon v ≡ true
    → Parts (entries jar) none (split_from (separator n) 0 (entries jar))
    → Parts (entries ((n, v) ∷ jar)) (some v) (split_from (separator n) 0 (entries ((n, v) ∷ jar)))
Parts-own n v jar name v_free rest = (
  [],
  v ++ entries jar,
  split_from-own n v (entries jar) name v_free
      ∙ ap (λ parts. [] ∷ push_all v parts) rest
      ∙ ap (λ parts. [] ∷ parts) (push_all-one v (entries jar)),
  before-entries v jar v_free,
)

Parts-other :
    (n a v : Text) (jar : Cookies) (o : Option Text)
    → IsName n
    → IsName a
    → (a == n) ≡ false
    → free semicolon v ≡ true
    → Parts (entries jar) o (split_from (separator n) 0 (entries jar))
    → Parts (entries ((a, v) ∷ jar)) o (split_from (separator n) 0 (entries ((a, v) ∷ jar)))
Parts-other n a v jar o name a_name other v_free rest =
    subst (Parts (entries ((a, v) ∷ jar)) o)
      (sym (split_from-other n a v (entries jar) name a_name other v_free))
      (Parts-push_all (entry a v) (entries jar) o _ rest)

split_from-Parts :
    (n : Text) (jar : Cookies)
    → IsName n
    → IsClean jar
    → Parts (entries jar) (lookup n jar) (split_from (separator n) 0 (entries jar))
unfolding lookup split_from
split_from-Parts n [] name clean = refl
split_from-Parts n ((a, v) ∷ jar) name (a_name, v_free, alone, clean) =
    let rest = split_from-Parts n jar name clean in
    let parts = split_from (separator n) 0 in
    elim (Bool-cases (a == n)) [
      | inl own ↦
          let e = (text_same_iff a n).0 own in
          let gone = subst (λ b. lookup b jar ≡ none) e alone in
          rw own (
            subst (λ b. Parts (entries ((b, v) ∷ jar)) (some v) (parts (entries ((b, v) ∷ jar))))
              (sym e)
              (Parts-own n v jar name v_free
                (subst (λ o. Parts (entries jar) o (parts (entries jar))) gone rest)))
      | inr other ↦ rw other (Parts-other n a v jar (lookup n jar) name a_name other v_free rest)
    ]

entries-document_cookie :
    (n v : Text) (jar : Cookies)
    → semicolon ∷ space ∷ document_cookie ((n, v) ∷ jar) ≡ entries ((n, v) ∷ jar)
unfolding document_cookie
entries-document_cookie n v [] = ap (λ t. semicolon ∷ space ∷ t) (sym (append-nil _))
entries-document_cookie n v ((m, w) ∷ jar) =
    ap (λ t. semicolon ∷ space ∷ (n ++ equals ∷ v) ++ t) (entries-document_cookie m w jar)

value_of_parts-Parts :
    (text : Text) (o : Option Text) (parts : List Text)
    → Parts text o parts
    → value_of_parts parts ≡ o
value_of_parts-Parts text none parts e = ap value_of_parts e
value_of_parts-Parts text (some v) parts (p, q, e, b) = ap value_of_parts e ∙ ap some b

-- In a jar whose names stand once each, and hold neither ";" nor "=", and whose values hold no ";":
-- the parser finds in the text of all cookies just the value that is stored under a name.
pub get_cookie-lookup :
    (n : Text) (jar : Cookies) → IsName n → IsClean jar → get_cookie n jar ≡ lookup n jar
unfolding get_cookie document_cookie split_from lookup starts_with
get_cookie-lookup [] [] name clean = refl
get_cookie-lookup (c ∷ n) [] name clean = refl
get_cookie-lookup n ((m, w) ∷ jar) name clean =
    ap (λ t. value_of_parts (split_from (separator n) 0 t)) (entries-document_cookie m w jar)
    ∙ value_of_parts-Parts (entries ((m, w) ∷ jar)) _ _
        (split_from-Parts n ((m, w) ∷ jar) name clean)
