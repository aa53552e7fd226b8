-- ===== src/Admin/Cookies/Split.antt =====
-- cookies.ts: what the parser finds in the text of the cookies.
use mathlib.Core.Path.{ap₂}
use mathlib.Core.List.{append_assoc}
use pipeline_azure.Prelude.{
  ℕ, suc, ◌-◌, ◌≡◌, refl, sym, ◌∙◌, ap, Bool, true, false, not, ◌&&◌, Option, none, some, List, [],
  ◌∷◌, ◌++◌, arith, length, nat_eq, ◌==◌, if◌then◌else◌,
}
use pipeline_azure.Admin.Cookies.{
  Text, text_eq, text_same, text_same_iff, semicolon, space, equals, starts_with, push, split_from,
  Cookies, trimmed,
}

-- A text without a character.
unfoldable pub free : ℕ → Text → Bool
free c [] = true
free c (d ∷ s) = not (d == c) && free c s

-- Names that can stand before "=" and lose nothing of their ends there, and values that can stand before ";".
unfoldable pub IsName : Text → Type 0
IsName n = (free semicolon n ≡ true) × (free equals n ≡ true) × (trimmed n ≡ n)

unfoldable pub lookup : Text → Cookies → Option Text
lookup name [] = none
lookup name ((n, v) ∷ jar) = if n == name then some v else lookup name jar

-- Each name stands once, and every text can be read.
abbrev pub IsClean : Cookies → Type 0
IsClean [] = Unit {0}
IsClean ((n, v) ∷ jar) = IsName n × (free semicolon v ≡ true) × (lookup n jar ≡ none) × IsClean jar

abbrev pub separator : Text → Text
separator name = semicolon ∷ space ∷ name ++ equals ∷ []

abbrev pub entry : Text → Text → Text
entry n v = semicolon ∷ space ∷ n ++ equals ∷ v

abbrev pub entries : Cookies → Text
entries [] = []
entries ((n, v) ∷ jar) = entry n v ++ entries jar

abbrev pub push_all : Text → List Text → List Text
push_all [] parts = parts
push_all (c ∷ s) parts = push c (push_all s parts)

free-append : (c : ℕ) (s t : Text) → free c (s ++ t) ≡ (free c s && free c t)
unfolding free
free-append c [] t = refl
free-append c (d ∷ s) t = ground (arith, free-append c s t)

split_from-free :
    (name s rest : Text)
    → free semicolon s ≡ true
    → split_from (separator name) 0 (s ++ rest) ≡ push_all s (split_from (separator name) 0 rest)
unfolding split_from free starts_with
split_from-free name [] rest h = refl
split_from-free name (c ∷ s) rest h = ground (arith, split_from-free name s rest)

split_from-skip :
    (sep s rest : Text) → split_from sep (length s) (s ++ rest) ≡ split_from sep 0 rest
unfolding split_from
split_from-skip sep [] rest = refl
split_from-skip sep (c ∷ s) rest = split_from-skip sep s rest

starts_with-name :
    (a n rest : Text)
    → free equals a ≡ true
    → free equals n ≡ true
    → starts_with (a ++ equals ∷ rest) (n ++ equals ∷ []) ≡ (a == n)
unfolding starts_with free text_same
starts_with-name [] [] rest f g = refl
starts_with-name [] (d ∷ n) rest f g = ground (arith, g)
starts_with-name (c ∷ a) [] rest f g = ground (arith, f)
starts_with-name (c ∷ a) (d ∷ n) rest f g = ground (arith, f, g, starts_with-name a n rest)

-- Whether a cookie of the name `a` begins with the separator of the name `n`.
begins :
    (n a v rest : Text)
    → free equals a ≡ true
    → free equals n ≡ true
    → starts_with ((a ++ equals ∷ v) ++ rest) (n ++ equals ∷ []) ≡ (a == n)
begins n a v rest f g =
    ap (λ t. starts_with t (n ++ equals ∷ [])) (append_assoc a (equals ∷ v) rest)
    ∙ starts_with-name a n (v ++ rest) f g

passed :
    (sep n v rest : Text)
    → split_from sep (suc (suc (length (n ++ equals ∷ []))) - 1) (space ∷ (n ++ equals ∷ v) ++ rest)
      ≡ split_from sep 0 (v ++ rest)
passed sep n v rest =
    ap₂ (λ k t. split_from sep k (space ∷ t)) (omega arith)
      (append_assoc n (equals ∷ v) rest ∙ sym (append_assoc n (equals ∷ []) (v ++ rest)))
    ∙ split_from-skip sep (space ∷ n ++ equals ∷ []) (v ++ rest)

-- The separator at the cookie of its name, and at another one.
pub split_from-own :
    (n v rest : Text)
    → IsName n
    → free semicolon v ≡ true
    → split_from (separator n) 0 (entry n v ++ rest)
      ≡ [] ∷ push_all v (split_from (separator n) 0 rest)
unfolding split_from starts_with IsName
split_from-own n v rest (s, f, w) h =
    rw (begins n n v rest f f ∙ (text_same_iff n n).1 refl)
      (ap (λ parts. [] ∷ parts) (passed (separator n) n v rest ∙ split_from-free n v rest h))

pub split_from-other :
    (n a v rest : Text)
    → IsName n
    → IsName a
    → (a == n) ≡ false
    → free semicolon v ≡ true
    → split_from (separator n) 0 (entry a v ++ rest)
      ≡ push_all (entry a v) (split_from (separator n) 0 rest)
unfolding split_from starts_with IsName free
split_from-other n a v rest (s, f, w) (s', f', w') other h = rw (begins n a v rest f' f ∙ other) (
    ap (push semicolon) (
      ap (push space) (
        split_from-free n (a ++ equals ∷ v) rest
          (free-append semicolon a (equals ∷ v) ∙ ground (arith, s', h)))))
