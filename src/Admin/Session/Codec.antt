-- ===== src/Admin/Session/Codec.antt =====
-- A codec of texts to try the session with: a mark, and then the codes of the characters.
use Prim.Native.Char.{Char, code, IsLt}
use Prim.Native.Nat.{compare, Ordering}
use pipeline_azure.Prelude.{
  ◌≡◌, refl, ap, ℕ, Bool, true, false, Option, none, some, String, [], ◌∷◌,
}
use pipeline_azure.Json.{Json}
use pipeline_azure.Admin.Cookies.{Text, codes}

abbrev Both : Ordering → Ordering → Type 0
Both Ordering.lt o = IsLt o
Both Ordering.eq _ = ⊥
Both Ordering.gt _ = ⊥

abbrev Scalar : Ordering → Ordering → Ordering → Type 0
Scalar Ordering.lt _ _ = Unit
Scalar Ordering.eq o p = Both o p
Scalar Ordering.gt o p = Both o p

Scalar? : (a b c : Ordering) → Option (Scalar a b c)
Scalar? Ordering.lt b c = some tt
Scalar? Ordering.eq Ordering.lt Ordering.lt = some tt
Scalar? Ordering.gt Ordering.lt Ordering.lt = some tt
Scalar? _ _ _ = none

Scalar?-some : (a b c : Ordering) (p : Scalar a b c) → Scalar? a b c ≡ some p
unfolding Scalar?
Scalar?-some Ordering.lt b c p = refl
Scalar?-some Ordering.eq Ordering.lt Ordering.lt p = refl
Scalar?-some Ordering.gt Ordering.lt Ordering.lt p = refl
Scalar?-some _ _ _ p = absurd p

some_char : (n : ℕ) (a b c : Ordering) → (Scalar a b c → Char) → Option Char
unfolding Scalar?
some_char n a b c make = elim (Scalar? a b c) [ none ↦ none | some p ↦ some (make p) ]

char? : ℕ → Option Char
unfolding some_char
char? n = some_char n (compare n 55296) (compare 57343 n) (compare n 1114112) (λ p. Char.char n p)

char?-code : (c : Char) → char? (code c) ≡ some c
unfolding char? some_char
char?-code (Char.char n p) =
    ap (λ o. elim o as (λ _. Option Char) [ none ↦ none | some q ↦ some (Char.char n q) ])
      (Scalar?-some (compare n 55296) (compare 57343 n) (compare n 1114112) p)

abbrev in_front : Option Char → Option String → Option String
in_front none s = none
in_front (some c) none = none
in_front (some c) (some s) = some (String.◌∷◌ c s)

unfoldable pub decode : Text → Option String
unfolding char?
decode [] = some String.[]
decode (n ∷ t) = in_front (char? n) (decode t)

pub decode-codes : (s : String) → decode (codes s) ≡ some s
unfolding decode
decode-codes String.[] = refl
decode-codes (String.◌∷◌ c s) = rw (char?-code c, decode-codes s) refl

abbrev parse_marked : Text → Option String
parse_marked [] = none
parse_marked (q ∷ t) = decode t

abbrev is_empty : Text → Bool
is_empty [] = true
is_empty (c ∷ t) = false

abbrev pub marked_json : Json Text String
marked_json = record {
  stringify = λ s. 34 ∷ codes s;
  parse = parse_marked;
  is_blank = is_empty;
  parse-stringify = decode-codes;
  stringify-is_blank = λ s. refl;
}
