-- ===== src/Json.antt =====
-- The `JSON` of JavaScript as an interface: the texts that it makes of the values of one type.
use pipeline_azure.Prelude.{◌≡◌, refl, Bool, true, false, Option, none, some}

-- `JSON.stringify` and `JSON.parse` at one type; `none` is the `SyntaxError`.
pub record Json (Text A : Type 0) : Type 0 where
  pub stringify : A → Text
  pub parse : Text → Option A
  -- `!text`, which holds of "" alone
  pub is_blank : Text → Bool
  pub parse-stringify : (a : A) → parse (stringify a) ≡ some a
  pub stringify-is_blank : (a : A) → is_blank (stringify a) ≡ false

-- A codec to try things with: the text is the value, or absent for "".
abbrev pub plain_json : {A : Type 0} → Json (Option A) A
plain_json = record {
  stringify = some;
  parse = λ t. t;
  is_blank = elim [ none ↦ true | some _ ↦ false ];
  parse-stringify = λ a. refl;
  stringify-is_blank = λ a. refl;
}
