-- ===== src/Prelude/Truthy.antt =====
-- JavaScript's truthiness of texts, `a || b`, and a result that may be an exception.
use Prim.Native.String.{String}
use mathlib.Core.Path.{◌≡◌}
use mathlib.Core.Bool.{Bool, true, false, not}
use mathlib.Core.Option.{Option, none, some}
use native.Mathlib.Omega.{arith}
use pipeline_azure.Prelude.Tests.{string_eq, ◌==◌, if◌then◌else◌}

-- `!!s` for a text: every text but the empty one.
abbrev pub is_truthy : String → Bool
is_truthy s = not (s == "")

-- `!!o` for a text that may be `null` or `undefined`.
abbrev pub is_truthy? : Option String → Bool
is_truthy? none = false
is_truthy? (some s) = is_truthy s

-- `o || d`
abbrev pub or_default : Option String → String → String
or_default none d = d
or_default (some s) d = if is_truthy s then s else d

pub or_default-is_truthy :
    (o : Option String) (d : String) → is_truthy d ≡ true → is_truthy (or_default o d) ≡ true
or_default-is_truthy none d h = h
or_default-is_truthy (some s) d h = ground arith

-- What an awaited call comes back with: a value, or what was thrown.
pub data Result {ℓ κ} (E : Type ℓ) (A : Type κ) : Type (ℓ ⊔ κ) where
  ok : A → Result E A
  throw : E → Result E A
