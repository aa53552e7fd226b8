-- ===== src/Admin/Table/Trim.antt =====
-- Texts as JavaScript has them, lists of UTF-16 code units, and `String.prototype.trim`.
use pipeline_azure.Prelude.{
  ℕ, Bool, true, false, ◌&&◌, ◌||◌, List, [], ◌∷◌, nat_beq, leb, if◌then◌else◌,
}

abbrev pub Text : Type 0
Text = List ℕ

-- The white space and the line ends of ECMAScript.
abbrev is_space : ℕ → Bool
is_space u =
    (leb 9 u && leb u 13)
    || nat_beq u 32
    || nat_beq u 160
    || nat_beq u 5760
    || (leb 8192 u && leb u 8202)
    || (leb 8232 u && leb u 8233)
    || nat_beq u 8239
    || nat_beq u 8287
    || nat_beq u 12288
    || nat_beq u 65279

abbrev pub is_empty : Text → Bool
is_empty [] = true
is_empty (u ∷ us) = false

unfoldable trim_start : Text → Text
trim_start [] = []
trim_start (u ∷ us) = let rest = trim_start us in if is_space u then rest else u ∷ us

unfoldable trim_end : Text → Text
trim_end [] = []
trim_end (u ∷ us) = let rest = trim_end us in if is_space u && is_empty rest then [] else u ∷ rest

unfoldable pub trim : Text → Text
unfolding trim_start trim_end
trim t = trim_end (trim_start t)
