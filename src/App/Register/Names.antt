-- ===== src/App/Register/Names.antt =====
-- RegisterScreen: the two names of the request.
use pipeline_azure.Prelude.{
  ℕ, ◌≡◌, refl, sym, ◌∙◌, ap, Bool, true, false, not, ◌&&◌, List, [], ◌∷◌, ◌++◌, arith, nat_eq,
  ◌==◌, Bool-cases, inl, inr, if◌then◌else◌,
}
use pipeline_azure.App.Register.{
  Text, space, RegisterFormData, Request, split, join, is_empty, or_else, trim_start, trim_end,
  trim, on_submit,
}

-- `!text.includes(' ')`
unfoldable pub is_word : Text → Bool
is_word [] = true
is_word (c ∷ s) = not (c == space) && is_word s

-- The two names with a space between.
abbrev pub full_name : Request → Text
full_name r = r.first_name ++ space ∷ r.last_name

abbrev is_nil : List Text → Bool
is_nil [] = true
is_nil (part ∷ parts) = false

-- The parts of a text, put together again.
record Split (t : Text) : Type 0 where
  first : Text
  later : List Text
  parts : split t ≡ first ∷ later
  whole : join (first ∷ later) ≡ t
  word : is_word t ≡ is_nil later

join-push :
    (c : ℕ) (t first : Text) (later : List Text)
    → join (first ∷ later) ≡ t
    → join ((c ∷ first) ∷ later) ≡ c ∷ t
join-push c t first [] h = ap (c ∷◌) h
join-push c t first (next ∷ later) h = ap (c ∷◌) h

space-same : (c : ℕ) → (c == space) ≡ true → c ≡ space
space-same c h = ground arith

split_lem : (t : Text) → Split t
unfolding split is_word
split_lem [] = record { first = []; later = []; parts = refl; whole = refl; word = refl }
split_lem (c ∷ t) =
    let s = split_lem t in
    elim (Bool-cases (c == space)) [
      | inl own ↦ record {
        first = [];
        later = s.first ∷ s.later;
        parts = rw own (ap ([] ∷◌) s.parts);
        whole = rw s.whole (ap (◌∷ t) (sym (space-same c own)));
        word = rw own refl;
      }
      | inr other ↦ record {
        first = c ∷ s.first;
        later = s.later;
        parts = rw (other, s.parts) refl;
        whole = join-push c t s.first s.later s.whole;
        word = rw other s.word;
      }
    ]

module _ (is_space : ℕ → Bool) where
  ends_blank : Text → Bool
  ends_blank [] = false
  ends_blank (c ∷ []) = is_space c
  ends_blank (c ∷ d ∷ s) = ends_blank (d ∷ s)

  push-ends :
      (c : ℕ) (s : Text) (b : Bool)
      → is_space c ≡ b
      → ends_blank s ≡ false
      → ends_blank (if is_empty s && b then [] else c ∷ s) ≡ false
  unfolding ends_blank
  push-ends c [] true e h = refl
  push-ends c [] false e h = e
  push-ends c (d ∷ s) b e h = h

  ends_blank-trim_end : (s : Text) → ends_blank (trim_end is_space s) ≡ false
  unfolding ends_blank trim_end
  ends_blank-trim_end [] = refl
  ends_blank-trim_end (c ∷ s) =
      push-ends c (trim_end is_space s) (is_space c) refl (ends_blank-trim_end s)

  ends_blank-append : is_space space ≡ true → (t : Text) → ends_blank (t ++ space ∷ []) ≡ true
  unfolding ends_blank
  ends_blank-append h [] = h
  ends_blank-append h (c ∷ []) = h
  ends_blank-append h (c ∷ d ∷ t) = ends_blank-append h (d ∷ t)

  module _ (blank : is_space space ≡ true) where
    second_part :
        (t first j : Text)
        → first ++ space ∷ j ≡ t
        → ends_blank t ≡ false
        → first ++ space ∷ or_else j first ≡ t
    second_part t first [] w h =
        ground (arith, sym (ends_blank-append blank first) ∙ ap ends_blank w ∙ h)
    second_part t first (c ∷ s) w h = w

    both_parts :
        (t first : Text) (later : List Text)
        → join (first ∷ later) ≡ t
        → ends_blank t ≡ false
        → first ++ space ∷ or_else (join later) first ≡ (if is_nil later then t ++ space ∷ t else t)
    both_parts t first [] w h = rw w refl
    both_parts t first (next ∷ later) w h = second_part t first (join (next ∷ later)) w h

    -- If the space counts as white space: the two names of the request, with a space between, are
    -- the trimmed name, or, if that is one word, this word twice.
    pub full_name-on_submit :
        (form : RegisterFormData)
        → let name = trim is_space form.name in
          full_name (on_submit is_space form)
          ≡ (if is_word name then name ++ space ∷ name else name)
    unfolding on_submit trim
    full_name-on_submit form =
        let name = trim is_space form.name in
        let s = split_lem name in
        rw (s.parts, s.word)
          (both_parts name s.first s.later s.whole
            (ends_blank-trim_end (trim_start is_space form.name)))
