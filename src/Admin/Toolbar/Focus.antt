-- ===== src/Admin/Toolbar/Focus.antt =====
-- bulk-actions.tsx: where the keys leave the focus.
use Prim.Native.Nat.{◌%◌}
use native.Mathlib.Nat.{mod-eq_of_lt, add-mod_right, mod-suc}
use pipeline_azure.Prelude.{
  ℕ, zero, suc, ◌+◌, ◌-◌, ◌<◌, nat_eq, ◌==◌, ◌≡◌, sym, ap, ◌∙◌, arith, Bool, false, not, ◌||◌, some,
  List, [], ◌∷◌, if◌then◌else◌,
}
use pipeline_azure.Admin.Toolbar.{
  Toolbar, Key, arrow_right, arrow_left, home, end_key, escape, is_from_dropdown_trigger,
  is_from_dropdown_content,
}

-- A press of Escape that clears the selection.
abbrev pub clears : Key → Bool
clears (escape place) = not (is_from_dropdown_trigger place || is_from_dropdown_content place)
clears _ = false

-- A count without a bound: one step to the right adds one, and one to the left adds all buttons but
-- one; Home and End start again. Nothing counts after the selection was cleared.
abbrev pub counted : ℕ → Key → ℕ → ℕ
counted n arrow_right c = suc c
counted n arrow_left c = c + (n - 1)
counted n home c = 0
counted n end_key c = n - 1
counted n (escape place) c = c

unfoldable pub count_keys : ℕ → List Key → ℕ → ℕ
count_keys n [] c = c
count_keys n (key ∷ keys) c =
    let rest = count_keys n keys (counted n key c) in if clears key then c else rest

unfoldable pub is_cleared : List Key → Bool
is_cleared [] = false
is_cleared (key ∷ keys) = clears key || is_cleared keys

before : (n r : ℕ) → r < suc n → (if r == 0 then n else r - 1) ≡ (r + n) % suc n
before n zero h = let same : zero + n ≡ n = omega arith in rw same (sym (mod-suc n))
before n (suc k) h =
    let shifted : suc k + n ≡ k + suc n = omega arith in
    let smaller : (if suc k == 0 then n else suc k - 1) ≡ k = ground arith in
    let bound : k < suc n = omega (arith, h) in
    smaller ∙ sym (ap (λ x. x % suc n) shifted ∙ add-mod_right k (suc n) ∙ mod-eq_of_lt bound)

-- A toolbar whose focus is a count.
pub record At (n c s : ℕ) (t : Toolbar) : Type 0 where
  pub buttons : t.buttons ≡ suc n
  pub focus : t.focus ≡ some (c % suc n)
  pub selected_count : t.selected_count ≡ s
