-- ===== src/Admin/Api/Shop.antt =====
-- A small server to try the hooks with: its items are numbers, and it refuses the number 0.
use pipeline_azure.Prelude.{
  ℕ, ◌≡◌, refl, arith, true, false, Option, none, some, List, ◌∷◌, ok, nat_eq, ◌==◌, if◌then◌else◌,
  Bool-cases, inl, inr,
}
use pipeline_azure.Admin.Api.{Reply, is_accepted}

-- Items by identifier, and the list of what was sent.
abbrev pub Shop : Type 0
Shop = (ℕ → Option ℕ) × List ℕ

abbrev pub accept : {A : Type 0} → A → Reply A
accept a = ok (record { is_success = true; value = some a; message = none })

abbrev pub refuse : {A : Type 0} → Reply A
refuse = ok (record { is_success = false; value = none; message = some "no" })

abbrev pub reply : Option ℕ → Reply ℕ
reply none = refuse
reply (some n) = accept n

abbrev pub put : ℕ → Option ℕ → Shop → Shop
put i o (names, sent) = ((λ j. if i == j then o else names j), i ∷ sent)

put-other :
    (i j : ℕ) (o : Option ℕ) (s : Shop) → (i == j) ≡ false → reply ((put i o s).0 j) ≡ reply (s.0 j)
put-other i j o s h = rw h refl

abbrev pub sent_or_not : {A : Type 0} → A → ℕ → Shop → Shop → Reply A × Shop
sent_or_not a n s s' = if n == 0 then (refuse, s) else (accept a, s')

pub not_sent :
    {A : Type 0} (a : A) (n : ℕ) (s s' : Shop)
    → is_accepted (sent_or_not a n s s').0 ≡ false
    → (sent_or_not a n s s').1 ≡ s
not_sent a n s s' h = ground arith

pub sent-other :
    {A : Type 0} (a : A) (i j n : ℕ) (o : Option ℕ) (s : Shop)
    → (i == j) ≡ false
    → reply ((sent_or_not a n s (put i o s)).1.0 j) ≡ reply (s.0 j)
sent-other a i j n o s h = elim (Bool-cases (n == 0)) [
  | inl zero' ↦ rw zero' refl
  | inr more ↦ rw more (put-other i j o s h)
]

pub sent-none :
    {A : Type 0} (a : A) (j n : ℕ) (s : Shop)
    → reply ((sent_or_not a n s (s.0, n ∷ s.1)).1.0 j) ≡ reply (s.0 j)
sent-none a j n s = elim (Bool-cases (n == 0)) [
  | inl zero' ↦ rw zero' refl
  | inr more ↦ rw more refl
]
