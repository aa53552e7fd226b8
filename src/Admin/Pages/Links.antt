-- ===== src/Admin/Pages/Links.antt =====
-- getPageNumbers: what the links show.
use pipeline_azure.Prelude.{
  inr, inl, ◌⊎◌, ap, ℕ, zero, suc, ◌+◌, ◌-◌, ◌≤◌, ◌<◌, ◌≡◌, refl, Bool, true, false, List, [], ◌∷◌,
  ◌++◌, length, leb, if◌then◌else◌, arith,
}
use pipeline_azure.Admin.Pages.{Link, page, ellipsis, pages_from, push_range, get_page_numbers}

-- From the page `next` on, the links go to the page `last` in order; an ellipsis stands between two
-- pages and hides at least one.
unfoldable pub Covers : ℕ → List Link → ℕ → Type 0
Covers next [] last = next ≡ suc last
Covers next (page p ∷ links) last = (p ≡ next) × Covers (suc p) links last
Covers next (ellipsis ∷ []) last = ⊥
Covers next (ellipsis ∷ ellipsis ∷ links) last = ⊥
Covers next (ellipsis ∷ page p ∷ links) last = (next < p) × Covers (suc p) links last

-- A page has a link.
unfoldable pub Shows : ℕ → List Link → Type 0
Shows p [] = ⊥
Shows p (page q ∷ links) = (p ≡ q) ⊎ Shows p links
Shows p (ellipsis ∷ links) = Shows p links

pages_from-Covers : (i n last : ℕ) → i + n ≡ suc last → Covers i (pages_from i n) last
unfolding Covers pages_from
pages_from-Covers i zero last h = omega arith
pages_from-Covers i (suc n) last h = (refl, pages_from-Covers (suc i) n last (omega arith))

leb_cases : (i p : ℕ) → i ≤ p → (p ≡ i) ⊎ (suc i ≤ p)
leb_cases i p l = ground arith

pages_from-Shows : (p i n : ℕ) → i ≤ p → p < i + n → Shows p (pages_from i n)
unfolding Shows pages_from
pages_from-Shows p i zero l h = absurd (omega arith)
pages_from-Shows p i (suc n) l h = elim (leb_cases i p l) [
  | inl e ↦ inl e
  | inr m ↦ inr (pages_from-Shows p (suc i) n m (omega arith))
]

length-pages_from : (i n : ℕ) → length (pages_from i n) ≡ n
unfolding pages_from
length-pages_from i zero = refl
length-pages_from i (suc n) = ap suc (length-pages_from (suc i) n)

push_range-count :
    (first last n : ℕ) → first + n ≡ suc last → push_range first last ≡ pages_from first n
unfolding push_range
push_range-count first last n h = ap (pages_from first) (omega arith)

if-cases {ℓ} :
    {A : Type ℓ} (P : A → Type 0) (b : Bool) (x y : A)
    → (b ≡ true → P x)
    → (b ≡ false → P y)
    → P (if b then x else y)
if-cases P true x y f g = f refl
if-cases P false x y f g = g refl

leb-true : (a b : ℕ) → leb a b ≡ true → a ≤ b
leb-true a b h = ground arith

leb-false : (a b : ℕ) → leb a b ≡ false → b < a
leb-false a b h = ground arith

-- The four shapes of the list.
module _ (P : List Link → Type 0) (c t : ℕ) where
  get_page_numbers-cases :
      (t ≤ 5 → P (pages_from 1 t))
      → (5 < t → c ≤ 3 → P (pages_from 1 4 ++ (ellipsis ∷ page t ∷ [])))
      → (5 < t → 3 < c → t ≤ c + 2 → P (page 1 ∷ ellipsis ∷ pages_from (t - 3) 4))
      → (5 < t
          → 3 < c
          → c + 2 < t
          → P (page 1 ∷ ellipsis ∷ pages_from (c - 1) 3 ++ (ellipsis ∷ page t ∷ [])))
      → P (get_page_numbers c t)
  unfolding get_page_numbers pages_from
  get_page_numbers-cases few near_start near_end middle =
      if-cases P (leb t 5) _ _
        (λ h. rw (push_range-count 1 t t (omega arith)) (few (leb-true t 5 h)))
        (λ many.
          if-cases P (leb c 3) _ _ (λ h. near_start (leb-false t 5 many) (leb-true c 3 h))
            (λ far.
              if-cases P (leb (t - 2) c) _ _
                (λ h. rw (push_range-count (t - 3) t 4 (omega (arith, leb-false t 5 many))) (
                  near_end (leb-false t 5 many) (leb-false c 3 far)
                    (omega (arith, leb-true (t - 2) c h))))
                (λ h. rw (push_range-count (c - 1) (suc c) 3 (omega (arith, leb-false c 3 far))) (
                  middle (leb-false t 5 many) (leb-false c 3 far)
                    (omega (arith, leb-false (t - 2) c h))))))

-- For every page and every number of pages: the links go from the page 1 to the last one in order,
-- and each '...' stands between two pages and hides at least one.
get_page_numbers-Covers : (c t : ℕ) → Covers 1 (get_page_numbers c t) t
unfolding Covers pages_from
get_page_numbers-Covers c t =
    get_page_numbers-cases (λ links. Covers 1 links t) c t
      (λ few. pages_from-Covers 1 t t (omega arith))
      (λ many h. (refl, (refl, (refl, (refl, (omega arith, refl))))))
      (λ many far h. (refl, (omega arith, (refl, (refl, (refl, omega arith))))))
      (λ many far h. (refl, (omega arith, (refl, (refl, (omega arith, refl))))))

-- The current page has a link, if it is one of the pages.
get_page_numbers-Shows : (c t : ℕ) → 1 ≤ c → c ≤ t → Shows c (get_page_numbers c t)
unfolding Shows pages_from
get_page_numbers-Shows c t l h =
    get_page_numbers-cases (Shows c) c t (λ few. pages_from-Shows c 1 t l (omega arith))
      (λ many near. ground arith) (λ many far near. ground arith)
      (λ many far near. inr (inr (inl (omega arith))))

-- There are never more than seven links.
length-get_page_numbers-le : (c t : ℕ) → length (get_page_numbers c t) ≤ 7
unfolding pages_from
length-get_page_numbers-le c t =
    get_page_numbers-cases (λ links. length links ≤ 7) c t
      (λ few. omega (arith, length-pages_from 1 t)) (λ many near. omega arith)
      (λ many far near. omega arith) (λ many far near. omega arith)

-- For every page and every number of pages, if the page is one of them: the links go from the page 1
-- to the last one in order, each '...' stands between two pages and hides at least one, the current
-- page has a link, and there are never more than seven links.
pub get_page_numbers-Fits :
    (c t : ℕ)
    → 1 ≤ c
    → c ≤ t
    → Covers 1 (get_page_numbers c t) t
      × Shows c (get_page_numbers c t)
      × (length (get_page_numbers c t) ≤ 7)
get_page_numbers-Fits c t l h =
    (get_page_numbers-Covers c t, get_page_numbers-Shows c t l h, length-get_page_numbers-le c t)
