-- ===== src/Base/Queries.antt =====
-- What holds of the rows that a query returns holds of those that it selects.
use Prim.Native.Nat.{ℕ, zero, suc, ◌≤◌}
use mathlib.Core.Path.{◌≡◌, refl, ap, ◌∙◌}
use native.Mathlib.Omega.{arith}
use mathlib.Core.Bool.{Bool, true}
use mathlib.Core.Logic.{inl, inr}
use mathlib.Core.List.{List, [], ◌∷◌, map}
use mt_jobs.Base.Tests.{Bool-cases}
use mt_jobs.Base.Lists.{filter, take, count, length, All}
use mt_jobs.Base.Sort.{insert_sorted, order_by}

module _ {ℓ κ} {A : Type ℓ} (P : A → Type κ) where
  pub All-selected :
      (p : A → Bool) (xs : List A) → All P (filter p xs) → All (λ x. p x ≡ true → P x) xs
  unfolding filter
  All-selected p [] a = tt
  All-selected p (x ∷ xs) a = elim (Bool-cases (p x)) [
    | inl e ↦ let a' = rw e at a in (λ _. a'.0, All-selected p xs a'.1)
    | inr e ↦ ((λ h. cc (h, e)), All-selected p xs (rw e at a))
  ]

  module _ (before : A → A → Bool) where
    All-inserted : (x : A) (ys : List A) → All P (insert_sorted before x ys) → P x × All P ys
    unfolding insert_sorted
    All-inserted x [] a = a
    All-inserted x (y ∷ ys) a = elim (Bool-cases (before x y)) [
      | inl e ↦ rw e at a
      | inr e ↦ let a' = rw e at a in let (h, rest) = All-inserted x ys a'.1 in (h, (a'.0, rest))
    ]

    pub All-ordered : (xs : List A) → All P (order_by before xs) → All P xs
    unfolding order_by
    All-ordered [] a = tt
    All-ordered (x ∷ xs) a =
        let (h, rest) = All-inserted x (order_by before xs) a in (h, All-ordered xs rest)

-- How many rows a query returns.
module _ {ℓ} {A : Type ℓ} where
  length-insert_sorted :
      (before : A → A → Bool) (x : A) (ys : List A)
      → length (insert_sorted before x ys) ≡ suc (length ys)
  unfolding insert_sorted
  length-insert_sorted before x [] = refl
  length-insert_sorted before x (y ∷ ys) = ground (arith, length-insert_sorted before x ys)

  pub length-order_by :
      (before : A → A → Bool) (xs : List A) → length (order_by before xs) ≡ length xs
  unfolding order_by
  length-order_by before [] = refl
  length-order_by before (x ∷ xs) =
      length-insert_sorted before x (order_by before xs) ∙ ap suc (length-order_by before xs)

  pub length-filter : (p : A → Bool) (xs : List A) → length (filter p xs) ≡ count p xs
  unfolding filter count
  length-filter p [] = refl
  length-filter p (x ∷ xs) = ground (arith, length-filter p xs)

  pub take_all : (n : ℕ) (xs : List A) → length xs ≤ n → take n xs ≡ xs
  unfolding take
  take_all zero [] h = refl
  take_all zero (x ∷ xs) h = absurd (omega arith)
  take_all (suc n) [] h = refl
  take_all (suc n) (x ∷ xs) h = ap (λ (ys : List A). x ∷ ys) (take_all n xs (omega arith))

pub All-mapped {ℓ κ μ} :
    {A : Type ℓ} {B : Type κ} (P : B → Type μ) (f : A → B) (xs : List A)
    → All (λ x. P (f x)) xs
    → All P (map f xs)
All-mapped P f [] a = tt
All-mapped P f (x ∷ xs) a = (a.0, All-mapped P f xs a.1)

pub All-unmapped {ℓ κ μ} :
    {A : Type ℓ} {B : Type κ} (P : B → Type μ) (f : A → B) (xs : List A)
    → All P (map f xs)
    → All (λ x. P (f x)) xs
All-unmapped P f [] a = tt
All-unmapped P f (x ∷ xs) a = (a.0, All-unmapped P f xs a.1)

pub length-mapped {ℓ κ} :
    {A : Type ℓ} {B : Type κ} (f : A → B) (xs : List A) → length (map f xs) ≡ length xs
length-mapped f [] = refl
length-mapped f (x ∷ xs) = ap suc (length-mapped f xs)
