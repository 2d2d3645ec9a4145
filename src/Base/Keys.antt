-- ===== src/Base/Keys.antt =====
-- Queries keep the keys of a table apart.
use Prim.Native.Nat.{ℕ, zero, suc}
use mathlib.Core.Path.{◌≡◌, refl, sym, ◌∙◌}
use mathlib.Core.Logic.{◌⊎◌, inl, inr}
use mathlib.Core.Bool.{Bool, true, false}
use mathlib.Core.Option.{none, some}
use mathlib.Core.List.{List, [], ◌∷◌}
use native.Mathlib.Omega.{arith}
use mt_jobs.Base.Tests.{◌==◌, Bool-cases}
use mt_jobs.Base.Lists.{filter, take, All}
use mt_jobs.Base.Table.{find, save, IsKeyed}
use mt_jobs.Base.Sort.{insert_sorted, order_by}

module _ {ℓ} {A : Type ℓ} (pk : A → ℕ) where
  -- A key that is not in a table is that of no row.
  pub All-apart : (i : ℕ) (xs : List A) → find pk i xs ≡ none → All (λ x. (i == pk x) ≡ false) xs
  unfolding find
  All-apart i [] h = tt
  All-apart i (x ∷ xs) h = (ground arith, All-apart i xs (ground arith))

  find-filter-none :
      (i : ℕ) (p : A → Bool) (xs : List A) → find pk i xs ≡ none → find pk i (filter p xs) ≡ none
  unfolding find filter
  find-filter-none i p [] h = refl
  find-filter-none i p (x ∷ xs) h = ground (arith, find-filter-none i p xs)

  pub IsKeyed-filter : (p : A → Bool) (xs : List A) → IsKeyed pk xs → IsKeyed pk (filter p xs)
  unfolding filter
  IsKeyed-filter p [] k = tt
  IsKeyed-filter p (x ∷ xs) k = elim (Bool-cases (p x)) [
    | inl e ↦ rw e (find-filter-none (pk x) p xs k.0, IsKeyed-filter p xs k.1)
    | inr e ↦ rw e (IsKeyed-filter p xs k.1)
  ]

  find-take-none : (i n : ℕ) (xs : List A) → find pk i xs ≡ none → find pk i (take n xs) ≡ none
  unfolding find take
  find-take-none i zero xs h = refl
  find-take-none i (suc n) [] h = refl
  find-take-none i (suc n) (x ∷ xs) h = ground (arith, find-take-none i n xs)

  pub IsKeyed-take : (n : ℕ) (xs : List A) → IsKeyed pk xs → IsKeyed pk (take n xs)
  unfolding take
  IsKeyed-take zero xs k = tt
  IsKeyed-take (suc n) [] k = tt
  IsKeyed-take (suc n) (x ∷ xs) k = (find-take-none (pk x) n xs k.0, IsKeyed-take n xs k.1)

  module _ (before : A → A → Bool) where
    find-insert_none :
        (i : ℕ) (x : A) (ys : List A)
        → (pk x == i) ≡ false
        → find pk i ys ≡ none
        → find pk i (insert_sorted before x ys) ≡ none
    unfolding find insert_sorted
    find-insert_none i x [] n h = ground arith
    find-insert_none i x (y ∷ ys) n h = ground (arith, find-insert_none i x ys)

    find-order_none :
        (i : ℕ) (xs : List A) → find pk i xs ≡ none → find pk i (order_by before xs) ≡ none
    unfolding find order_by
    find-order_none i [] h = refl
    find-order_none i (x ∷ xs) h =
        find-insert_none i x (order_by before xs) (ground arith)
          (find-order_none i xs (ground arith))

    IsKeyed-insert :
        (x : A) (ys : List A)
        → find pk (pk x) ys ≡ none
        → IsKeyed pk ys
        → IsKeyed pk (insert_sorted before x ys)
    unfolding find insert_sorted
    IsKeyed-insert x [] h k = (refl, tt)
    IsKeyed-insert x (y ∷ ys) h k = elim (Bool-cases (before x y)) [
      | inl e ↦ rw e (h, k)
      | inr e ↦
          rw e (
            find-insert_none (pk y) x ys (ground arith) k.0,
            IsKeyed-insert x ys (ground arith) k.1,
          )
    ]

    pub IsKeyed-order_by : (xs : List A) → IsKeyed pk xs → IsKeyed pk (order_by before xs)
    unfolding order_by
    IsKeyed-order_by [] k = tt
    IsKeyed-order_by (x ∷ xs) k =
        IsKeyed-insert x (order_by before xs) (find-order_none (pk x) xs k.0)
          (IsKeyed-order_by xs k.1)

-- An update changes no row with another key.
pub find-save_other {ℓ} :
    {A : Type ℓ} (pk : A → ℕ) (i : ℕ) (r : A) (xs : List A)
    → (pk r == i) ≡ false
    → find pk i (save pk r xs) ≡ find pk i xs
unfolding find save
find-save_other pk i r [] h = refl
find-save_other pk i r (x ∷ xs) h = ground (arith, find-save_other pk i r xs)

find-written {ℓ} :
    {A : Type ℓ} (pk : A → ℕ) (i : ℕ) (r z : A) (xs : List A)
    → (pk r == i) ≡ true
    → find pk i (save pk r xs) ≡ some z
    → r ≡ z
unfolding find save
find-written pk i r z [] e h = cc h
find-written pk i r z (x ∷ xs) e h = elim (Bool-cases (pk x == pk r)) [
  | inl same ↦ let h' = rw (same, e) at h in cc h'
  | inr other ↦
      let apart : (pk x == i) ≡ false = ground arith in
      let h' = rw (other, apart) at h in find-written pk i r z xs e h'
]

-- What is found after an update is the row that was written, or it was found before.
pub find-saved {ℓ} :
    {A : Type ℓ} (pk : A → ℕ) (i : ℕ) (r z : A) (xs : List A)
    → find pk i (save pk r xs) ≡ some z
    → (z ≡ r) ⊎ ((find pk i xs ≡ some z) × ((pk r == i) ≡ false))
find-saved pk i r z xs h = elim (Bool-cases (pk r == i)) [
  | inr miss ↦ inr (sym (find-save_other pk i r xs miss) ∙ h, miss)
  | inl hit ↦ inl (sym (find-written pk i r z xs hit h))
]
