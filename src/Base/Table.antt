-- ===== src/Base/Table.antt =====
-- A table: its rows in order of insertion, each with a primary key.
use Prim.Native.Nat.{ℕ, zero, suc, ◌+◌, ◌≤◌}
use mathlib.Core.Path.{◌≡◌, refl, subst, sym, ◌∙◌}
use mathlib.Core.Bool.{Bool, true, ◌&&◌}
use mathlib.Core.Option.{Option, none, some}
use mathlib.Core.List.{List, [], ◌∷◌, ◌++◌}
use native.Mathlib.Omega.{arith}
use mathlib.Core.Logic.{inl, inr}
use mt_jobs.Base.Tests.{if◌then◌else◌, bit, ◌==◌, Bool-cases, ==→eq, eq→==}
use mt_jobs.Base.Lists.{filter, reject, take, count, any, All}

module _ {ℓ} {A : Type ℓ} (pk : A → ℕ) where
  -- SELECT … WHERE pk = i
  unfoldable pub find : ℕ → List A → Option A
  find i [] = none
  find i (x ∷ xs) = if pk x == i then some x else find i xs

  -- UPDATE … WHERE pk = the row's: the row takes the place of the one with its key.
  unfoldable pub save : A → List A → List A
  save r [] = []
  save r (x ∷ xs) = if pk x == pk r then r ∷ xs else x ∷ save r xs

  pub find-pk : (i : ℕ) (xs : List A) {r : A} → find i xs ≡ some r → pk r ≡ i
  unfolding find
  find-pk i [] h = ground arith
  find-pk i (x ∷ xs) {r} h = ground (arith, find-pk i xs {r = r})

  -- A row that was found is found under its own key.
  pub find-key :
      (i k : ℕ) (xs : List A) {r : A} → find i xs ≡ some r → k ≡ pk r → find k xs ≡ some r
  find-key i k xs {r} h e = subst (λ n. find n xs ≡ some r) (sym (e ∙ find-pk i xs h)) h

  pub find-save :
      (i : ℕ) (r x : A) (xs : List A)
      → find (pk r) xs ≡ some x
      → find i (save r xs) ≡ (if pk r == i then some r else find i xs)
  unfolding find save
  find-save i r x [] h = ground arith
  find-save i r x (y ∷ xs) h = ground (arith, find-save i r x xs)

  pub find-append :
      (i : ℕ) (r : A) (xs : List A)
      → find (pk r) xs ≡ none
      → find i (xs ++ r ∷ []) ≡ (if pk r == i then some r else find i xs)
  unfolding find
  find-append i r [] h = refl
  find-append i r (y ∷ xs) h = ground (arith, find-append i r xs)

  pub count-save :
      (p : A → Bool) (r x : A) (xs : List A)
      → find (pk r) xs ≡ some x
      → count p (save r xs) + bit (p x) ≡ count p xs + bit (p r)
  unfolding find save count
  count-save p r x [] h = ground arith
  count-save p r x (y ∷ xs) h = ground (arith, count-save p r x xs)

  pub count-find-le :
      (p : A → Bool) (i : ℕ) (xs : List A) {x : A} → find i xs ≡ some x → bit (p x) ≤ count p xs
  unfolding find count
  count-find-le p i [] h = ground arith
  count-find-le p i (y ∷ xs) {x} h = ground (arith, count-find-le p i xs {x = x})

  pub All-find {κ} :
      (P : A → Type κ) (i : ℕ) (xs : List A) {x : A} → All P xs → find i xs ≡ some x → P x
  unfolding find
  All-find P i [] a h = ground arith
  All-find P i (y ∷ xs) {x} a h = elim (Bool-cases (pk y == i)) [
    | inl e ↦ subst P (ground arith) a.0
    | inr e ↦ All-find P i xs {x = x} a.1 (ground arith)
  ]

  pub All-save {κ} : (P : A → Type κ) (r : A) (xs : List A) → All P xs → P r → All P (save r xs)
  unfolding save
  All-save P r [] a h = a
  All-save P r (y ∷ xs) a h = ground (arith, All-save P r xs a.1 h)

  -- No two rows have one key.
  abbrev pub IsKeyed : List A → Type ℓ
  IsKeyed [] = Unit
  IsKeyed (x ∷ xs) = (find (pk x) xs ≡ none) × IsKeyed xs

  find-save-none : (i : ℕ) (r : A) (xs : List A) → find i xs ≡ none → find i (save r xs) ≡ none
  unfolding find save
  find-save-none i r [] h = refl
  find-save-none i r (y ∷ xs) h = ground (arith, find-save-none i r xs)

  pub IsKeyed-save : (r : A) (xs : List A) → IsKeyed xs → IsKeyed (save r xs)
  unfolding save
  IsKeyed-save r [] k = k
  IsKeyed-save r (y ∷ xs) k = elim (Bool-cases (pk y == pk r)) [
    | inl e ↦ rw e (subst (λ n. find n xs ≡ none) (==→eq (pk y) (pk r) e) k.0, k.1)
    | inr e ↦ rw e (find-save-none (pk y) r xs k.0, IsKeyed-save r xs k.1)
  ]

  pub IsKeyed-append :
      (r : A) (xs : List A) → find (pk r) xs ≡ none → IsKeyed xs → IsKeyed (xs ++ r ∷ [])
  unfolding find
  IsKeyed-append r [] h k = (refl, tt)
  IsKeyed-append r (y ∷ xs) h k = elim (Bool-cases (pk y == pk r)) [
    | inl e ↦ absurd (ground arith)
    | inr e ↦
        let rest : find (pk r) xs ≡ none = ground arith in
        (ground (arith, find-append (pk y) r xs rest), IsKeyed-append r xs rest k.1)
  ]

  All-found_cons :
      (y : A) (xs ys : List A)
      → find (pk y) ys ≡ none
      → All (λ x. find (pk x) ys ≡ some x) xs
      → All (λ x. find (pk x) (y ∷ ys) ≡ some x) xs
  unfolding find
  All-found_cons y [] ys h a = tt
  All-found_cons y (x ∷ xs) ys h a = elim (Bool-cases (pk y == pk x)) [
    | inl e ↦ absurd (apart (==→eq (pk y) (pk x) e))
    | inr e ↦ (rw e a.0, All-found_cons y xs ys h a.1)
  ]
    where
      apart : pk y ≡ pk x → ⊥
      apart e = cc (subst (λ n. find n ys ≡ none) e h)

  -- Each row is the one that its key finds.
  pub IsKeyed-found : (xs : List A) → IsKeyed xs → All (λ x. find (pk x) xs ≡ some x) xs
  unfolding find
  IsKeyed-found [] k = tt
  IsKeyed-found (x ∷ xs) k =
      (rw (eq→== (pk x) (pk x) refl) refl, All-found_cons x xs xs k.0 (IsKeyed-found xs k.1))

module _ {ℓ} {A : Type ℓ} where
  pub All-filter {κ} :
      (P : A → Type κ) (p : A → Bool) (xs : List A)
      → All P xs
      → All (λ x. P x × (p x ≡ true)) (filter p xs)
  unfolding filter
  All-filter P p [] a = tt
  All-filter P p (x ∷ xs) a = elim (Bool-cases (p x)) [
    | inl e ↦ rw e ((a.0, e), All-filter P p xs a.1)
    | inr e ↦ rw e (All-filter P p xs a.1)
  ]

  pub All-take {κ} : (P : A → Type κ) (n : ℕ) (xs : List A) → All P xs → All P (take n xs)
  unfolding take
  All-take P zero xs a = tt
  All-take P (suc n) [] a = tt
  All-take P (suc n) (x ∷ xs) a = (a.0, All-take P n xs a.1)

  pub All-map {κ} : (P Q : A → Type κ) (xs : List A) → ((x : A) → P x → Q x) → All P xs → All Q xs
  All-map P Q [] f a = tt
  All-map P Q (x ∷ xs) f a = (f x a.0, All-map P Q xs f a.1)

  pub count-append :
      (p : A → Bool) (xs : List A) (r : A) → count p (xs ++ r ∷ []) ≡ count p xs + bit (p r)
  unfolding count
  count-append p [] r = omega arith
  count-append p (x ∷ xs) r = omega (arith, count-append p xs r)

  -- What a DELETE removes is counted by both tests together.
  pub count-reject :
      (p q : A → Bool) (xs : List A)
      → count p (reject q xs) + count (λ x. q x && p x) xs ≡ count p xs
  unfolding count reject
  count-reject p q [] = refl
  count-reject p q (x ∷ xs) = ground (arith, count-reject p q xs)

  pub count-le :
      (p q : A → Bool) (xs : List A) → ((x : A) → p x ≡ true → q x ≡ true) → count p xs ≤ count q xs
  unfolding count
  count-le p q [] h = omega arith
  count-le p q (x ∷ xs) h = ground (arith, h x, count-le p q xs h)

  pub All-append {κ} :
      (P : A → Type κ) (xs : List A) (r : A) → All P xs → P r → All P (xs ++ r ∷ [])
  All-append P [] r a h = (h, tt)
  All-append P (x ∷ xs) r a h = (a.0, All-append P xs r a.1 h)

  pub any-append : (p : A → Bool) (xs : List A) (r : A) → p r ≡ true → any p (xs ++ r ∷ []) ≡ true
  unfolding any
  any-append p [] r h = rw h
  any-append p (x ∷ xs) r h = ground (arith, any-append p xs r h)
