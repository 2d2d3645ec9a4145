-- ===== src/Store/Exec.antt =====
-- Code that reads and writes a state and may raise. What was written before a raise stays written,
-- so the state comes back beside the exception too; `atomic` takes it back.
use mt_jobs.Base.{◌≡◌, refl}
use mt_jobs.Domain.Exceptions.{Exception, Result, ok, err}

abbrev pub Exec {ℓ} : Type ℓ → Type ℓ → Type ℓ
Exec S A = S → Result A × S

module _ {ℓ} {S A : Type ℓ} where
  abbrev pub pure : A → Exec S A
  pure a s = (ok a, s)

  abbrev pub raise : Exception → Exec S A
  raise e s = (err e, s)

  abbrev pub lift : Result A → Exec S A
  lift r s = (r, s)

  abbrev pub gets : (S → A) → Exec S A
  gets f s = (ok (f s), s)

  abbrev pub roll_back : S → Result A × S → Result A × S
  roll_back s (ok a, s') = (ok a, s')
  roll_back s (err e, s') = (err e, s)

  pub roll_back_ok : (s : S) (r : Result A × S) {a : A} → r.0 ≡ ok a → roll_back s r ≡ r
  roll_back_ok s (ok a, s') h = refl
  roll_back_ok s (err e, s') h = cc

  -- A transaction keeps what its body keeps.
  pub roll_back-keeps {κ} :
      (P : S → Type κ) (s : S) (r : Result A × S) → P s → P r.1 → P (roll_back s r).1
  roll_back-keeps P s (ok a, s') h k = k
  roll_back-keeps P s (err e, s') h k = h

  -- `with transaction.atomic():` a transaction that raises writes nothing.
  abbrev pub atomic : Exec S A → Exec S A
  atomic m s = roll_back s (m s)

  abbrev handle : (Exception → Exec S A) → Result A × S → Result A × S
  handle h (ok a, s) = (ok a, s)
  handle h (err e, s) = h e s

  -- `try: m  except … as e: h e`
  abbrev pub try_catch : Exec S A → (Exception → Exec S A) → Exec S A
  try_catch m h s = handle h (m s)

module _ {ℓ} {S A B : Type ℓ} where
  abbrev continue : Result A × S → (A → Exec S B) → Result B × S
  continue (ok a, s) f = f a s
  continue (err e, s) f = (err e, s)

  infixl 10 ◌>>=◌
  abbrev pub ◌>>=◌ : Exec S A → (A → Exec S B) → Exec S B
  ◌>>=◌ m f s = continue (m s) f

  pub >>=-keeps {κ} :
      (P : S → Type κ) (m : Exec S A) (f : A → Exec S B) (s : S)
      → P (m s).1
      → ((a : A) (s' : S) → P s' → P (f a s').1)
      → P ((m >>= f) s).1
  >>=-keeps P m f s h k = continue-keeps (m s) h
    where
      continue-keeps : (r : Result A × S) → P r.1 → P (continue r f).1
      continue-keeps (ok a, s') h = k a s' h
      continue-keeps (err e, s') h = h

module _ {S B : Type 0} where
  infixl 10 ◌>>◌
  abbrev pub ◌>>◌ : Exec S (Unit {0}) → Exec S B → Exec S B
  m >> k = m >>= λ _. k

  continue-ok :
      (k : Exec S B) (r : Result (Unit {0}) × S) → r.0 ≡ ok tt → continue r (λ _. k) ≡ k r.1
  continue-ok k (ok tt, s) h = refl
  continue-ok k (err e, s) h = cc h

  -- What follows a call that raised nothing runs in the state that it left.
  pub >>-ok :
      (m : Exec S (Unit {0})) (k : Exec S B) (s : S) → (m s).0 ≡ ok tt → (m >> k) s ≡ k (m s).1
  >>-ok m k s h = continue-ok k (m s) h

abbrev pub modify : {S : Type 0} → (S → S) → Exec S (Unit {0})
modify f s = (ok tt, f s)
