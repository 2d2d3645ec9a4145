-- ===== src/Exclusion/Held.antt =====
-- The lock that a job holds while it has a slot, and how rows change it.
use mt_jobs.Base.{
  ℕ, String, Bool, true, false, Option, some, none, List, [], ◌∷◌, ◌++◌, ◌≡◌, ◌⊎◌, ◌==◌, ◌&&◌, sym,
  ap, ◌∙◌, reject, any, arith, Bool-cases, inl, inr,
}
use mt_jobs.Base.Keys.{find-saved}
use mt_jobs.Base.Table.{find, save, find-pk}
use mt_jobs.Models.Json.{Json}
use mt_jobs.Models.Job.{Job}
use mt_jobs.Models.Overlap.{JobOverlapLock}
use mt_jobs.Domain.Payload.{payload_get}
use mt_jobs.Domain.Exceptions.{Result, ok, err}
use mt_jobs.Store.Db.{job_pk}
use mt_jobs.Services.Dispatcher.{queued_job}
use mt_jobs.Capacity.Balance.{holds}
use mt_jobs.Capacity.Dispatch.{key_of}
use mt_jobs.Exclusion.Rows.{guards}

abbrev key_in : (Json → String) → Result (Option Json) → Option String
key_in to_text (ok key) = key_of to_text key
key_in to_text (err e) = none

-- The resource that a job asks for.
abbrev pub asked : (Json → String) → Job → Option String
asked to_text j = key_in to_text (payload_get j.payload "overlap_key")

abbrev pub guards_for : ℕ → ℕ → String → JobOverlapLock → Bool
guards_for i t k l = l.job == i && guards t k l

-- A job with a slot has the lock that it asks for.
abbrev pub Held : (Json → String) → List Job → List JobOverlapLock → Type 0
Held to_text jobs locks =
    (i : ℕ) (j : Job) (k : String)
    → find job_pk i jobs ≡ some j
    → holds j.status ≡ true
    → asked to_text j ≡ some k
    → any (guards_for i j.tenant k) locks ≡ true

find-appended :
    (i : ℕ) (r z : Job) (xs : List Job)
    → find job_pk i (xs ++ r ∷ []) ≡ some z
    → (z ≡ r) ⊎ (find job_pk i xs ≡ some z)
unfolding find
find-appended i r z [] h = elim (Bool-cases (r.id == i)) [
  | inl e ↦ let h' = rw e at h in inl (cc h')
  | inr e ↦ let h' = rw e at h in cc h'
]
find-appended i r z (x ∷ xs) h = elim (Bool-cases (x.id == i)) [
  | inl e ↦ let h' = rw e at h in inr (rw e h')
  | inr e ↦ let h' = rw e at h in rw e (find-appended i r z xs h')
]

any-reject_other :
    (i n t : ℕ) (k : String) (locks : List JobOverlapLock)
    → (n == i) ≡ false
    → any (guards_for i t k) locks ≡ true
    → any (guards_for i t k) (reject (λ l. l.job == n) locks) ≡ true
unfolding any reject
any-reject_other i n t k [] e h = h
any-reject_other i n t k (l ∷ rest) e h = ground (arith, any-reject_other i n t k rest)

any-more :
    (p : JobOverlapLock → Bool) (locks : List JobOverlapLock) (l : JobOverlapLock)
    → any p locks ≡ true
    → any p (locks ++ l ∷ []) ≡ true
unfolding any
any-more p [] l h = cc h
any-more p (x ∷ xs) l h = ground (arith, any-more p xs l)

module _ (to_text : Json → String) (jobs : List Job) (locks : List JobOverlapLock)
    (h : Held to_text jobs locks) where
  pub more-Held : (l : JobOverlapLock) → Held to_text jobs (locks ++ l ∷ [])
  more-Held l i j k f s a = any-more (guards_for i j.tenant k) locks l (h i j k f s a)

  pub rest-Held : (y : Job) → holds y.status ≡ false → Held to_text (save job_pk y jobs) locks
  rest-Held y idle i j k f s a = elim (find-saved job_pk i y j jobs f) [
    | inl e ↦ absurd (clash y j e idle s)
    | inr (g, _) ↦ h i j k g s a
  ]
    where
      clash : (y j : Job) → j ≡ y → holds y.status ≡ false → holds j.status ≡ true → ⊥
      clash y j e idle s = let s' = rw e at s in cc (idle, s')

  pub leave-Held :
      (y : Job)
      → holds y.status ≡ false
      → Held to_text (save job_pk y jobs) (reject (λ l. l.job == y.id) locks)
  leave-Held y idle i j k f s a = elim (find-saved job_pk i y j jobs f) [
    | inl e ↦ let s' = rw e at s in cc (idle, s')
    | inr (g, other) ↦ any-reject_other i y.id j.tenant k locks other (h i j k g s a)
  ]

  pub add-Held : (y : Job) → holds y.status ≡ false → Held to_text (jobs ++ y ∷ []) locks
  add-Held y idle i j k f s a = elim (find-appended i y j jobs f) [
    | inl e ↦ let s' = rw e at s in cc (idle, s')
    | inr g ↦ h i j k g s a
  ]

  -- A job that has a slot before and after keeps its lock.
  pub keep-Held :
      (x y : Job)
      → find job_pk x.id jobs ≡ some x
      → y.id ≡ x.id
      → y.tenant ≡ x.tenant
      → y.payload ≡ x.payload
      → holds x.status ≡ true
      → Held to_text (save job_pk y jobs) locks
  keep-Held x y here id tenant payload held i j k f s a = elim (find-saved job_pk i y j jobs f) [
    | inr (g, _) ↦ h i j k g s a
    | inl e ↦
        let own : i ≡ x.id =
          sym (find-pk job_pk i (save job_pk y jobs) f) ∙ ap (λ (z : Job). z.id) e ∙ id in
        let a' = rw (e, payload) at a in rw (e, tenant, own) (h x.id x k here held a')
  ]

  -- A job that gets a slot has its lock already.
  pub enter-Held :
      (now : ℕ) (x : Job)
      → ((k : String) → asked to_text x ≡ some k → any (guards_for x.id x.tenant k) locks ≡ true)
      → Held to_text (save job_pk (queued_job now x) jobs) locks
  enter-Held now x locked i j k f s a = elim (find-saved job_pk i (queued_job now x) j jobs f) [
    | inr (g, _) ↦ h i j k g s a
    | inl e ↦
        let own : i ≡ x.id =
          sym (find-pk job_pk i (save job_pk (queued_job now x) jobs) f)
          ∙ ap (λ (z : Job). z.id) e in
        let a' = rw e at a in rw (e, own) (locked k a')
  ]
