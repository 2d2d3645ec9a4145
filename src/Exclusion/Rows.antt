-- ===== src/Exclusion/Rows.antt =====
-- The rows that guard a resource of a tenant, and how they change.
use mt_jobs.Base.{
  ℕ, String, Bool, true, false, some, List, [], ◌∷◌, ◌≡◌, ◌≤◌, ◌&&◌, refl, ap, bit, reject, count,
  any, arith, str_eq, eq_iff, Bool-cases, inl, inr,
}
use mt_jobs.Base.Table.{count-append, count-reject}
use mt_jobs.Models.Job.{Job}
use mt_jobs.Models.Overlap.{JobOverlapLock, OverlapScope, same_tenant, locks_conflict}
use mt_jobs.Store.Db.{Db}
use mt_jobs.Capacity.Dispatch.{wanted_lock, with_lock, is_locked}

-- Whether a row of the scope of its tenant guards a resource.
unfoldable pub guards : ℕ → String → JobOverlapLock → Bool
guards t k l = in_scope l.scope
  where
    in_scope : OverlapScope → Bool
    in_scope OverlapScope.tenant = same_tenant (some t) l.tenant && str_eq k l.resource_key
    in_scope OverlapScope.global = false

-- One row at most guards each resource.
abbrev pub IsExclusive : Db → Type 0
IsExclusive d = (t : ℕ) (k : String) → count (guards t k) d.locks ≤ 1

pub reject-IsExclusive :
    (p : JobOverlapLock → Bool) (locks : List JobOverlapLock)
    → ((t : ℕ) (k : String) → count (guards t k) locks ≤ 1)
    → (t : ℕ) (k : String) → count (guards t k) (reject p locks) ≤ 1
reject-IsExclusive p locks h t k = omega (arith, h t k, count-reject (guards t k) p locks)

free-count :
    (id now : ℕ) (job : Job) (key : String) (locks : List JobOverlapLock)
    → any (locks_conflict (wanted_lock id now job key)) locks ≡ false
    → count (guards job.tenant key) locks ≡ 0
unfolding any count guards locks_conflict
free-count id now job key [] h = refl
free-count id now job key (l ∷ rest) h = ground (arith, free-count id now job key rest)

wanted-guards :
    (id now : ℕ) (job : Job) (key : String) (t : ℕ) (k : String)
    → guards t k (wanted_lock id now job key) ≡ true
    → (t ≡ job.tenant) × (k ≡ key)
unfolding guards
wanted-guards id now job key t k h = (ground arith, (eq_iff k key).0 (ground arith))

pub with_lock-IsExclusive :
    (now : ℕ) (job : Job) (key : String) (d : Db)
    → is_locked d now job key ≡ false
    → IsExclusive d
    → IsExclusive (with_lock now job key d)
with_lock-IsExclusive now job key d free h t k =
    let l = wanted_lock d.next_uuid now job key in
    let more = count-append (guards t k) d.locks l in
    elim (Bool-cases (guards t k l)) [
      | inr other ↦ omega (arith, h t k, more, ap bit other)
      | inl hit ↦
          let (p, q) = wanted-guards d.next_uuid now job key t k hit in
          let none : count (guards t k) d.locks ≡ 0 =
            rw (p, q) (free-count d.next_uuid now job key d.locks free) in
          omega (arith, none, more, ap bit hit)
    ]
