-- ===== src/Api/Tenants.antt =====
-- Editing a tenant (tenants/views.py) while its jobs run.
use mt_jobs.Base.{
  ℕ, some, List, count, ◌≡◌, ◌≤◌, ◌==◌, refl, sym, subst, ◌∙◌, Bool-cases, Option-cases, inl, inr,
  ==→eq, arith,
}
use mt_jobs.Base.Table.{find, save, find-save, find-pk, find-key}
use mt_jobs.Models.Tenant.{Tenant}
use mt_jobs.Store.Db.{Db, find_state, find_tenant, tenant_pk}
use mt_jobs.Serializers.{TenantChanges}
use mt_jobs.Capacity.Balance.{IsBalanced, active_of, occupies}
use mt_jobs.Services.Outbox.{World}
use mt_jobs.System.Steps.{Reach, after}
use mt_jobs.System.Limit.{start, empty-IsBalanced, Reach-IsBalanced}
use mt_jobs.Api.{changed_tenant, update_tenant}

-- The limit is changed to no less than the slots that are taken.
abbrev pub Allows : Db → ℕ → TenantChanges → Type 0
Allows d i t = (n : ℕ) → t.max_concurrent_jobs ≡ some n → active_of (find_state i d) ≤ n

changed-limit :
    (now : ℕ) (t : TenantChanges) (old : Tenant) (k : ℕ)
    → k ≤ old.max_concurrent_jobs
    → ((n : ℕ) → t.max_concurrent_jobs ≡ some n → k ≤ n)
    → k ≤ (changed_tenant now t old).max_concurrent_jobs
changed-limit now t old k h allows = elim (Option-cases t.max_concurrent_jobs) [
  | inl e ↦ rw e h
  | inr (n, e) ↦ rw e (allows n e)
]

changed-within :
    (now i : ℕ) (t : TenantChanges) (d : Db) (old : Tenant)
    → IsBalanced d
    → Allows d i t
    → find_tenant i d ≡ some old
    → (k : ℕ) (tenant : Tenant)
    → find tenant_pk k (save tenant_pk (changed_tenant now t old) d.tenants) ≡ some tenant
    → active_of (find_state k d) ≤ tenant.max_concurrent_jobs
changed-within now i t d old b allows e k tenant f =
    let new = changed_tenant now t old in
    let law =
      find-save tenant_pk k new old d.tenants (find-key tenant_pk i old.id d.tenants e refl) in
    elim (Bool-cases (old.id == k)) [
      | inr other ↦ b.within k tenant (ground (arith, law, other, f))
      | inl hit ↦
          let at : i ≡ k = sym (find-pk tenant_pk i d.tenants e) ∙ ==→eq old.id k hit in
          let p : new ≡ tenant = ground (arith, law, hit, f) in
          subst (λ (x : Tenant). active_of (find_state k d) ≤ x.max_concurrent_jobs) p
            (changed-limit now t old (active_of (find_state k d))
              (subst (λ n. active_of (find_state n d) ≤ old.max_concurrent_jobs) at
                (b.within i old e))
              (subst (λ n. Allows d n t) at allows))
    ]

update_tenant-IsBalanced :
    (now i : ℕ) (t : TenantChanges) (d : Db)
    → IsBalanced d
    → Allows d i t
    → IsBalanced (update_tenant now (some t) (find_tenant i d) d).1
unfolding update_tenant
update_tenant-IsBalanced now i t d b allows = elim (Option-cases (find_tenant i d)) [
  | inl e ↦ rw e b
  | inr (old, e) ↦ rw e (record {
    owned = b.owned;
    counted = b.counted;
    running = b.running;
    load = b.load;
    within = changed-within now i t d old b allows e;
    keyed = b.keyed;
  })
]

-- The running system in which limits are edited as well.
pub data Runs (w : World) : World → Type 0 where
  starts : Runs w w
  steps : {u v : World} → Runs w u → Reach u v → Runs w v
  edits :
      {u : World} (now i : ℕ) (t : TenantChanges)
      → Runs w u
      → Allows u.db i t
      → Runs w (after (update_tenant now (some t) (find_tenant i u.db)) u)

Runs-IsBalanced : {w v : World} → IsBalanced w.db → Runs w v → IsBalanced v.db
Runs-IsBalanced b Runs.starts = b
Runs-IsBalanced b (Runs.steps r s) = Reach-IsBalanced (Runs-IsBalanced b r) s
Runs-IsBalanced b (Runs.edits {u = u} now i t r allows) =
    update_tenant-IsBalanced now i t u.db (Runs-IsBalanced b r) allows

-- In every state reached from tenants without jobs by steps of the services in which no attempt is
-- completed or failed after it has ended, which the code does not check, and by edits of tenants,
-- of which each sets no limit below the slots that are then taken, at most as many jobs of a
-- tenant as its limit then says are queued, executing or asked to cancel.
pub jobs-le-edited_limit :
    {tenants : List Tenant} {w : World} (t : ℕ) (tenant : Tenant)
    → Runs (start tenants) w
    → find_tenant t w.db ≡ some tenant
    → count (occupies t) w.db.jobs ≤ tenant.max_concurrent_jobs
jobs-le-edited_limit {tenants} {w} t tenant r e =
    let b = Runs-IsBalanced (empty-IsBalanced tenants) r in
    omega (arith, b.load t, b.counted t, b.within t tenant e)
