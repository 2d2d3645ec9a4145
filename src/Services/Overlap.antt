-- ===== src/Services/Overlap.antt =====
-- jobs/services/overlap.py
use mt_jobs.Base.{ℕ, String, Option, none, some, ◌+◌, ◌*◌, ◌==◌, reject}
use mt_jobs.Models.Job.{Job}
use mt_jobs.Models.Overlap.{JobOverlapLock, OverlapScope}
use mt_jobs.Domain.Exceptions.{Exception}
use mt_jobs.Store.Exec.{Exec, pure, raise, atomic, try_catch, modify, ◌>>=◌}
use mt_jobs.Store.Db.{Db, uuid4, create_lock}

-- `timedelta(minutes=…)` and `timedelta(seconds=…)`, in microseconds
abbrev pub minutes : ℕ → ℕ
minutes n = 60000000 * n

abbrev pub seconds : ℕ → ℕ
seconds n = 1000000 * n

abbrev pub locked_tenant : OverlapScope → Job → Option ℕ
locked_tenant OverlapScope.tenant job = some job.tenant
locked_tenant OverlapScope.global job = none

-- `except IntegrityError: return None`; any other exception goes on.
abbrev pub none_on_conflict : {A : Type 0} → Exception → Exec Db (Option A)
none_on_conflict (Exception.integrity_error c) = pure none
none_on_conflict e = raise e

unfoldable pub acquire_overlap : ℕ → Job → String → OverlapScope → Exec Db (Option JobOverlapLock)
acquire_overlap now job resource_key scope =
    try_catch
      (atomic (do
        id ← uuid4
        lease_token ← uuid4
        lock ← create_lock (record {
          id = id;
          job = job.id;
          tenant = locked_tenant scope job;
          scope = scope;
          resource_key = resource_key;
          lease_token = lease_token;
          expires_at = now + minutes 5;
          created_at = now;
        })
        pure (some lock)))
      none_on_conflict

unfoldable pub release_overlaps : Job → Exec Db (Unit {0})
release_overlaps job =
    modify (λ d. record d { locks = reject (λ (l : JobOverlapLock). l.job == job.id) d.locks })
