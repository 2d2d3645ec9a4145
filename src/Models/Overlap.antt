-- ===== src/Models/Overlap.antt =====
-- jobs/models/overlap.py
use mt_jobs.Base.{ℕ, String, Bool, false, Option, some, ◌==◌, ◌&&◌, str_eq}

pub data OverlapScope : Type 0 where
  tenant global : OverlapScope

pub record JobOverlapLock : Type 0 where
  pub id : ℕ
  pub job : ℕ
  pub tenant : Option ℕ
  pub scope : OverlapScope
  pub resource_key : String
  pub lease_token : ℕ
  pub expires_at : ℕ
  pub created_at : ℕ

-- Two nullable columns agree in a unique index: NULL agrees with nothing.
abbrev pub same_tenant : Option ℕ → Option ℕ → Bool
same_tenant (some s) (some t) = s == t
same_tenant _ _ = false

-- Whether two rows break `uq_tenant_overlap_resource` or `uq_global_overlap_resource`.
unfoldable pub locks_conflict : JobOverlapLock → JobOverlapLock → Bool
locks_conflict a b = conflict_in a.scope b.scope
  where
    conflict_in : OverlapScope → OverlapScope → Bool
    conflict_in OverlapScope.tenant OverlapScope.tenant =
        same_tenant a.tenant b.tenant && str_eq a.resource_key b.resource_key
    conflict_in OverlapScope.global OverlapScope.global = str_eq a.resource_key b.resource_key
    conflict_in _ _ = false
