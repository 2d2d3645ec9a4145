-- ===== src/Models/Tenant.antt =====
-- tenants/models.py
use mt_jobs.Base.{ℕ, String, Bool}

pub record Tenant : Type 0 where
  pub id : ℕ
  pub name : String
  pub is_active : Bool
  pub max_concurrent_jobs : ℕ
  pub created_at : ℕ
  pub updated_at : ℕ
