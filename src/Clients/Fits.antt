-- ===== src/Clients/Fits.antt =====
-- The columns that a replay copies (`submit_job`, `replay_dead_letter`): a row was stored with them, and
-- no service rewrites them.
use mt_jobs.Base.{ℕ, String, Bool, true, some, List, ◌≡◌, All, arith}
use mt_jobs.Base.Table.{All-find, All-save, All-append}
use mt_jobs.Models.Job.{Job, JobStatus}
use mt_jobs.Models.Tenant.{Tenant}
use mt_jobs.Store.Columns.{is_storable, arguments_fit, key_fits}
use mt_jobs.Store.Db.{job_pk, find_job}
use mt_jobs.Services.DeadLetter.{clone}
use mt_jobs.Services.Outbox.{World}
use mt_jobs.Lifecycle.Moves.{Move, Edits}
use mt_jobs.System.Steps.{Reach}
use mt_jobs.System.Limit.{start, empty-IsBalanced}
use mt_jobs.System.Life.{Reach-Edits}

abbrev Fits : Job → Type 0
Fits j = arguments_fit j ≡ true

Move-Fits :
    {ends : JobStatus → Bool} {starts : Bool} {x y : Job} → Move ends starts x y → Fits x → Fits y
unfolding arguments_fit
Move-Fits (Move.dispatches now on h) b = b
Move-Fits (Move.claims now h) b = b
Move-Fits (Move.completes now r h) b = b
Move-Fits (Move.retries now delay m h d) b = b
Move-Fits (Move.gives_up now m h) b = b
Move-Fits (Move.promotes now h) b = b
Move-Fits (Move.requeues now h) b = b
Move-Fits (Move.cancels now h) b = b
Move-Fits (Move.asks now h) b = b
Move-Fits (Move.touches now h) b = b

is_storable→Fits : (j : Job) → is_storable j ≡ true → Fits j
unfolding is_storable
is_storable→Fits j h = ground (arith, h)

Edits-Fits :
    {ends : JobStatus → Bool} {starts : Bool} {xs ys : List Job}
    → Edits ends starts xs ys
    → All Fits xs
    → All Fits ys
Edits-Fits Edits.start b = b
Edits-Fits (Edits.moves {ys = ys} x y e here m) b =
    let ih = Edits-Fits e b in
    All-save job_pk Fits y ys ih (Move-Fits m (All-find job_pk Fits x.id ys ih here))
Edits-Fits (Edits.adds {ys = ys} y e w z free fit) b =
    All-append Fits ys y (Edits-Fits e b) (is_storable→Fits y fit)

-- In every state reached from tenants without jobs, the clone of a stored job can be stored if its
-- key can.
pub clone-Fits :
    {tenants : List Tenant} {w : World} (id now : ℕ) (generated : String) (i : ℕ) (x : Job)
    → Reach (start tenants) w
    → find_job i w.db ≡ some x
    → key_fits (some generated) ≡ true
    → is_storable (clone id now generated x) ≡ true
unfolding is_storable arguments_fit
clone-Fits {tenants} {w} id now generated i x r f k =
    let all : All Fits w.db.jobs = Edits-Fits (Reach-Edits (empty-IsBalanced tenants) r) tt in
    let fit : Fits x = All-find job_pk Fits i w.db.jobs all f in ground (arith, k, fit)
