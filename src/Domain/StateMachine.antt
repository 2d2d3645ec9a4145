-- ===== src/Domain/StateMachine.antt =====
-- jobs/domain/transitions.py and jobs/domain/state_machine.py
use mt_jobs.Base.{List, [], ◌∷◌, if◌then◌else◌, any}
use mt_jobs.Models.Job.{JobStatus, is_status}
use mt_jobs.Domain.Exceptions.{Exception, Result, ok, err}

-- `ALLOWED_TRANSITIONS.get(current, set())`: the terminal states are no keys of the map.
unfoldable pub allowed_transitions : JobStatus → List JobStatus
allowed_transitions JobStatus.waiting = JobStatus.queued ∷ JobStatus.cancelled ∷ []
allowed_transitions JobStatus.queued =
    JobStatus.executing ∷ JobStatus.cancel_requested ∷ JobStatus.waiting ∷ []
allowed_transitions JobStatus.executing =
    JobStatus.succeeded ∷ JobStatus.retry_wait ∷ JobStatus.failed_final ∷ JobStatus.cancel_requested
    ∷ []
allowed_transitions JobStatus.retry_wait = JobStatus.waiting ∷ JobStatus.cancelled ∷ []
allowed_transitions JobStatus.cancel_requested = JobStatus.cancelled ∷ JobStatus.succeeded ∷ []
allowed_transitions JobStatus.succeeded = []
allowed_transitions JobStatus.failed_final = []
allowed_transitions JobStatus.cancelled = []

unfoldable pub validate_transition : JobStatus → JobStatus → Result (Unit {0})
unfolding allowed_transitions any
validate_transition current_status new_status =
    if any (is_status new_status) (allowed_transitions current_status)
    then ok tt
    else err (Exception.invalid_job_transition current_status new_status)
