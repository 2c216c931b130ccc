-- ===== src/Tests/Channel.antt =====
-- The job store at concrete jobs, which know their id and when they were activated.
use canary_mining.Common.{ℕ, ◌≤◌, refl, Option, none, some, List, [], ◌∷◌, length, nat_eq}
use canary_mining.Common.Assoc.{get}
use canary_mining.Jobs.{
  Job, JobStore, new, max_past_jobs, max_stale_jobs, max_future_jobs, activate_future_job,
}
use canary_mining.Jobs.Calls.{Call, future, active, activation, run, length-run}
use canary_mining.Jobs.Activation.{IsActivated, activate_lem}

abbrev test_job : Job
test_job = record {
  T = ℕ × Option ℕ;
  get_job_id = λ job. job.0;
  activate = λ job time. (job.0, some time);
}

abbrev calls : List (Call test_job.T)
calls =
    active (1, none)
    ∷ active (2, none)
    ∷ active (3, none)
    ∷ active (4, none)
    ∷ future 10 (5, none)
    ∷ future 11 (6, none)
    ∷ future 12 (7, none)
    ∷ activation 12 99
    ∷ []

length-run_example :
    (length (run test_job new calls).past_jobs ≤ max_past_jobs)
    × (length (run test_job new calls).stale_jobs ≤ max_stale_jobs)
    × (length (run test_job new calls).future_order ≤ max_future_jobs)
length-run_example = length-run test_job calls

abbrev waiting : JobStore test_job.T
waiting = record new {
  future_template_to_job_id = (10, 5) ∷ [];
  future_jobs = (5, (5, none)) ∷ [];
  future_order = (10, 5) ∷ [];
  active_job = some (4, none);
  past_jobs = (3, (3, none)) ∷ [];
  past_order = 3 ∷ [];
}

activate_lem_example :
    IsActivated test_job (5, none) (4, none) 99 (activate_future_job test_job waiting 10 99)
unfolding get
activate_lem_example = activate_lem test_job waiting 10 99 5 (5, none) (4, none) refl refl refl
