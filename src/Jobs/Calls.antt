-- ===== src/Jobs/Calls.antt =====
-- Sequences of calls of the job store.
use canary_mining.Common.{ℕ, ◌≤◌, arith, List, [], ◌∷◌, length, nat_eq, Option-cases, inl, inr}
use canary_mining.Common.Assoc.{get}
use canary_mining.Jobs.{
  Job, JobStore, max_past_jobs, max_stale_jobs, max_future_jobs, mark_past_jobs_as_stale,
  with_future_job, add_future_job, add_active_job, activate_future_job, new,
}
use canary_mining.Jobs.Bounds.{
  IsBounded, listed-length, retire-IsBounded, mark_past_jobs_as_stale-IsBounded,
  add_active_job-IsBounded, prune_future_jobs-IsBounded,
}

-- The calls that change a store.
pub data Call (T : Type 0) : Type 0 where
  future : ℕ → T → Call T
  active : T → Call T
  activation : ℕ → ℕ → Call T
  stale : Call T

module _ (J : Job) where
  unfoldable pub step : JobStore J.T → Call J.T → JobStore J.T
  unfolding add_future_job add_active_job activate_future_job mark_past_jobs_as_stale
  step s (future template_id job) = (add_future_job J s template_id job).0
  step s (active job) = add_active_job J s job
  step s (activation template_id timestamp) = (activate_future_job J s template_id timestamp).0
  step s stale = mark_past_jobs_as_stale s

  unfoldable pub run : JobStore J.T → List (Call J.T) → JobStore J.T
  run s [] = s
  run s (c ∷ calls) = run (step s c) calls

  activate-IsBounded :
      (s : JobStore J.T) (template_id timestamp : ℕ)
      → IsBounded s
      → IsBounded (activate_future_job J s template_id timestamp).0
  unfolding activate_future_job
  activate-IsBounded s template_id timestamp b =
      elim (Option-cases (get template_id s.future_template_to_job_id)) [
        | inl e ↦ rw (e, activate_future_job) b
        | inr (job_id, e) ↦ elim (Option-cases (get job_id s.future_jobs)) [
          | inl e' ↦
              rw (e, activate_future_job, e')
                (record {
                  past = b.past;
                  past_cap = b.past_cap;
                  stale = b.stale;
                  stale_cap = b.stale_cap;
                  future_cap = b.future_cap;
                })
          | inr (job, e') ↦
              let r = retire-IsBounded J s s.active_job b in
              rw (e, activate_future_job, e')
                (mark_past_jobs_as_stale-IsBounded J _ (record {
                  past = r.past;
                  past_cap = r.past_cap;
                  stale = r.stale;
                  stale_cap = r.stale_cap;
                  future_cap = omega arith;
                }))
        ]
      ]

  step-IsBounded : (s : JobStore J.T) (c : Call J.T) → IsBounded s → IsBounded (step s c)
  unfolding step add_future_job
  step-IsBounded s (future template_id job) b =
      prune_future_jobs-IsBounded (with_future_job J s template_id job) b.past b.past_cap b.stale
        b.stale_cap
  step-IsBounded s (active job) b = add_active_job-IsBounded J s job b
  step-IsBounded s (activation template_id timestamp) b =
      activate-IsBounded s template_id timestamp b
  step-IsBounded s stale b = mark_past_jobs_as_stale-IsBounded J s b

  pub run-IsBounded :
      (s : JobStore J.T) (calls : List (Call J.T)) → IsBounded s → IsBounded (run s calls)
  unfolding run
  run-IsBounded s [] b = b
  run-IsBounded s (c ∷ calls) b = run-IsBounded (step s c) calls (step-IsBounded s c b)

new-IsBounded : {T : Type 0} → IsBounded {T = T} new
unfolding get
new-IsBounded = record {
  past = record { distinct = tt; listed = λ j h. absurd (ground arith) };
  past_cap = omega arith;
  stale = record { distinct = tt; listed = λ j h. absurd (ground arith) };
  stale_cap = omega arith;
  future_cap = omega arith;
}

-- A new store never holds more than two past jobs and one stale job, whatever calls are made, and at
-- most two future jobs are in the order in which they are dropped.
pub length-run :
    (J : Job) (calls : List (Call J.T))
    → (length (run J new calls).past_jobs ≤ max_past_jobs)
      × (length (run J new calls).stale_jobs ≤ max_stale_jobs)
      × (length (run J new calls).future_order ≤ max_future_jobs)
length-run J calls =
    let s = run J new calls in
    let b = run-IsBounded J new calls new-IsBounded in
    let past = listed-length s.past_order s.past_jobs b.past in
    let stale = listed-length s.stale_order s.stale_jobs b.stale in
    (omega (arith, past, b.past_cap), omega (arith, stale, b.stale_cap), b.future_cap)
