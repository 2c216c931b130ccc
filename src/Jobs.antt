-- ===== src/Jobs.antt =====
-- vendor/pool_sv2/src/lib/channel_manager/job_store.rs: the jobs of a channel, in bounded number. A
-- job is a parameter: its id, and its activation at a time, are the trait `Job` of a library.
pub mod Bounds
pub mod Calls
pub mod Activation
use canary_mining.Common.{
  ℕ, Bool, true, false, not, ◌≡◌, arith, Option, none, some, List, [], ◌∷◌, ◌++◌, if◌then◌else◌,
  length, retain, ltb, nat_beq, nat_eq, is_some,
}
use canary_mining.Common.Assoc.{get, insert, remove}

-- The trait `Job`.
pub record Job : Type 1 where
  pub T : Type 0
  pub get_job_id : T → ℕ
  pub activate : T → ℕ → T

abbrev pub max_future_jobs : ℕ
max_future_jobs = 2

abbrev pub max_past_jobs : ℕ
max_past_jobs = 2

abbrev pub max_stale_jobs : ℕ
max_stale_jobs = 1

pub record JobStore (T : Type 0) : Type 0 where
  pub future_template_to_job_id : List (ℕ × ℕ)
  pub future_jobs : List (ℕ × T)
  pub future_order : List (ℕ × ℕ)
  pub active_job : Option T
  pub past_jobs : List (ℕ × T)
  pub past_order : List ℕ
  pub stale_jobs : List (ℕ × T)
  pub stale_order : List ℕ

abbrev pub new : {T : Type 0} → JobStore T
new = record {
  future_template_to_job_id = [];
  future_jobs = [];
  future_order = [];
  active_job = none;
  past_jobs = [];
  past_order = [];
  stale_jobs = [];
  stale_order = [];
}

-- `retain` and `push`: the id becomes the last of the order.
abbrev pub push_last : ℕ → List ℕ → List ℕ
push_last id order = retain (λ x. not (nat_beq x id)) order ++ id ∷ []

-- The loop of `prune_past_jobs` and of `prune_stale_jobs`.
unfoldable pub prune : {T : Type 0} → ℕ → List ℕ → List (ℕ × T) → List ℕ × List (ℕ × T)
prune cap [] jobs = ([], jobs)
prune cap (id ∷ order) jobs =
    let rest = prune cap order (remove id jobs) in
    if ltb cap (length (id ∷ order)) then rest else (id ∷ order, jobs)

unfoldable pub prune_past_jobs : {T : Type 0} → JobStore T → JobStore T
prune_past_jobs s =
    let (order, jobs) = prune max_past_jobs s.past_order s.past_jobs in
    record s { past_order = order; past_jobs = jobs }

unfoldable pub prune_stale_jobs : {T : Type 0} → JobStore T → JobStore T
prune_stale_jobs s =
    let (order, jobs) = prune max_stale_jobs s.stale_order s.stale_jobs in
    record s { stale_order = order; stale_jobs = jobs }

unfoldable pub prune_future : {T : Type 0} → List (ℕ × ℕ) → JobStore T → JobStore T
prune_future [] s = record s { future_order = [] }
prune_future ((template_id, job_id) ∷ order) s =
    let rest = prune_future order (record s {
      future_template_to_job_id = remove template_id s.future_template_to_job_id;
      future_jobs = remove job_id s.future_jobs;
    }) in
    if ltb max_future_jobs (length ((template_id, job_id) ∷ order))
    then rest
    else record s { future_order = (template_id, job_id) ∷ order }

unfoldable pub prune_future_jobs : {T : Type 0} → JobStore T → JobStore T
unfolding prune_future
prune_future_jobs s = prune_future s.future_order s

-- Neither the template nor the job of an entry.
abbrev pub is_unrelated : ℕ → ℕ → ℕ × ℕ → Bool
is_unrelated template_id job_id e =
    if nat_beq e.0 template_id then false else not (nat_beq e.1 job_id)

-- The loop over the ids drained from `past_order`: the jobs found become stale.
unfoldable pub move_to_stale :
    {T : Type 0} → List ℕ → List (ℕ × T) → List ℕ → List (ℕ × T) → List ℕ × List (ℕ × T)
move_to_stale [] past order stale = (order, stale)
move_to_stale (id ∷ ids) past order stale = elim (get id past) [
  | none ↦ move_to_stale ids past order stale
  | some job ↦ move_to_stale ids (remove id past) (push_last id order) (insert id job stale)
]

unfoldable pub mark_past_jobs_as_stale : {T : Type 0} → JobStore T → JobStore T
unfolding prune_stale_jobs
mark_past_jobs_as_stale s =
    let (order, stale) = move_to_stale s.past_order s.past_jobs s.stale_order s.stale_jobs in
    prune_stale_jobs
      (record s { past_order = []; past_jobs = []; stale_order = order; stale_jobs = stale })

module _ (J : Job) where
  unfoldable pub insert_past_job : JobStore J.T → J.T → JobStore J.T
  unfolding prune_past_jobs
  insert_past_job s job =
      let job_id = J.get_job_id job in
      prune_past_jobs (record s {
        past_jobs = insert job_id job s.past_jobs;
        past_order = push_last job_id s.past_order;
      })

  -- `active_job.take()`, and the job taken goes to the past ones.
  abbrev pub retire : JobStore J.T → Option J.T → JobStore J.T
  retire s none = s
  retire s (some job) = insert_past_job (record s { active_job = none }) job

  -- The new job, before the oldest ones are dropped.
  abbrev pub with_future_job : JobStore J.T → ℕ → J.T → JobStore J.T
  with_future_job s template_id new_job =
      let new_job_id = J.get_job_id new_job in
      record s {
        future_jobs = insert new_job_id new_job s.future_jobs;
        future_template_to_job_id = insert template_id new_job_id s.future_template_to_job_id;
        future_order =
            retain (is_unrelated template_id new_job_id) s.future_order
            ++ (template_id, new_job_id) ∷ [];
      }

  unfoldable pub add_future_job : JobStore J.T → ℕ → J.T → JobStore J.T × ℕ
  unfolding prune_future_jobs
  add_future_job s template_id new_job =
      (prune_future_jobs (with_future_job s template_id new_job), J.get_job_id new_job)

  unfoldable pub add_active_job : JobStore J.T → J.T → JobStore J.T
  add_active_job s job = record (retire s s.active_job) { active_job = some job }

  -- The template id is forgotten even where its job is missing.
  unfoldable pub activate_future_job : JobStore J.T → ℕ → ℕ → JobStore J.T × Bool
  unfolding mark_past_jobs_as_stale
  activate_future_job s template_id timestamp = elim (get template_id s.future_template_to_job_id) [
    | none ↦ (s, false)
    | some job_id ↦ elim (get job_id s.future_jobs) [
      | none ↦ (
        record s { future_template_to_job_id = remove template_id s.future_template_to_job_id },
        false,
      )
      | some job ↦ (
        mark_past_jobs_as_stale (record (retire s s.active_job) {
          active_job = some (J.activate job timestamp);
          future_jobs = [];
          future_template_to_job_id = [];
          future_order = [];
        }),
        true,
      )
    ]
  ]

unfoldable pub get_future_job_id_from_template_id : {T : Type 0} → JobStore T → ℕ → Option ℕ
get_future_job_id_from_template_id s template_id = get template_id s.future_template_to_job_id

unfoldable pub get_future_job : {T : Type 0} → JobStore T → ℕ → Option T
get_future_job s job_id = get job_id s.future_jobs

unfoldable pub get_past_job : {T : Type 0} → JobStore T → ℕ → Option T
get_past_job s job_id = get job_id s.past_jobs

unfoldable pub get_stale_job : {T : Type 0} → JobStore T → ℕ → Option T
get_stale_job s job_id = get job_id s.stale_jobs
