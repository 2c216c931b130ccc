-- ===== src/Jobs/Activation.antt =====
-- A new previous block: a future job becomes the active one, and the job before it goes stale.
use canary_mining.Common.{
  ℕ, ◌≤◌, Bool, true, false, not, ◌≡◌, ◌↔◌, refl, sym, subst, arith, none, some, List, [], ◌∷◌,
  ◌++◌, length, retain, All, All-retain_test, ltb, nat_beq, nat_eq, Bool-cases, Option-cases, inl,
  inr,
}
use canary_mining.Common.Assoc.{get, insert, remove, get-insert, get-remove}
use canary_mining.Jobs.{
  Job, JobStore, max_past_jobs, max_stale_jobs, push_last, prune, prune_past_jobs, prune_stale_jobs,
  move_to_stale, mark_past_jobs_as_stale, insert_past_job, activate_future_job, get_stale_job,
}

-- The order ends with an id, which stands nowhere else in it, and the id has this job.
abbrev EndsWith : {T : Type 0} → ℕ → T → List ℕ × List (ℕ × T) → Type 0
EndsWith id job (order, jobs) =
    (before : List ℕ) × (order ≡ before ++ id ∷ [])
    × All (λ x. nat_beq x id ≡ false) before
    × (get id jobs ≡ some job)

module _ {T : Type 0} (id : ℕ) (job : T) where
  push-EndsWith :
      (order : List ℕ) (jobs : List (ℕ × T))
      → EndsWith id job (push_last id order, insert id job jobs)
  push-EndsWith order jobs = (
    retain (λ x. not (nat_beq x id)) order,
    refl,
    All-retain_test (λ x. nat_beq x id ≡ false) (λ x. not (nat_beq x id)) (λ x h. ground arith)
        order,
    ground (arith, get-insert id id job jobs),
  )

  prune_before :
      (cap : ℕ) (before : List ℕ) (jobs : List (ℕ × T))
      → 1 ≤ cap
      → All (λ x. nat_beq x id ≡ false) before
      → get id jobs ≡ some job
      → EndsWith id job (prune cap (before ++ id ∷ []) jobs)
  unfolding prune
  prune_before cap [] jobs c a g = elim (Bool-cases (ltb cap 1)) [
    | inl e ↦ absurd (ground arith)
    | inr e ↦ rw e ([], refl, tt, g)
  ]
  prune_before cap (x ∷ before) jobs c a g =
      elim (Bool-cases (ltb cap (length (x ∷ before ++ id ∷ [])))) [
        | inl e ↦ rw e (
            prune_before cap before (remove x jobs) c a.1
              (ground (arith, get-remove x id jobs, a.0)))
        | inr e ↦ rw e (x ∷ before, refl, a, g)
      ]

  prune-EndsWith :
      (cap : ℕ) (order : List ℕ) (jobs : List (ℕ × T))
      → 1 ≤ cap
      → EndsWith id job (order, jobs)
      → EndsWith id job (prune cap order jobs)
  prune-EndsWith cap order jobs c (before, e, a, g) =
      subst (λ x. EndsWith id job (prune cap x jobs)) (sym e) (prune_before cap before jobs c a g)

  move_before :
      (before : List ℕ) (past : List (ℕ × T)) (order : List ℕ) (stale : List (ℕ × T))
      → All (λ x. nat_beq x id ≡ false) before
      → get id past ≡ some job
      → EndsWith id job (move_to_stale (before ++ id ∷ []) past order stale)
  unfolding move_to_stale
  move_before [] past order stale a g = rw (g, move_to_stale) (push-EndsWith order stale)
  move_before (x ∷ before) past order stale a g = elim (Option-cases (get x past)) [
    | inl e ↦ rw (e, move_to_stale) (move_before before past order stale a.1 g)
    | inr (other, e) ↦
        rw (e, move_to_stale)
          (move_before before (remove x past) (push_last x order) (insert x other stale) a.1
            (ground (arith, get-remove x id past, a.0)))
  ]

  move-EndsWith :
      (past_order : List ℕ) (past : List (ℕ × T)) (order : List ℕ) (stale : List (ℕ × T))
      → EndsWith id job (past_order, past)
      → EndsWith id job (move_to_stale past_order past order stale)
  move-EndsWith past_order past order stale (before, e, a, g) =
      subst (λ x. EndsWith id job (move_to_stale x past order stale)) (sym e)
        (move_before before past order stale a g)

  mark-EndsWith :
      (s : JobStore T)
      → EndsWith id job (s.past_order, s.past_jobs)
      → get_stale_job (mark_past_jobs_as_stale s) id ≡ some job
  unfolding mark_past_jobs_as_stale prune_stale_jobs get_stale_job
  mark-EndsWith s h =
      let r = move_to_stale s.past_order s.past_jobs s.stale_order s.stale_jobs in
      let (before, e, a, g) =
        prune-EndsWith max_stale_jobs r.0 r.1 (omega arith)
          (move-EndsWith s.past_order s.past_jobs s.stale_order s.stale_jobs h) in
      g

insert_past-EndsWith :
    (J : Job) (s : JobStore J.T) (job : J.T)
    → EndsWith
        (J.get_job_id job)
        job
        ((insert_past_job J s job).past_order, (insert_past_job J s job).past_jobs)
unfolding insert_past_job prune_past_jobs
insert_past-EndsWith J s job =
    let id = J.get_job_id job in
    prune-EndsWith id job max_past_jobs (push_last id s.past_order) (insert id job s.past_jobs)
      (omega arith) (push-EndsWith id job s.past_order s.past_jobs)

-- An activation succeeds exactly when the template is known and its job is there.
pub activate_iff :
    (J : Job) (s : JobStore J.T) (template_id timestamp : ℕ)
    → ((activate_future_job J s template_id timestamp).1 ≡ true) ↔ (
        (job_id : ℕ) × (job : J.T) × (get template_id s.future_template_to_job_id ≡ some job_id)
        × (get job_id s.future_jobs ≡ some job))
unfolding activate_future_job
activate_iff J s template_id timestamp =
    elim (Option-cases (get template_id s.future_template_to_job_id)) [
      | inl e ↦ (λ h. absurd (ground (arith, e)), λ h. absurd (ground (arith, e, h.2)))
      | inr (job_id, e) ↦ elim (Option-cases (get job_id s.future_jobs)) [
        | inl e' ↦
            (λ h. absurd (ground (arith, e, e')), λ h. absurd (found job_id e e' h.0 h.1 h.2 h.3))
        | inr (job, e') ↦ (λ h. (job_id, job, e, e'), λ h. rw (e, activate_future_job, e') refl)
      ]
    ]
  where
    found :
        (job_id : ℕ)
        → get template_id s.future_template_to_job_id ≡ some job_id
        → get job_id s.future_jobs ≡ none
        → (j : ℕ) (job : J.T) → get template_id s.future_template_to_job_id ≡ some j
        → get j s.future_jobs ≡ some job
        → ⊥
    found job_id e e' j job h h' =
        let same : job_id ≡ j = ground arith in
        ground (arith, subst (λ x. get x s.future_jobs ≡ none) same e')

-- The store that a successful activation makes stale.
abbrev activated : (J : Job) → JobStore J.T → J.T → J.T → ℕ → JobStore J.T
activated J s job previous timestamp =
    record (insert_past_job J (record s { active_job = none }) previous) {
      active_job = some (J.activate job timestamp);
      future_jobs = [];
      future_template_to_job_id = [];
      future_order = [];
    }

activate_known :
    (J : Job) (s : JobStore J.T) (template_id timestamp job_id : ℕ) (job previous : J.T)
    → get template_id s.future_template_to_job_id ≡ some job_id
    → get job_id s.future_jobs ≡ some job
    → s.active_job ≡ some previous
    → activate_future_job J s template_id timestamp
      ≡ (mark_past_jobs_as_stale (activated J s job previous timestamp), true)
unfolding activate_future_job
activate_known J s template_id timestamp job_id job previous t f a =
    rw (t, activate_future_job, f) (simp a)

-- What a successful activation leaves behind.
pub record IsActivated (J : Job) (job previous : J.T) (timestamp : ℕ) (r : JobStore J.T × Bool)
    : Type 0 where
  pub done : r.1 ≡ true
  pub active : r.0.active_job ≡ some (J.activate job timestamp)
  pub future : r.0.future_jobs ≡ []
  pub past : r.0.past_jobs ≡ []
  pub stale : get_stale_job r.0 (J.get_job_id previous) ≡ some previous

-- After a successful activation the job of the template is the active one, activated at the
-- timestamp; no future or past job is left; and the job that was active is stale.
pub activate_lem :
    (J : Job) (s : JobStore J.T) (template_id timestamp job_id : ℕ) (job previous : J.T)
    → get template_id s.future_template_to_job_id ≡ some job_id
    → get job_id s.future_jobs ≡ some job
    → s.active_job ≡ some previous
    → IsActivated J job previous timestamp (activate_future_job J s template_id timestamp)
unfolding mark_past_jobs_as_stale prune_stale_jobs
activate_lem J s template_id timestamp job_id job previous t f a =
    subst (IsActivated J job previous timestamp)
      (sym (activate_known J s template_id timestamp job_id job previous t f a))
      (record {
        done = refl;
        active = refl;
        future = refl;
        past = refl;
        stale =
            mark-EndsWith (J.get_job_id previous) previous (activated J s job previous timestamp)
              (insert_past-EndsWith J (record s { active_job = none }) previous);
      })
