-- ===== src/Jobs/Bounds.antt =====
-- The caps of the job store: no sequence of calls makes it hold more past or stale jobs.
use canary_mining.Common.{
  ℕ, ◌≤◌, ◌<◌, Bool, true, false, not, ◌≡◌, ◌||◌, refl, arith, Option, none, some, List, [], ◌∷◌,
  ◌++◌, length, retain, any, ltb, nat_beq, nat_eq, is_some, Bool-cases, Option-cases, inl, inr, ◌∙◌,
  subst, ◌⊎◌,
}
use canary_mining.Common.Assoc.{get, insert, remove, get-insert, get-remove}
use canary_mining.Common.Assoc.Laws.{Distinct, Distinct-insert, Distinct-remove}
use canary_mining.Jobs.{
  Job, JobStore, max_past_jobs, max_stale_jobs, max_future_jobs, push_last, prune, prune_past_jobs,
  prune_stale_jobs, prune_future, prune_future_jobs, move_to_stale, mark_past_jobs_as_stale,
  insert_past_job, retire, add_active_job,
}

abbrev pub has : ℕ → List ℕ → Bool
has id = any (λ x. nat_beq x id)

-- Every job stands in the order, and no id has two jobs.
pub record IsListed {T : Type 0} (order : List ℕ) (jobs : List (ℕ × T)) : Type 0 where
  pub distinct : Distinct jobs
  pub listed : (id : ℕ) → is_some (get id jobs) ≡ true → has id order ≡ true

has-retain :
    (id j : ℕ) (xs : List ℕ)
    → nat_beq j id ≡ false
    → has j (retain (λ x. not (nat_beq x id)) xs) ≡ has j xs
unfolding retain any
has-retain id j [] h = refl
has-retain id j (x ∷ xs) h = ground (arith, has-retain id j xs h)

has-append : (id : ℕ) (xs ys : List ℕ) → has id (xs ++ ys) ≡ has id xs || has id ys
unfolding any
has-append id [] ys = refl
has-append id (x ∷ xs) ys = ground (arith, has-append id xs ys)

has-one : (id j : ℕ) → has j (id ∷ []) ≡ nat_beq id j
unfolding any
has-one id j = ground arith

has-push_last :
    (id j : ℕ) (order : List ℕ) → has j (push_last id order) ≡ (nat_beq id j || has j order)
has-push_last id j order = ground (
  arith,
  has-append j (retain (λ x. not (nat_beq x id)) order) (id ∷ []),
  has-retain id j order,
  has-one id j,
)

-- Without an id that it has, an order is shorter.
length-keep :
    (id : ℕ) (order : List ℕ) → length (retain (λ x. not (nat_beq x id)) order) ≤ length order
unfolding retain
length-keep id [] = omega arith
length-keep id (x ∷ order) = ground (arith, length-keep id order)

length-forget :
    (id : ℕ) (order : List ℕ)
    → has id order ≡ true
    → length (retain (λ x. not (nat_beq x id)) order) < length order
unfolding retain any
length-forget id [] h = absurd (ground arith)
length-forget id (x ∷ order) h = ground (arith, length-forget id order, length-keep id order)

module _ {T : Type 0} where
  push-IsListed :
      (id : ℕ) (job : T) (order : List ℕ) (jobs : List (ℕ × T))
      → IsListed order jobs
      → IsListed (push_last id order) (insert id job jobs)
  push-IsListed id job order jobs w = record {
    distinct = Distinct-insert id job jobs w.distinct;
    listed = λ j h. ground (arith, has-push_last id j order, get-insert id j job jobs, w.listed j);
  }

  drop-IsListed :
      (id : ℕ) (order : List ℕ) (jobs : List (ℕ × T))
      → IsListed (id ∷ order) jobs
      → IsListed order (remove id jobs)
  unfolding any
  drop-IsListed id order jobs w = record {
    distinct = Distinct-remove id jobs w.distinct;
    listed = λ j h. ground (arith, get-remove id j jobs, w.listed j);
  }

  pub prune-IsListed :
      (cap : ℕ) (order : List ℕ) (jobs : List (ℕ × T))
      → IsListed order jobs
      → IsListed (prune cap order jobs).0 (prune cap order jobs).1
  unfolding prune
  prune-IsListed cap [] jobs w = w
  prune-IsListed cap (id ∷ order) jobs w = elim (Bool-cases (ltb cap (length (id ∷ order)))) [
    | inl e ↦ rw e (prune-IsListed cap order (remove id jobs) (drop-IsListed id order jobs w))
    | inr e ↦ rw e w
  ]

  pub length-prune :
      (cap : ℕ) (order : List ℕ) (jobs : List (ℕ × T)) → length (prune cap order jobs).0 ≤ cap
  unfolding prune
  length-prune cap [] jobs = omega arith
  length-prune cap (id ∷ order) jobs = ground (arith, length-prune cap order (remove id jobs))

  -- There are at most as many jobs as the order has ids.
  pub listed-length :
      (order : List ℕ) (jobs : List (ℕ × T)) → IsListed order jobs → length jobs ≤ length order
  unfolding get
  listed-length order [] w = omega arith
  listed-length order ((id, job) ∷ jobs) w =
      let rest = listed-length (retain (λ x. not (nat_beq x id)) order) jobs (record {
        distinct = w.distinct.1;
        listed = λ j h. later j h (Bool-cases (nat_beq j id));
      }) in
      omega (arith, rest, length-forget id order (w.listed id (unfold get in ground arith)))
    where
      later :
          (j : ℕ)
          → is_some (get j jobs) ≡ true
          → (nat_beq j id ≡ true) ⊎ (nat_beq j id ≡ false)
          → has j (retain (λ x. not (nat_beq x id)) order) ≡ true
      later j h (inl e) =
          let same : j ≡ id = ground arith in
          absurd (ground (arith, w.distinct.0, subst (λ x. is_some (get x jobs) ≡ true) same h))
      later j h (inr e) = has-retain id j order e ∙ w.listed j (ground arith)

  move-IsListed :
      (ids : List ℕ) (past : List (ℕ × T)) (order : List ℕ) (stale : List (ℕ × T))
      → IsListed order stale
      → IsListed (move_to_stale ids past order stale).0 (move_to_stale ids past order stale).1
  unfolding move_to_stale
  move-IsListed [] past order stale w = w
  move-IsListed (id ∷ ids) past order stale w = elim (Option-cases (get id past)) [
    | inl e ↦ rw (e, move_to_stale) (move-IsListed ids past order stale w)
    | inr (job, e) ↦
        rw (e, move_to_stale)
          (move-IsListed ids (remove id past) (push_last id order) (insert id job stale)
            (push-IsListed id job order stale w))
  ]

-- The jobs of the orders, within the caps.
pub record IsBounded {T : Type 0} (s : JobStore T) : Type 0 where
  pub past : IsListed s.past_order s.past_jobs
  pub past_cap : length s.past_order ≤ max_past_jobs
  pub stale : IsListed s.stale_order s.stale_jobs
  pub stale_cap : length s.stale_order ≤ max_stale_jobs
  pub future_cap : length s.future_order ≤ max_future_jobs

module _ (J : Job) where
  insert_past_job-IsBounded :
      (s : JobStore J.T) (job : J.T) → IsBounded s → IsBounded (insert_past_job J s job)
  unfolding insert_past_job prune_past_jobs
  insert_past_job-IsBounded s job b =
      let id = J.get_job_id job in
      record {
        past =
            prune-IsListed max_past_jobs (push_last id s.past_order) (insert id job s.past_jobs)
              (push-IsListed id job s.past_order s.past_jobs b.past);
        past_cap =
            length-prune max_past_jobs (push_last id s.past_order) (insert id job s.past_jobs);
        stale = b.stale;
        stale_cap = b.stale_cap;
        future_cap = b.future_cap;
      }

  pub retire-IsBounded :
      (s : JobStore J.T) (active : Option J.T) → IsBounded s → IsBounded (retire J s active)
  retire-IsBounded s none b = b
  retire-IsBounded s (some job) b =
      insert_past_job-IsBounded (record s { active_job = none }) job
        (record {
          past = b.past;
          past_cap = b.past_cap;
          stale = b.stale;
          stale_cap = b.stale_cap;
          future_cap = b.future_cap;
        })

  pub mark_past_jobs_as_stale-IsBounded :
      (s : JobStore J.T) → IsBounded s → IsBounded (mark_past_jobs_as_stale s)
  unfolding mark_past_jobs_as_stale prune_stale_jobs get
  mark_past_jobs_as_stale-IsBounded s b =
      let r = move_to_stale s.past_order s.past_jobs s.stale_order s.stale_jobs in
      record {
        past = record { distinct = tt; listed = λ j h. absurd (ground arith) };
        past_cap = omega arith;
        stale =
            prune-IsListed max_stale_jobs r.0 r.1
              (move-IsListed s.past_order s.past_jobs s.stale_order s.stale_jobs b.stale);
        stale_cap = length-prune max_stale_jobs r.0 r.1;
        future_cap = b.future_cap;
      }

  pub add_active_job-IsBounded :
      (s : JobStore J.T) (job : J.T) → IsBounded s → IsBounded (add_active_job J s job)
  unfolding add_active_job
  add_active_job-IsBounded s job b =
      let r = retire-IsBounded s s.active_job b in
      record {
        past = r.past;
        past_cap = r.past_cap;
        stale = r.stale;
        stale_cap = r.stale_cap;
        future_cap = r.future_cap;
      }

prune_future-IsBounded :
    {T : Type 0} (order : List (ℕ × ℕ)) (s : JobStore T)
    → IsListed s.past_order s.past_jobs
    → length s.past_order ≤ max_past_jobs
    → IsListed s.stale_order s.stale_jobs
    → length s.stale_order ≤ max_stale_jobs
    → IsBounded (prune_future order s)
unfolding prune_future
prune_future-IsBounded [] s p pc st sc = record {
  past = p;
  past_cap = pc;
  stale = st;
  stale_cap = sc;
  future_cap = omega arith;
}
prune_future-IsBounded ((t, id) ∷ order) s p pc st sc =
    elim (Bool-cases (ltb max_future_jobs (length ((t, id) ∷ order)))) [
      | inl e ↦ rw e (prune_future-IsBounded order _ p pc st sc)
      | inr e ↦ rw e (record {
        past = p;
        past_cap = pc;
        stale = st;
        stale_cap = sc;
        future_cap = ground arith;
      })
    ]

pub prune_future_jobs-IsBounded :
    {T : Type 0} (s : JobStore T)
    → IsListed s.past_order s.past_jobs
    → length s.past_order ≤ max_past_jobs
    → IsListed s.stale_order s.stale_jobs
    → length s.stale_order ≤ max_stale_jobs
    → IsBounded (prune_future_jobs s)
unfolding prune_future_jobs
prune_future_jobs-IsBounded s p pc st sc = prune_future-IsBounded s.future_order s p pc st sc
