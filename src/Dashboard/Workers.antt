-- ===== src/Dashboard/Workers.antt =====
-- The workers of the dashboard: the sessions grouped by miner, with their totals.
use canary_mining.Common.{
  ℕ, ◌+◌, ◌%◌, Bool, false, not, ◌||◌, Option, none, some, List, [], ◌∷◌, ◌++◌, map, if◌then◌else◌,
  length, retain, any, is_empty, leb, ltb, nat_beq, bool_beq, ◌==◌, Result, ok, err,
}
use canary_mining.Common.Assoc.{get, insert}
use canary_mining.Common.Int64.{u64_mod}
use canary_mining.Common.Sort.{sort}
use canary_mining.Common.Text.Basic.{Text, codes, trim, text_eq}
use canary_mining.Common.Float.{Float, float_zero}
use canary_mining.Config.{Network}
use canary_mining.Address.{AddressLib}
use canary_mining.Identity.{MinerIdentity, MinerIdentityError, parse_miner_identity, miner_id}
use canary_mining.History.Writer.{session_key_eq}
use canary_mining.Dashboard.Sessions.{MinerSession, rejection_percent, unwrap_or}

pub record MinerWorker (F : Type 0) : Type 0 where
  pub worker_id : Text
  pub label : Text
  pub payout_address : Text
  pub user_identity : Text
  pub session_count : ℕ
  pub total_hashrate : F
  pub pool_diff : Option F
  pub best_diff : F
  pub total_shares : ℕ
  pub total_rejected : ℕ
  pub rejection_percent : F
  pub opened_at : Option ℕ
  pub closed_at : Option ℕ
  pub last_seen_at : Option ℕ
  pub uptime_seconds : Option ℕ
  pub last_seen_seconds : Option ℕ
  pub connected : Bool
  pub active_on_template : Bool
  pub connection_state : Text
  pub sessions : List (MinerSession F)

abbrev pub active_miner_grace_seconds : ℕ
active_miner_grace_seconds = 120

unfoldable pub miner_row_id : Network → Text → Text → Text → Text
miner_row_id network user_identity label payout_address =
    if not (payout_address == codes "-")
    then miner_id network payout_address label
    else if not (is_empty (trim user_identity))
    then user_identity
    else payout_address ++ (codes ":" ++ label)

-- The label and the address of an identity, also of one that does not parse.
abbrev pub label_address : Result MinerIdentityError MinerIdentity → Text × Text
label_address (ok identity) = (identity.label, identity.payout_address)
label_address (err e) = (codes "invalid identity", codes "-")

abbrev pub new_worker : (R : Float) → Text → Text → Text → Text → MinerWorker R.F
new_worker R id label payout_address user_identity = record {
  worker_id = id;
  label = label;
  payout_address = payout_address;
  user_identity = user_identity;
  session_count = 0;
  total_hashrate = float_zero R;
  pool_diff = none;
  best_diff = float_zero R;
  total_shares = 0;
  total_rejected = 0;
  rejection_percent = float_zero R;
  opened_at = none;
  closed_at = none;
  last_seen_at = none;
  uptime_seconds = none;
  last_seen_seconds = none;
  connected = false;
  active_on_template = false;
  connection_state = codes "offline";
  sessions = [];
}

abbrev pub Workers : Type 0 → Type 0
Workers F = List (Text × MinerWorker F)

abbrev pub with_session : {F : Type 0} → MinerSession F → MinerWorker F → MinerWorker F
with_session session worker = record worker { sessions = worker.sessions ++ session ∷ [] }

-- `entry(worker_id).or_insert_with(...)`, and the session pushed to the worker there.
unfoldable pub push_worker_session :
    (L : AddressLib) (R : Float) → Workers R.F → Network → Text → MinerSession R.F → Workers R.F
unfolding miner_row_id
push_worker_session L R workers network user_identity session =
    let (label, payout_address) = label_address (parse_miner_identity L user_identity network) in
    let id = miner_row_id network user_identity label payout_address in
    insert id
      (with_session session
        (unwrap_or (new_worker R id label payout_address user_identity) (get id workers)))
      workers

-- `sort_by` of `finalize_worker`: connected first, then by client and channel.
unfoldable pub session_before : {F : Type 0} → MinerSession F → MinerSession F → Bool
session_before a b =
    if not (bool_beq a.connected b.connected)
    then a.connected
    else if not (nat_beq a.client_id b.client_id)
    then ltb a.client_id b.client_id
    else leb a.channel_id b.channel_id

-- `Iterator::sum` of `u64`, which wraps as in a release build.
unfoldable pub sum_u64 : List ℕ → ℕ
sum_u64 [] = 0
sum_u64 (n ∷ ns) = (n + sum_u64 ns) % u64_mod

unfoldable pub fold {ℓ κ} : {A : Type ℓ} {B : Type κ} → (B → A → B) → B → List A → B
fold f b [] = b
fold f b (x ∷ xs) = fold f (f b x) xs

-- The sessions that have a value, with it.
unfoldable pub with_value :
    {F : Type 0} → (MinerSession F → Option ℕ) → List (MinerSession F) → List (MinerSession F × ℕ)
with_value f [] = []
with_value f (s ∷ ss) = elim (f s) [ none ↦ with_value f ss | some n ↦ (s, n) ∷ with_value f ss ]

-- `max_by_key` takes the last of the greatest, `min_by_key` the first of the least.
unfoldable pub max_by_key : {F : Type 0} → List (MinerSession F × ℕ) → Option (MinerSession F × ℕ)
unfolding fold
max_by_key [] = none
max_by_key (x ∷ xs) = some (fold (λ best y. if leb best.1 y.1 then y else best) x xs)

unfoldable pub min_by_key : {F : Type 0} → List (MinerSession F × ℕ) → Option (MinerSession F × ℕ)
unfolding fold
min_by_key [] = none
min_by_key (x ∷ xs) = some (fold (λ best y. if ltb y.1 best.1 then y else best) x xs)

abbrev pub field_of :
    {F : Type 0} → (MinerSession F → Option ℕ) → Option (MinerSession F × ℕ) → Option ℕ
field_of f none = none
field_of f (some e) = f e.0

-- The pool's difficulties of the connected sessions.
unfoldable pub active_diffs : {F : Type 0} → List (MinerSession F) → List F
active_diffs [] = []
active_diffs (s ∷ ss) =
    let rest = active_diffs ss in
    if s.connected then elim s.pool_diff [ none ↦ rest | some d ↦ d ∷ rest ] else rest

unfoldable pub common_pool_diff : (R : Float) → List (MinerSession R.F) → Option R.F
unfolding active_diffs
common_pool_diff R sessions = elim (active_diffs sessions) [
  | [] ↦ none
  | diff ∷ diffs ↦
      let bound = R.mul (R.fmax (R.abs diff) (R.literal 1 1)) (R.literal 1 1_000_000) in
      if any (λ value. not (R.le (R.abs (R.sub value diff)) bound)) diffs then none else some diff
]

abbrev pub displayed : {F : Type 0} → List (MinerSession F) → List (MinerSession F)
displayed sessions =
    let connected = retain (λ s. s.connected) sessions in
    if is_empty connected then sessions else connected

abbrev pub within_grace : Option ℕ → Bool
within_grace none = false
within_grace (some seconds) = leb seconds active_miner_grace_seconds

unfoldable pub finalize_worker : (R : Float) → MinerWorker R.F → MinerWorker R.F
unfolding fold session_before
finalize_worker R worker =
    let sessions = sort session_before worker.sessions in
    let connected = any (λ s. s.connected) sessions in
    let shares = sum_u64 (map (λ s. s.shares_accepted) sessions) in
    let rejected = sum_u64 (map (λ s. s.shares_rejected) sessions) in
    let uptime_session = max_by_key (with_value (λ s. s.uptime_seconds) (displayed sessions)) in
    let seen_session = min_by_key (with_value (λ s. s.last_seen_seconds) (displayed sessions)) in
    let last_seen_seconds = field_of (λ s. s.last_seen_seconds) seen_session in
    let active = connected || within_grace last_seen_seconds in
    record worker {
      sessions = sessions;
      session_count = length sessions;
      connected = connected;
      total_hashrate =
          fold R.add (float_zero R) (map (λ s. s.hashrate) (retain (λ s. s.connected) sessions));
      best_diff = fold R.fmax (float_zero R) (map (λ s. s.best_diff) sessions);
      total_shares = shares;
      total_rejected = rejected;
      rejection_percent = rejection_percent R shares rejected;
      opened_at = field_of (λ s. s.opened_at) uptime_session;
      closed_at = field_of (λ s. s.closed_at) uptime_session;
      uptime_seconds = field_of (λ s. s.uptime_seconds) uptime_session;
      last_seen_at = field_of (λ s. s.last_seen_at) seen_session;
      last_seen_seconds = last_seen_seconds;
      pool_diff = common_pool_diff R sessions;
      active_on_template = active;
      connection_state =
          if connected
          then codes "online"
          else if active
          then codes "recently_seen"
          else codes "offline";
    }
