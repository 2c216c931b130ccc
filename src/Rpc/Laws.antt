-- ===== src/Rpc/Laws.antt =====
-- What the client takes for an answer, a cookie and a directory.
use canary_mining.Common.{
  ℕ, true, false, Option, none, some, List, [], ◌∷◌, ◌++◌, ◌≡◌, ◌↔◌, refl, sym, ap, ◌∙◌, arith,
  if◌then◌else◌, ◌==◌, Result, ok, err, Option-cases, inl, inr, length, length-append, subst,
  >>=-eq-ok, map_err-eq-ok,
}
use canary_mining.Common.Text.Basic.{
  Text, codes, text_eq, text_beq, text_beq_iff, trim, split_once, Lacks,
}
use canary_mining.Common.Text.{split_once-append, split_once_cases}
use canary_mining.Common.Paths.{path_join, separator}
use canary_mining.Config.{Network, mainnet, testnet4, signet, regtest}
use canary_mining.Rpc.Locations.{rpc_port, network_dir}
use canary_mining.Rpc.Decode.{
  Reader, BitcoinCoreRpcError, rpc, unexpected_result, missing_result, RpcResponse, no_response,
  visit_member, visit_map, ok_or, take_result, decode_rpc_response,
}
use canary_mining.Rpc.Client.{read_rpc_cookie}

module _ (J : Reader) where
  -- The last member under a key.
  abbrev pub last_member : Text → List (Text × J.Raw) → Option J.Raw
  last_member key [] = none
  last_member key ((k, raw) ∷ members) = elim (last_member key members) [
    | none ↦ if k == key then some raw else none
    | some later ↦ some later
  ]

  -- An error that is not `null`.
  abbrev pub error_of : Option J.Raw → Option J.Value
  error_of none = none
  error_of (some raw) = J.optional raw

  -- The answer by the two members: an error wins over a result, and one of the two has to be there.
  abbrev pub answer_of :
      {T : Type 0}
      → (J.Raw → Option T)
      → Text
      → Option J.Value
      → Option J.Raw
      → Result (BitcoinCoreRpcError J.Value) T
  answer_of from_raw method (some error) result = err (rpc method error)
  answer_of from_raw method none none = err (missing_result method)
  answer_of from_raw method none (some raw) = ok_or (unexpected_result method) (from_raw raw)

  -- The response with the members that are there.
  abbrev seen_members : Option J.Raw → Option J.Raw → RpcResponse J → RpcResponse J
  seen_members result error r = record {
    result = elim result [ none ↦ r.result | some raw ↦ some raw ];
    result_present = elim result [ none ↦ r.result_present | some raw ↦ true ];
    error = elim error [ none ↦ r.error | some raw ↦ J.optional raw ];
  }

  result-error : (k : Text) → k == codes "result" ≡ true → k == codes "error" ≡ false
  result-error k h =
      let same : k ≡ codes "result" = (text_beq_iff k (codes "result")).0 h in
      subst (λ x. x == codes "error" ≡ false) (sym same) (unfold text_beq in refl)

  step-seen :
      (k : Text) (raw : J.Raw) (r : RpcResponse J) (result error : Option J.Raw)
      → seen_members result error (visit_member J k raw r)
        ≡ seen_members
            (elim result [
              | none ↦ if k == codes "result" then some raw else none
              | some later ↦ some later
            ])
            (elim error [
              | none ↦ if k == codes "error" then some raw else none
              | some later ↦ some later
            ])
            r
  step-seen k raw r result error = ground (arith, result-error k)

  visit_map_lem :
      (members : List (Text × J.Raw)) (r : RpcResponse J)
      → visit_map J members r
        ≡ seen_members
            (last_member (codes "result") members)
            (last_member (codes "error") members)
            r
  unfolding visit_map
  visit_map_lem [] r = refl
  visit_map_lem ((k, raw) ∷ members) r =
      visit_map_lem members (visit_member J k raw r)
      ∙ step-seen k raw r (last_member (codes "result") members)
          (last_member (codes "error") members)

  take_result_lem :
      {T : Type 0} (from_raw : J.Raw → Option T) (method : Text) (result error : Option J.Raw)
      → take_result J from_raw method (seen_members result error (no_response J))
        ≡ answer_of from_raw method (error_of error) result
  unfolding take_result
  take_result_lem from_raw method none none = refl
  take_result_lem from_raw method (some raw) none = refl
  take_result_lem from_raw method none (some raw) = elim (Option-cases (J.optional raw)) [
    | inl e ↦ rw (e, take_result) refl
    | inr (v, e) ↦ rw (e, take_result) refl
  ]
  take_result_lem from_raw method (some result) (some raw) = elim (Option-cases (J.optional raw)) [
    | inl e ↦ rw (e, take_result) refl
    | inr (v, e) ↦ rw (e, take_result) refl
  ]

  -- The answer of a well-formed body: the last member `error` that is not `null` is the error, also
  -- where there is a result; without one the last member `result` is read; a body with neither has no
  -- result; and a result that does not read is unexpected. There is no panic.
  pub decode-answer_of :
      {T : Type 0} (from_raw : J.Raw → Option T) (method body : Text)
      (members : List (Text × J.Raw))
      → J.members body ≡ some members
      → decode_rpc_response J from_raw method body
        ≡ answer_of from_raw method
            (error_of (last_member (codes "error") members))
            (last_member (codes "result") members)
  unfolding decode_rpc_response
  decode-answer_of from_raw method body members e =
      rw (e, decode_rpc_response)
        (ap (take_result J from_raw method) (visit_map_lem members (no_response J))
          ∙ take_result_lem from_raw method (last_member (codes "result") members)
              (last_member (codes "error") members))

-- A cookie is read exactly when the file is read and its trimmed text is the user name, a colon and
-- the password, the first colon being that one.
pub read_rpc_cookie_iff :
    {V : Type 0} (read_to_string : Text → Result Text Text) (path user password : Text)
    → (read_rpc_cookie {V = V} read_to_string path ≡ ok (user, password)) ↔ (
        (raw : Text) × (read_to_string path ≡ ok raw)
        × (trim raw ≡ user ++ (b':' ∷ password))
        × Lacks b':' user)
unfolding read_rpc_cookie
read_rpc_cookie_iff {V} read_to_string path user password = (forth, back)
  where
    parts :
        (s : Text)
        → ◌≡◌ {A = Result (BitcoinCoreRpcError V) (Text × Text)}
            (ok_or (BitcoinCoreRpcError.invalid_cookie path) (split_once b':' s))
            (ok (user, password))
        → (s ≡ user ++ (b':' ∷ password)) × Lacks b':' user
    parts s h = elim (split_once_cases b':' s) [
      | inl e ↦ absurd (ground (arith, e.0))
      | inr e ↦
          let (a, b, k, q, l) = e in
          let pa : a ≡ user = ground (arith, k) in
          let pb : b ≡ password = ground (arith, k) in
          (q ∙ (λ i. pa i ++ (b':' ∷ pb i)), subst (Lacks b':') pa l)
    ]

    forth :
        read_rpc_cookie {V = V} read_to_string path ≡ ok (user, password)
        → (raw : Text) × (read_to_string path ≡ ok raw)
          × (trim raw ≡ user ++ (b':' ∷ password))
          × Lacks b':' user
    forth h =
        let (raw, r, k) = >>=-eq-ok _ _ h in
        let (t, l) = parts (trim raw) k in (raw, map_err-eq-ok _ _ r, t, l)

    back :
        ((raw : Text) × (read_to_string path ≡ ok raw)
          × (trim raw ≡ user ++ (b':' ∷ password))
          × Lacks b':' user)
        → read_rpc_cookie {V = V} read_to_string path ≡ ok (user, password)
    back h = let (raw, r, t, l) = h in rw (r, t, split_once-append b':' user password l) refl

far : (base s : Text) (c : ℕ) (t : Text) → base ≡ base ++ (s ++ (c ∷ t)) → ⊥
far base s c t e =
    omega (arith, ap length e, length-append base (s ++ (c ∷ t)), length-append s (c ∷ t))

cancel : (s a b : Text) → s ++ a ≡ s ++ b → a ≡ b
cancel [] a b e = e
cancel (c ∷ s) a b e = cancel s a b (ground arith)

dirs_apart : (m n : Network) (base : Text) → network_dir m base ≡ network_dir n base → m ≡ n
unfolding network_dir path_join
dirs_apart mainnet mainnet base e = refl
dirs_apart testnet4 testnet4 base e = refl
dirs_apart signet signet base e = refl
dirs_apart regtest regtest base e = refl
dirs_apart mainnet testnet4 base e = absurd (far base (separator base) _ _ e)
dirs_apart mainnet signet base e = absurd (far base (separator base) _ _ e)
dirs_apart mainnet regtest base e = absurd (far base (separator base) _ _ e)
dirs_apart testnet4 mainnet base e = absurd (far base (separator base) _ _ (sym e))
dirs_apart signet mainnet base e = absurd (far base (separator base) _ _ (sym e))
dirs_apart regtest mainnet base e = absurd (far base (separator base) _ _ (sym e))
dirs_apart testnet4 signet base e =
    let same : codes "testnet4" ≡ codes "signet" =
      cancel (separator base) _ _ (cancel base _ _ e) in
    cc
dirs_apart testnet4 regtest base e =
    let same : codes "testnet4" ≡ codes "regtest" =
      cancel (separator base) _ _ (cancel base _ _ e) in
    cc
dirs_apart signet testnet4 base e =
    let same : codes "signet" ≡ codes "testnet4" =
      cancel (separator base) _ _ (cancel base _ _ e) in
    cc
dirs_apart signet regtest base e =
    let same : codes "signet" ≡ codes "regtest" = cancel (separator base) _ _ (cancel base _ _ e) in
    cc
dirs_apart regtest testnet4 base e =
    let same : codes "regtest" ≡ codes "testnet4" =
      cancel (separator base) _ _ (cancel base _ _ e) in
    cc
dirs_apart regtest signet base e =
    let same : codes "regtest" ≡ codes "signet" = cancel (separator base) _ _ (cancel base _ _ e) in
    cc

-- Different networks never share a port of the RPC, nor a data directory below one base.
pub networks_apart :
    (m n : Network) (base : Text)
    → ((rpc_port m ≡ rpc_port n) ↔ (m ≡ n)) × ((network_dir m base ≡ network_dir n base) ↔ (m ≡ n))
unfolding rpc_port
networks_apart m n base =
    ((ground arith, λ e. ap rpc_port e), (dirs_apart m n base, λ e. ap (λ k. network_dir k base) e))
