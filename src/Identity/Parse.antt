-- ===== src/Identity/Parse.antt =====
-- What a parsed identity satisfies.
use canary_mining.Common.{
  ◌≡◌, ◌≢◌, refl, arith, Bool-cases, inl, inr, [], is_empty, false, ok, >>=-eq-ok, map_err,
  map_err-eq-ok, subst,
}
use canary_mining.Common.Text.Basic.{Text, codes, trim, is_whitespace}
use canary_mining.Common.Text.{trim_idem}
use canary_mining.Config.{Network}
use canary_mining.Address.{AddressLib, validate_payout_address}
use canary_mining.Identity.{MinerIdentity, select_address, normalize_label, parse_miner_identity}

pub normalize_label_lem :
    (label : Text)
    → (normalize_label label ≢ []) × (trim (normalize_label label) ≡ normalize_label label)
unfolding normalize_label
normalize_label_lem label = elim (Bool-cases (is_empty (trim label))) [
  | inl e ↦ rw e (ground arith, default_trim)
  | inr e ↦ rw e (ground arith, trim_idem label)
]
  where
    default_trim : trim (codes "default") ≡ codes "default"
    default_trim = unfold trim is_whitespace in refl

-- The steps that a parse went through.
pub parse_steps :
    (L : AddressLib) (input : Text) (network : Network) (identity : MinerIdentity)
    → parse_miner_identity L input network ≡ ok identity
    → (address : Text) × (label : Text) × (select_address (trim input) ≡ ok (address, label))
      × (validate_payout_address L address network ≡ ok identity.payout_address)
      × (identity.label ≡ normalize_label label)
      × (identity.user_identity ≡ trim input)
      × (trim input ≢ [])
unfolding parse_miner_identity
parse_steps L input network identity h = elim (Bool-cases (is_empty (trim input))) [
  | inl e ↦ absurd (ground arith)
  | inr e ↦
      let h' = rw (e, parse_miner_identity) at h in
      let (p, s, k) = >>=-eq-ok (select_address (trim input)) _ h' in
      let (payout, v, w) = >>=-eq-ok (map_err _ (validate_payout_address L p.0 network)) _ k in
      let v' = map_err-eq-ok _ _ v in
      (
        p.0,
        p.1,
        s,
        subst (λ x. validate_payout_address L p.0 network ≡ ok x) (ground arith) v',
        ground arith,
        ground arith,
        λ b. absurd (ground arith),
      )
]

pub steps-parse :
    (L : AddressLib) (input : Text) (network : Network) (address label payout : Text)
    → trim input ≢ []
    → select_address (trim input) ≡ ok (address, label)
    → validate_payout_address L address network ≡ ok payout
    → parse_miner_identity L input network
      ≡ ok (record {
        label = normalize_label label;
        payout_address = payout;
        user_identity = trim input;
      })
unfolding parse_miner_identity
steps-parse L input network address label payout ne s v =
    let e : is_empty (trim input) ≡ false = ground arith in rw (e, s, v)
