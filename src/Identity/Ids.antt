-- ===== src/Identity/Ids.antt =====
-- Miner ids: two miners have one id exactly when network, payout address and label agree.
use canary_mining.Common.{
  ℕ, ◌≡◌, ◌≢◌, ◌↔◌, refl, sym, ap, ◌∙◌, arith, [], ◌∷◌, ◌++◌, false, some, Option, ok, subst, All,
  All-weaken,
}
use canary_mining.Common.Text.Basic.{
  Text, codes, trim, split_once, Lacks, is_whitespace, starts_with,
}
use canary_mining.Common.Text.{split_once-append, trim_append}
use canary_mining.Config.{Network, display}
use canary_mining.Address.{AddressLib, validate_payout_address}
use canary_mining.Identity.{MinerIdentity, normalize_label, miner_id, miner_id_from_identity}
use canary_mining.Identity.Forms.{Form, sri_worker, worker, parse-Form}

-- Two texts joined at the first occurrence of a character come apart in one way.
append-injective :
    (d : ℕ) (a b a' b' : Text)
    → Lacks d a
    → Lacks d a'
    → a ++ (d ∷ b) ≡ a' ++ (d ∷ b')
    → (a ≡ a') × (b ≡ b')
append-injective d a b a' b' l l' e =
    let same : ◌≡◌ {A = Option (Text × Text)} (some (a, b)) (some (a', b')) =
      sym (split_once-append d a b l) ∙ (ap (split_once d) e ∙ split_once-append d a' b' l') in
    (ground arith, ground arith)

display-Lacks : (n : Network) → Lacks b':' (display n)
unfolding display
display-Lacks Network.mainnet = omega arith
display-Lacks Network.testnet4 = omega arith
display-Lacks Network.signet = omega arith
display-Lacks Network.regtest = omega arith

display-injective : (m n : Network) → display m ≡ display n → m ≡ n
unfolding display
display-injective m n e = ground arith

-- Two miners have the same id exactly when they have the same network, payout address and trimmed
-- label, provided no payout address has a colon in it.
pub miner_id_iff :
    (m n : Network) (p q label label' : Text)
    → Lacks b':' p
    → Lacks b':' q
    → (miner_id m p label ≡ miner_id n q label') ↔ ((m ≡ n) × (p ≡ q) × (trim label ≡ trim label'))
unfolding miner_id
miner_id_iff m n p q label label' lp lq = (
  λ e.
      let (a, b) = append-injective b':' _ _ _ _ (display-Lacks m) (display-Lacks n) e in
      let (c, d) = append-injective b':' _ _ _ _ lp lq b in (display-injective m n a, c, d),
  λ e. rw (e.0, e.1, e.2),
)

no_sri :
    (address s : Text)
    → Lacks b'/' address
    → starts_with (codes "sri/") (address ++ (b'.' ∷ s)) ≡ false
unfolding starts_with
no_sri [] s l = ground arith
no_sri (a ∷ []) s l = ground arith
no_sri (a ∷ b ∷ []) s l = ground arith
no_sri (a ∷ b ∷ c ∷ []) s l = ground arith
no_sri (a ∷ b ∷ c ∷ d ∷ address) s l = ground arith

normalize_trimmed : (label : Text) → label ≢ [] → trim label ≡ label → normalize_label label ≡ label
unfolding normalize_label
normalize_trimmed [] ne e = absurd (ne refl)
normalize_trimmed (c ∷ label) ne e = rw e

-- A trimmed identity in one of the forms has the id of its address and label.
Form-miner_id :
    (L : AddressLib) (network : Network) (s address label payout : Text)
    → s ≢ []
    → trim s ≡ s
    → Form s address label
    → validate_payout_address L address network ≡ ok payout
    → label ≢ []
    → trim label ≡ label
    → miner_id_from_identity L network s ≡ some (miner_id network payout label)
unfolding miner_id_from_identity
Form-miner_id L network s address label payout ne e f v nl el =
    let f' = subst (λ x. Form x address label) (sym e) f in
    let ne' : trim s ≢ [] = λ b. ne (sym e ∙ b) in
    let identity : MinerIdentity = record {
      label = normalize_label label;
      payout_address = payout;
      user_identity = trim s;
    } in
    rw
      (
        (parse-Form L s network identity).1 (ne', address, label, f', v, refl, refl),
        miner_id_from_identity,
      )
      (rw (normalize_trimmed label nl el))

-- The two ways to name a worker give one miner id: that of the validated payout address and the
-- label. The address has no dot, slash or blank, and the label is trimmed and not empty.
pub forms_agree :
    (L : AddressLib) (network : Network) (address label payout : Text)
    → validate_payout_address L address network ≡ ok payout
    → address ≢ []
    → All (λ c. (is_whitespace c ≡ false) × (c ≢ b'.') × (c ≢ b'/')) address
    → label ≢ []
    → trim label ≡ label
    → (miner_id_from_identity L network (address ++ (b'.' ∷ label))
        ≡ some (miner_id network payout label))
      × (miner_id_from_identity L network (codes "sri/solo/" ++ (address ++ (b'/' ∷ label)))
          ≡ some (miner_id network payout label))
forms_agree L network [] label payout v na all nl el = absurd (na refl)
forms_agree L network (c ∷ a) label payout v na all nl el = (
  Form-miner_id L network _ (c ∷ a) label payout (λ b. cc b) dotted
      (worker (no_sri (c ∷ a) label no_slash) no_dot refl) v nl el,
  Form-miner_id L network _ (c ∷ a) label payout (λ b. cc b) slashed (sri_worker no_slash refl) v nl
      el,
)
  where
    no_slash : Lacks b'/' (c ∷ a)
    no_slash = All-weaken _ _ (λ x h. h.2) (c ∷ a) all

    no_dot : Lacks b'.' (c ∷ a)
    no_dot = All-weaken _ _ (λ x h. h.1) (c ∷ a) all

    dotted : trim (c ∷ (a ++ (b'.' ∷ label))) ≡ c ∷ (a ++ (b'.' ∷ label))
    dotted =
        trim_append c a _ all.0.0 (λ b. cc b)
          (trim_append b'.' [] label (unfold is_whitespace in refl) nl el)

    slashed :
        trim (codes "sri/solo/" ++ ((c ∷ a) ++ (b'/' ∷ label)))
        ≡ codes "sri/solo/" ++ ((c ∷ a) ++ (b'/' ∷ label))
    slashed =
        trim_append b's' (codes "ri/solo/") _ (unfold is_whitespace in refl) (λ b. cc b)
          (trim_append c a _ all.0.0 (λ b. cc b)
            (trim_append b'/' [] label (unfold is_whitespace in refl) nl el))
