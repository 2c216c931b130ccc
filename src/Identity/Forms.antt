-- ===== src/Identity/Forms.antt =====
-- The forms of a miner identity, with the prefix sri/solo/ or without, each with a label or without
-- one, and the parser against them.
use canary_mining.Common.{
  ◌≡◌, ◌≢◌, ◌↔◌, refl, sym, ap, ◌∙◌, arith, Bool-cases, Option-cases, inl, inr, [], ◌∷◌, ◌++◌,
  false, none, some, Result, ok, subst,
}
use canary_mining.Common.Text.Basic.{
  Text, codes, trim, strip_prefix, starts_with, split, split_once, join, Lacks,
}
use canary_mining.Common.Text.{
  strip_prefix-append, strip_prefix-eq-some, strip_prefix-none, split_once_cases, split_cases,
  split_none, split-append, split_once-append, split_once-none, join-split,
}
use canary_mining.Config.{Network}
use canary_mining.Address.{AddressLib, validate_payout_address}
use canary_mining.Identity.{
  MinerIdentity, address_of_parts, select_address, normalize_label, parse_miner_identity,
  MinerIdentityError, or_bare,
}
use canary_mining.Identity.Parse.{parse_steps, steps-parse}

-- The address and the label of an identity.
pub data Form (s address label : Text) : Type 0 where
  -- sri/solo/<address>/<label>
  sri_worker :
      Lacks b'/' address
      → s ≡ codes "sri/solo/" ++ (address ++ (b'/' ∷ label))
      → Form s address label
  -- sri/solo/<address>
  sri_bare :
      Lacks b'/' address → s ≡ codes "sri/solo/" ++ address → label ≡ [] → Form s address label
  -- <address>.<label>
  worker :
      starts_with (codes "sri/") s ≡ false
      → Lacks b'.' address
      → s ≡ address ++ (b'.' ∷ label)
      → Form s address label
  -- <address>
  bare :
      starts_with (codes "sri/") s ≡ false
      → Lacks b'.' address
      → s ≡ address
      → label ≡ []
      → Form s address label

Form-path :
    (s a l address label : Text)
    → ◌≡◌ {A = Result MinerIdentityError (Text × Text)} (ok (a, l)) (ok (address, label))
    → Form s a l
    → Form s address label
Form-path s a l address label e f =
    let p : a ≡ address = ground arith in
    let q : l ≡ label = ground arith in subst (λ x. Form s x label) p (subst (λ y. Form s a y) q f)

parts-Form :
    (s rest address label : Text)
    → s ≡ codes "sri/solo/" ++ rest
    → address_of_parts (split b'/' rest) ≡ ok (address, label)
    → Form s address label
parts-Form s rest address label e h = elim (split_cases b'/' rest) [
  | inl k ↦
      Form-path s rest [] address label (unfold address_of_parts join in rw k.0 at h)
        (sri_bare k.1 e refl)
  | inr (a, b, k, k', l) ↦
      Form-path s a b address label (ap_parts a b k)
        (sri_worker l (e ∙ ap (λ x. codes "sri/solo/" ++ x) k'))
]
  where
    ap_parts :
        (a b : Text)
        → split b'/' rest ≡ a ∷ split b'/' b
        → ◌≡◌ {A = Result MinerIdentityError (Text × Text)} (ok (a, b)) (ok (address, label))
    ap_parts a b k =
        unfold address_of_parts in ap (λ x. ok (a, x)) (sym (join-split b'/' b)) ∙ (rw k at h)

bare-Form :
    (s address label : Text)
    → starts_with (codes "sri/") s ≡ false
    → ◌≡◌ {A = Result MinerIdentityError (Text × Text)}
        (ok (or_bare s (split_once b'.' s)))
        (ok (address, label))
    → Form s address label
bare-Form s address label n h = elim (split_once_cases b'.' s) [
  | inl k ↦ Form-path s s [] address label (rw k.0 at h) (bare n k.1 refl refl)
  | inr (a, b, k, e, l) ↦ Form-path s a b address label (rw k at h) (worker n l e)
]

select_address-Form :
    (s address label : Text) → select_address s ≡ ok (address, label) → Form s address label
unfolding select_address
select_address-Form s address label h = elim (Option-cases (strip_prefix (codes "sri/solo/") s)) [
  | inl e ↦ elim (Bool-cases (starts_with (codes "sri/") s)) [
    | inl n ↦ absurd (ground arith)
    | inr n ↦ bare-Form s address label n (rw (e, n, select_address) at h)
  ]
  | inr (rest, e) ↦
      parts-Form s rest address label (strip_prefix-eq-some _ s rest e)
        (rw (e, select_address) at h)
]

select_address_bare :
    (s : Text)
    → strip_prefix (codes "sri/solo/") s ≡ none
    → starts_with (codes "sri/") s ≡ false
    → select_address s ≡ ok (or_bare s (split_once b'.' s))
unfolding select_address
select_address_bare s e n = rw (e, n, select_address)

select_address_sri :
    (s rest : Text)
    → strip_prefix (codes "sri/solo/") s ≡ some rest
    → select_address s ≡ address_of_parts (split b'/' rest)
unfolding select_address
select_address_sri s rest e = rw (e, select_address)

no_sri_solo :
    (s : Text) → starts_with (codes "sri/") s ≡ false → strip_prefix (codes "sri/solo/") s ≡ none
no_sri_solo s n = strip_prefix-none (codes "sri/") (codes "solo/") s n

sri_solo :
    (s rest : Text) → s ≡ codes "sri/solo/" ++ rest → strip_prefix (codes "sri/solo/") s ≡ some rest
sri_solo s rest e =
    subst (λ x. strip_prefix (codes "sri/solo/") x ≡ some rest) (sym e)
      (strip_prefix-append (codes "sri/solo/") rest)

Form-select_address :
    (s address label : Text) → Form s address label → select_address s ≡ ok (address, label)
unfolding address_of_parts
Form-select_address s address label (sri_worker l e) =
    select_address_sri s _ (sri_solo s _ e) ∙ rw (split-append b'/' address label l, join-split)
Form-select_address s address label (sri_bare l e k) =
    select_address_sri s _ (sri_solo s _ e)
    ∙ rw (split_none b'/' address l, k) (unfold join in refl)
Form-select_address s address label (worker n l e) =
    select_address_bare s (no_sri_solo s n) n ∙ rw (e, split_once-append b'.' address label l)
Form-select_address s address label (bare n l e k) =
    select_address_bare s (no_sri_solo s n) n ∙ rw (e, k, split_once-none b'.' address l)

-- The parser selects an address and a label from a text exactly if the text has one of the forms of
-- `Form` with that address and label.
pub select_address_iff :
    (s address label : Text) → (select_address s ≡ ok (address, label)) ↔ Form s address label
select_address_iff s address label =
    (select_address-Form s address label, Form-select_address s address label)

-- An identity parses exactly when its trimmed text has one of the forms and the address in it is
-- valid for the network; the result is that text, the validated address, and the label trimmed, or
-- `default` where nothing is left of it.
pub parse-Form :
    (L : AddressLib) (input : Text) (network : Network) (identity : MinerIdentity)
    → (parse_miner_identity L input network ≡ ok identity) ↔ (
        (trim input ≢ [])
        × (address : Text) × (label : Text) × Form (trim input) address label
        × (validate_payout_address L address network ≡ ok identity.payout_address)
        × (identity.label ≡ normalize_label label)
        × (identity.user_identity ≡ trim input))
parse-Form L input network identity = (
  λ h.
      let (a, l, s, v, k, u, ne) = parse_steps L input network identity h in
      (ne, a, l, select_address-Form _ a l s, v, k, u),
  λ h.
      let (ne, a, l, f, v, k, u) = h in
      steps-parse L input network a l identity.payout_address ne (Form-select_address _ a l f) v
      ∙ λ i. ok (record {
        label = sym k i;
        payout_address = identity.payout_address;
        user_identity = sym u i;
      }),
)
