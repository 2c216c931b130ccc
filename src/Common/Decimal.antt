-- ===== src/Common/Decimal.antt =====
-- A `u64` written in decimal, and read back.
use canary_mining.Common.{
  ℕ, zero, suc, ◌+◌, ◌-◌, ◌*◌, ◌/◌, ◌%◌, ◌^◌, ◌<◌, ◌≡◌, ◌≤◌, ap, ◌∙◌, arith, [], ◌∷◌, if◌then◌else◌,
  ltb, Bool-cases, inl, inr,
}
use canary_mining.Common.Text.Basic.{Text}

unfoldable digits : ℕ → ℕ → Text → Text
digits zero n acc = acc
digits (suc fuel) n acc =
    let rest = digits fuel (n / 10) ((b'0' + n % 10) ∷ acc) in
    if ltb n 10 then (b'0' + n) ∷ acc else rest

-- `Display for u64`: a `u64` has at most twenty digits.
unfoldable pub decimal : ℕ → Text
unfolding digits
decimal n = digits 20 n []

unfoldable pub value : Text → ℕ → ℕ
value [] n = n
value (c ∷ s) n = value s (n * 10 + (c - b'0'))

value-digits : (fuel n : ℕ) (acc : Text) → n < 10 ^ fuel → value (digits fuel n acc) 0 ≡ value acc n
unfolding value digits
value-digits zero n acc h = ground arith
value-digits (suc fuel) n acc h = elim (Bool-cases (ltb n 10)) [
  | inl e ↦ rw (e, digits) (ground arith)
  | inr e ↦
      let e' : 10 ≤ n = ground arith in
      rw (e, digits)
        (value-digits fuel (n / 10) ((b'0' + n % 10) ∷ acc) (omega (arith, h, e'))
          ∙ ap (value acc) (omega arith))
]

pub value-decimal : (n : ℕ) → n < 10 ^ 20 → value (decimal n) 0 ≡ n
unfolding value decimal
value-decimal n h = value-digits 20 n [] h
