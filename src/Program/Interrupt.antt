-- ===== src/Program/Interrupt.antt =====
-- `wait_for_stdin_interrupt`: the bytes of the terminal, until Ctrl+C.
use canary_mining.Common.{
  ℕ, Bool, true, false, ◌&&◌, ◌||◌, Option, none, some, List, [], ◌∷◌, ◌++◌, Result, ok, err,
  nat_beq, ◌≡◌, ◌↔◌, ◌⊎◌, refl, arith, if◌then◌else◌, Bool-cases, inl, inr,
}
use canary_mining.Common.Text.Basic.{Text}

-- One read of a byte: the byte, the end of the input, or an error.
pub data Read : Type 0 where
  byte : ℕ → Read
  end_of_input : Read
  read_error : Text → Read

abbrev pub is_interrupt : Bool → ℕ → Bool
is_interrupt saw_caret b = nat_beq b 0x03 || saw_caret && nat_beq b b'C'

-- The loop over the reads that happen: nothing as long as it waits for more. The end of the input is
-- slept over, and leaves `saw_caret` as it is.
unfoldable pub wait_for_stdin_interrupt : Bool → List Read → Option (Result Text (Unit {0}))
wait_for_stdin_interrupt saw_caret [] = none
wait_for_stdin_interrupt saw_caret (read_error e ∷ reads) = some (err e)
wait_for_stdin_interrupt saw_caret (end_of_input ∷ reads) = wait_for_stdin_interrupt saw_caret reads
wait_for_stdin_interrupt saw_caret (byte b ∷ reads) =
    let rest = wait_for_stdin_interrupt (nat_beq b b'^') reads in
    if is_interrupt saw_caret b then some (ok tt) else rest

-- The bytes that were read before an error.
abbrev pub bytes_of : List Read → List ℕ
bytes_of [] = []
bytes_of (read_error e ∷ reads) = []
bytes_of (end_of_input ∷ reads) = bytes_of reads
bytes_of (byte b ∷ reads) = b ∷ bytes_of reads

-- There is an end of text, or a caret followed by the letter C.
abbrev pub HasInterrupt : List ℕ → Type 0
HasInterrupt bs =
    ((before : List ℕ) × (after : List ℕ) × (bs ≡ before ++ (0x03 ∷ after)))
    ⊎ ((before : List ℕ) × (after : List ℕ) × (bs ≡ before ++ (b'^' ∷ b'C' ∷ after)))

abbrev StartsWithC : Bool → List ℕ → Type 0
StartsWithC saw bs = (saw ≡ true) × (after : List ℕ) × (bs ≡ b'C' ∷ after)

-- With the letter C after a caret that was seen before.
abbrev Interrupted : Bool → List ℕ → Type 0
Interrupted saw bs = HasInterrupt bs ⊎ StartsWithC saw bs

Interrupted-here :
    (saw : Bool) (b : ℕ) (bs : List ℕ) → is_interrupt saw b ≡ true → Interrupted saw (b ∷ bs)
Interrupted-here saw b bs h = elim (Bool-cases (nat_beq b 0x03)) [
  | inl e ↦ inl (inl ([], bs, ground arith))
  | inr e ↦ inr (ground arith, bs, ground arith)
]

Interrupted-cons :
    (saw : Bool) (b : ℕ) (bs : List ℕ) → Interrupted (nat_beq b b'^') bs → Interrupted saw (b ∷ bs)
Interrupted-cons saw b bs (inl (inl (before, after, e))) =
    inl (inl (b ∷ before, after, λ i. b ∷ e i))
Interrupted-cons saw b bs (inl (inr (before, after, e))) =
    inl (inr (b ∷ before, after, λ i. b ∷ e i))
Interrupted-cons saw b bs (inr (k, after, e)) = inl (inr ([], after, ground arith))

Interrupted-uncons :
    (saw : Bool) (b : ℕ) (bs : List ℕ)
    → is_interrupt saw b ≡ false
    → Interrupted saw (b ∷ bs)
    → Interrupted (nat_beq b b'^') bs
Interrupted-uncons saw b bs h (inl (inl ([], after, e))) = absurd (ground arith)
Interrupted-uncons saw b bs h (inl (inl (c ∷ before, after, e))) =
    inl (inl (before, after, ground arith))
Interrupted-uncons saw b bs h (inl (inr ([], after, e))) = inr (ground arith, after, ground arith)
Interrupted-uncons saw b bs h (inl (inr (c ∷ before, after, e))) =
    inl (inr (before, after, ground arith))
Interrupted-uncons saw b bs h (inr (k, after, e)) = absurd (ground arith)

not-Interrupted : (saw : Bool) → Interrupted saw [] → ⊥
not-Interrupted saw (inl (inl ([], after, e))) = ground arith
not-Interrupted saw (inl (inl (c ∷ before, after, e))) = ground arith
not-Interrupted saw (inl (inr ([], after, e))) = ground arith
not-Interrupted saw (inl (inr (c ∷ before, after, e))) = ground arith
not-Interrupted saw (inr (k, after, e)) = ground arith

wait_iff :
    (saw : Bool) (reads : List Read)
    → (wait_for_stdin_interrupt saw reads ≡ some (ok tt)) ↔ Interrupted saw (bytes_of reads)
unfolding wait_for_stdin_interrupt
wait_iff saw [] = (λ h. absurd (ground arith), λ h. absurd (not-Interrupted saw h))
wait_iff saw (read_error e ∷ reads) =
    (λ h. absurd (ground arith), λ h. absurd (not-Interrupted saw h))
wait_iff saw (end_of_input ∷ reads) = wait_iff saw reads
wait_iff saw (byte b ∷ reads) = elim (Bool-cases (is_interrupt saw b)) [
  | inl e ↦ rw e (λ h. Interrupted-here saw b (bytes_of reads) e, λ h. refl)
  | inr e ↦
      let (forth, back) = wait_iff (nat_beq b b'^') reads in
      rw e (
        λ h. Interrupted-cons saw b (bytes_of reads) (forth h),
        λ h. back (Interrupted-uncons saw b (bytes_of reads) e h),
      )
]

-- The program stops waiting for the terminal exactly when the bytes read so far, and before any error,
-- have an end of text or a caret followed by the letter C, also where the input ended in between.
pub wait_for_stdin_interrupt_iff :
    (reads : List Read)
    → (wait_for_stdin_interrupt false reads ≡ some (ok tt)) ↔ HasInterrupt (bytes_of reads)
wait_for_stdin_interrupt_iff reads =
    let (forth, back) = wait_iff false reads in
    (
      λ h. elim (forth h) [ inl x ↦ x | inr (k, after, e) ↦ absurd (ground arith) ],
      λ h. back (inl h),
    )
