-- ===== src/Scripts/Brackets.antt =====
-- When `check_balance` of scripts/check_solidity.py reports no error: the brackets of the text without
-- strings and comments balance.
use mathlib.Core.Path.{subst}
use mathlib.Core.List.{append_assoc, append-nil, reverse, reverse-cons, map-append}
use based_ai.Prelude.{
  ℕ, ◌+◌, ◌≡◌, ◌≢◌, ◌↔◌, refl, sym, ap, ◌∙◌, true, false, List, [], ◌∷◌, ◌++◌, map, nat_beq,
  nat_beq_iff, if◌then◌else◌, arith, Bool-cases, inl, inr,
}
use based_ai.Prelude.Eq.{nat_eq, beq_refl}
use based_ai.Prelude.Text.{Str}
use based_ai.Scripts.{strip_strings_and_comments}
use based_ai.Scripts.Balance.{
  is_opener, closer_of, is_closer, Open, popped, judge_closer, left_open, scan, check_balance,
}

-- The texts in which the brackets balance.
pub data Balanced : Str → Type 0 where
  nothing : Balanced []
  beside :
      (c : ℕ) (s : Str) → is_opener c ≡ false → is_closer c ≡ false → Balanced s → Balanced (c ∷ s)
  enclosed :
      (o : ℕ) (inside after : Str)
      → is_opener o ≡ true
      → Balanced inside
      → Balanced after
      → Balanced (o ∷ inside ++ closer_of o ∷ after)

scan-beside :
    (stack : Open) (line c : ℕ) (s : Str)
    → is_opener c ≡ false
    → is_closer c ≡ false
    → scan stack line (c ∷ s) ≡ scan stack (if nat_beq c b'\n' then line + 1 else line) s
unfolding scan
scan-beside stack line c s p q = elim (Bool-cases (nat_beq c b'\n')) [
  | inl newline ↦ rw newline refl
  | inr other ↦ rw other (rw p (rw q refl))
]

scan-opener :
    (stack : Open) (line o : ℕ) (s : Str)
    → is_opener o ≡ true
    → scan stack line (o ∷ s) ≡ scan ((o, line) ∷ stack) line s
unfolding scan
scan-opener stack line o s p =
    let other : nat_beq o b'\n' ≡ false = ground arith in rw other (rw p refl)

scan-closer :
    (stack : Open) (line c : ℕ) (s : Str)
    → is_closer c ≡ true
    → scan stack line (c ∷ s) ≡ judge_closer line c stack ++ scan (popped stack) line s
unfolding scan
scan-closer stack line c s p =
    let other : nat_beq c b'\n' ≡ false = ground arith in
    let no_opener : is_opener c ≡ false = ground arith in rw other (rw no_opener (rw p refl))

closer_of-is_closer : (o : ℕ) → is_closer (closer_of o) ≡ true
closer_of-is_closer o = ground arith

scan-enclosed :
    (stack : Open) (line o : ℕ) (inside after rest : Str) (middle later : ℕ)
    → is_opener o ≡ true
    → scan ((o, line) ∷ stack) line (inside ++ (closer_of o ∷ after ++ rest))
      ≡ scan ((o, line) ∷ stack) middle (closer_of o ∷ after ++ rest)
    → scan stack middle (after ++ rest) ≡ scan stack later rest
    → scan stack line ((o ∷ inside ++ closer_of o ∷ after) ++ rest) ≡ scan stack later rest
scan-enclosed stack line o inside after rest middle later p first second =
    let closed : scan ((o, line) ∷ stack) middle (closer_of o ∷ after ++ rest)
        ≡ scan stack middle (after ++ rest) =
      scan-closer ((o, line) ∷ stack) middle (closer_of o) (after ++ rest) (closer_of-is_closer o)
      ∙ (rw (beq_refl (closer_of o)) refl) in
    rw (append_assoc inside (closer_of o ∷ after) rest) (
      scan-opener stack line o (inside ++ (closer_of o ∷ after ++ rest)) p
      ∙ first
      ∙ closed
      ∙ second)

-- A balanced text is passed over without an error.
scan-Balanced :
    (stack : Open) (line : ℕ) (rest : Str) {s : Str}
    → Balanced s
    → (later : ℕ) × (scan stack line (s ++ rest) ≡ scan stack later rest)
scan-Balanced stack line rest nothing = (line, refl)
scan-Balanced stack line rest (beside c s p q b) =
    let (later, same) = scan-Balanced stack (if nat_beq c b'\n' then line + 1 else line) rest b in
    (later, scan-beside stack line c (s ++ rest) p q ∙ same)
scan-Balanced stack line rest (enclosed o inside after p b d) =
    let (middle, first) = scan-Balanced ((o, line) ∷ stack) line (closer_of o ∷ after ++ rest) b in
    let (later, second) = scan-Balanced stack middle rest d in
    (later, scan-enclosed stack line o inside after rest middle later p first second)

-- The text closes the brackets of the stack, from the last on, and balances otherwise.
abbrev Closes : Open → Str → Type 0
Closes [] s = Balanced s
Closes ((o, opened_at) ∷ stack) s =
    (inside : Str) × (after : Str) × Balanced inside
    × (s ≡ inside ++ closer_of o ∷ after)
    × Closes stack after

Closes-beside :
    (stack : Open) (c : ℕ) (s : Str)
    → is_opener c ≡ false
    → is_closer c ≡ false
    → Closes stack s
    → Closes stack (c ∷ s)
Closes-beside [] c s p q b = beside c s p q b
Closes-beside (o ∷ stack) c s p q (inside, after, b, split, rest) =
    (c ∷ inside, after, beside c inside p q b, ap (◌∷◌ c) split, rest)

Closes-enclosed :
    (stack : Open) (c opened_at : ℕ) (s : Str)
    → is_opener c ≡ true
    → Closes ((c, opened_at) ∷ stack) s
    → Closes stack (c ∷ s)
Closes-enclosed [] c opened_at s p (inside, after, b, split, rest) =
    subst Balanced (ap (◌∷◌ c) (sym split)) (enclosed c inside after p b rest)
Closes-enclosed ((o, o_at) ∷ stack) c opened_at s p
      (inside, after, b, split, (within, beyond, d, again, rest)) =
    (
      c ∷ inside ++ closer_of c ∷ within,
      beyond,
      enclosed c inside within p b d,
      ap (◌∷◌ c) (
          rw split
            (rw again (sym (append_assoc inside (closer_of c ∷ within) (closer_of o ∷ beyond))))),
      rest,
    )

append-eq-nil : {A : Type 0} (xs ys : List A) → xs ++ ys ≡ [] → (xs ≡ []) × (ys ≡ [])
append-eq-nil [] ys h = (refl, h)
append-eq-nil (x ∷ xs) ys h = cc

cons≢nil : {A : Type 0} {x : A} {xs : List A} → x ∷ xs ≢ []
cons≢nil h = cc

left_open-ne-nil : (stack : Open) (o : ℕ × ℕ) → map left_open (reverse (o ∷ stack)) ≢ []
left_open-ne-nil stack o h =
    let split : map left_open (reverse stack) ++ left_open o ∷ [] ≡ [] =
      rw (← map-append left_open (reverse stack) (o ∷ []), ← reverse-cons o stack) h in
    cons≢nil (append-eq-nil (map left_open (reverse stack)) (left_open o ∷ []) split).1

Closes-closer :
    (line c : ℕ) (s : Str) (stack : Open)
    → judge_closer line c stack ≡ []
    → Closes (popped stack) s
    → Closes stack (c ∷ s)
Closes-closer line c s [] h rest = cc
Closes-closer line c s ((o, opened_at) ∷ stack) h rest =
    let same : c ≡ closer_of o = ground (arith, nat_beq_iff (closer_of o) c) in
    ([], s, nothing, ap (λ d. d ∷ s) same, rest)

scan-Closes : (s : Str) (stack : Open) (line : ℕ) → scan stack line s ≡ [] → Closes stack s
scan-Closes [] [] line h = nothing
scan-Closes [] (o ∷ stack) line h = absurd (left_open-ne-nil stack o (unfold scan in h))
scan-Closes (c ∷ s) stack line h = elim (Bool-cases (is_opener c)) [
  | inl opener ↦
      Closes-enclosed stack c line s opener
        (scan-Closes s ((c, line) ∷ stack) line (sym (scan-opener stack line c s opener) ∙ h))
  | inr p ↦ elim (Bool-cases (is_closer c)) [
    | inr q ↦
        Closes-beside stack c s p q
          (scan-Closes s stack _ (sym (scan-beside stack line c s p q) ∙ h))
    | inl closer ↦
        let (judged, rest) = append-eq-nil _ _ (sym (scan-closer stack line c s closer) ∙ h) in
        Closes-closer line c s stack judged (scan-Closes s (popped stack) line rest)
  ]
]

-- No error is reported exactly where the brackets of the text without strings and comments balance.
pub check_balance_iff :
    (text : Str) → (check_balance text ≡ []) ↔ Balanced (strip_strings_and_comments text)
unfolding check_balance
check_balance_iff text = (
  scan-Closes (strip_strings_and_comments text) [] 1,
  λ b.
      let (later, same) = scan-Balanced [] 1 [] b in
      ap (scan [] 1) (sym (append-nil (strip_strings_and_comments text)))
      ∙ same
      ∙ (unfold scan in refl),
)
