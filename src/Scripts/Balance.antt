-- ===== src/Scripts/Balance.antt =====
-- `check_balance` of scripts/check_solidity.py: the brackets of a file. An error is kept by the parts of
-- its message, without the path.
use mathlib.Core.List.{reverse}
use based_ai.Prelude.{ℕ, ◌+◌, Bool, ◌||◌, List, [], ◌∷◌, ◌++◌, map, nat_beq, if◌then◌else◌}
use based_ai.Prelude.Eq.{nat_eq}
use based_ai.Prelude.Text.{Str}
use based_ai.Scripts.{strip_strings_and_comments}

pub data Problem : Type 0 where
  unmatched : (line ch : ℕ) → Problem
  expected : (line wanted opener opened_at ch : ℕ) → Problem
  unclosed : (opened_at opener : ℕ) → Problem

-- `pairs` and its values
abbrev pub is_opener : ℕ → Bool
is_opener c = nat_beq c b'{' || nat_beq c b'(' || nat_beq c b'['

abbrev pub closer_of : ℕ → ℕ
closer_of c = if nat_beq c b'{' then b'}' else if nat_beq c b'(' then b')' else b']'

abbrev pub is_closer : ℕ → Bool
is_closer c = nat_beq c b'}' || nat_beq c b')' || nat_beq c b']'

-- The openers that are not closed yet, with their lines; the last one comes first.
abbrev pub Open : Type 0
Open = List (ℕ × ℕ)

abbrev pub popped : Open → Open
popped [] = []
popped (o ∷ stack) = stack

abbrev pub judge_closer : ℕ → ℕ → Open → List Problem
judge_closer line c [] = unmatched line c ∷ []
judge_closer line c ((opener, opened_at) ∷ stack) =
    if nat_beq (closer_of opener) c
    then []
    else expected line (closer_of opener) opener opened_at c ∷ []

abbrev pub left_open : ℕ × ℕ → Problem
left_open o = unclosed o.1 o.0

-- The loop over the characters, and then the one over the stack, whose bottom comes first.
unfoldable pub scan : Open → ℕ → Str → List Problem
scan stack line [] = map left_open (reverse stack)
scan stack line (c ∷ s) =
    let next_line = scan stack (line + 1) s in
    let pushed = scan ((c, line) ∷ stack) line s in
    let closed = scan (popped stack) line s in
    let on = scan stack line s in
    if nat_beq c b'\n'
    then next_line
    else if is_opener c
    then pushed
    else if is_closer c
    then judge_closer line c stack ++ closed
    else on

unfoldable pub check_balance : Str → List Problem
check_balance text = scan [] 1 (strip_strings_and_comments text)
