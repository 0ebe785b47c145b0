-- ===== src/Scripts.antt =====
-- scripts/check_solidity.py and scripts/check_overrides.py: what the structural checks of the contracts
-- compute from the text of a file. The regular expressions, and reading the files, are parameters.
pub mod Pieces
pub mod Breaks
pub mod Balance
pub mod Brackets
pub mod Overrides
pub mod Consistency
use based_ai.Prelude.{
  ℕ, ◌+◌, Bool, true, ◌&&◌, ◌||◌, List, [], ◌∷◌, ◌++◌, map, nat_beq, if◌then◌else◌,
}
use based_ai.Prelude.Text.{Str}

-- Where the loops of `strip_strings_and_comments` stand: the outer one, or one of the inner ones,
-- that of a string with its quote.
pub data Mode : Type 0 where
  code line_comment block_comment : Mode
  text : ℕ → Mode

abbrev pub is_quote : ℕ → Bool
is_quote c = nat_beq c b'"' || nat_beq c b'\''

-- `"\n" if text[i] == "\n" else " "`
abbrev pub blank : ℕ → ℕ
blank c = if nat_beq c b'\n' then b'\n' else b' '

-- The text from `i` on, in each loop. A line comment's loop writes blanks for the two slashes, and
-- the outer loop copies the line break that ends it. The loop of a block comment ends one character
-- before the end of the text at the latest, and writes two blanks for what closes it in any case.
unfoldable pub strip_from : Mode → Str → Str
strip_from code [] = []
strip_from code (c ∷ []) = if is_quote c then b' ' ∷ [] else c ∷ []
strip_from code (c ∷ d ∷ s) =
    let line = strip_from line_comment s in
    let block = strip_from block_comment s in
    let inside = strip_from (text c) (d ∷ s) in
    let rest = strip_from code (d ∷ s) in
    if nat_beq c b'/' && nat_beq d b'/'
    then b' ' ∷ b' ' ∷ line
    else if nat_beq c b'/' && nat_beq d b'*'
    then b' ' ∷ b' ' ∷ block
    else if is_quote c
    then b' ' ∷ inside
    else c ∷ rest
strip_from line_comment [] = []
strip_from line_comment (c ∷ s) =
    let out = strip_from code s in
    let on = strip_from line_comment s in if nat_beq c b'\n' then c ∷ out else b' ' ∷ on
strip_from block_comment [] = b' ' ∷ b' ' ∷ []
strip_from block_comment (c ∷ []) = b' ' ∷ b' ' ∷ []
strip_from block_comment (c ∷ d ∷ s) =
    let out = strip_from code s in
    let on = strip_from block_comment (d ∷ s) in
    if nat_beq c b'*' && nat_beq d b'/' then b' ' ∷ b' ' ∷ out else blank c ∷ on
strip_from (text quote) [] = []
strip_from (text quote) (c ∷ []) = if nat_beq c quote then b' ' ∷ [] else blank c ∷ []
strip_from (text quote) (c ∷ d ∷ s) =
    let out = strip_from code (d ∷ s) in
    let escaped = strip_from (text quote) s in
    let on = strip_from (text quote) (d ∷ s) in
    if nat_beq c quote
    then b' ' ∷ out
    else if nat_beq c b'\\'
    then b' ' ∷ b' ' ∷ escaped
    else blank c ∷ on

unfoldable pub strip_strings_and_comments : Str → Str
strip_strings_and_comments = strip_from code
