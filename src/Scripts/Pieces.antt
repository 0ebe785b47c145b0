-- ===== src/Scripts/Pieces.antt =====
-- What `strip_strings_and_comments` of scripts/check_solidity.py does, by the pieces that a text is
-- written in.
use based_ai.Prelude.{
  ℕ, ◌+◌, ◌≤◌, ◌≡◌, refl, ap, ◌∙◌, Bool, true, false, ◌&&◌, ◌||◌, List, [], ◌∷◌, ◌++◌, map, nat_beq,
  length, arith, All,
}
use based_ai.Prelude.Text.{Str}
use based_ai.Scripts.{
  Mode, code, line_comment, block_comment, text, is_quote, blank, strip_from,
  strip_strings_and_comments,
}

-- The result is as long as the text, or up to two characters longer.
strip_from-length :
    (m : Mode) (s : Str)
    → (length s ≤ length (strip_from m s)) × (length (strip_from m s) ≤ length s + 2)
unfolding strip_from
strip_from-length code [] = ground arith
strip_from-length code (c ∷ []) = ground arith
strip_from-length code (c ∷ d ∷ s) = ground (
  arith,
  strip_from-length line_comment s,
  strip_from-length block_comment s,
  strip_from-length (text c) (d ∷ s),
  strip_from-length code (d ∷ s),
)
strip_from-length line_comment [] = ground arith
strip_from-length line_comment (c ∷ s) =
    ground (arith, strip_from-length code s, strip_from-length line_comment s)
strip_from-length block_comment [] = ground arith
strip_from-length block_comment (c ∷ []) = ground arith
strip_from-length block_comment (c ∷ d ∷ s) =
    ground (arith, strip_from-length code s, strip_from-length block_comment (d ∷ s))
strip_from-length (text quote) [] = ground arith
strip_from-length (text quote) (c ∷ []) = ground arith
strip_from-length (text quote) (c ∷ d ∷ s) = ground (
  arith,
  strip_from-length code (d ∷ s),
  strip_from-length (text quote) s,
  strip_from-length (text quote) (d ∷ s),
)

-- A character of a string, as it is or after a backslash.
pub data Part : Type 0 where
  literal escaped : ℕ → Part

-- A piece of a text: a character outside of strings and comments, a comment of either kind, or a
-- string with its quote.
pub data Piece : Type 0 where
  plain : ℕ → Piece
  line block : Str → Piece
  quoted : ℕ → List Part → Piece

abbrev pub written_part : Part → Str
written_part (literal c) = c ∷ []
written_part (escaped c) = b'\\' ∷ c ∷ []

abbrev pub blanked_part : Part → Str
blanked_part (literal c) = blank c ∷ []
blanked_part (escaped c) = b' ' ∷ b' ' ∷ []

abbrev pub each : (Part → Str) → List Part → Str
each f [] = []
each f (p ∷ ps) = f p ++ each f ps

abbrev pub space : ℕ → ℕ
space c = b' '

abbrev pub written : List Piece → Str
written [] = []
written (plain c ∷ ps) = c ∷ written ps
written (line s ∷ ps) = b'/' ∷ b'/' ∷ s ++ written ps
written (block s ∷ ps) = b'/' ∷ b'*' ∷ s ++ b'*' ∷ b'/' ∷ written ps
written (quoted q parts ∷ ps) = q ∷ each written_part parts ++ q ∷ written ps

-- The same with blanks for the strings and the comments.
abbrev pub blanked : List Piece → Str
blanked [] = []
blanked (plain c ∷ ps) = c ∷ blanked ps
blanked (line s ∷ ps) = b' ' ∷ b' ' ∷ map space s ++ blanked ps
blanked (block s ∷ ps) = b' ' ∷ b' ' ∷ map blank s ++ b' ' ∷ b' ' ∷ blanked ps
blanked (quoted q parts ∷ ps) = b' ' ∷ each blanked_part parts ++ b' ' ∷ blanked ps

-- The character opens a comment in front of the text.
abbrev pub opens : ℕ → Str → Bool
opens c [] = false
opens c (d ∷ s) = nat_beq c b'/' && (nat_beq d b'/' || nat_beq d b'*')

abbrev pub ends_line : Str → Bool
ends_line [] = true
ends_line (c ∷ s) = nat_beq c b'\n'

abbrev pub closes : Str → Bool
closes [] = false
closes (c ∷ []) = false
closes (c ∷ d ∷ s) = nat_beq c b'*' && nat_beq d b'/' || closes (d ∷ s)

abbrev pub IsPart : ℕ → Part → Type 0
IsPart q (literal c) = (nat_beq c q ≡ false) × (nat_beq c b'\\' ≡ false)
IsPart q (escaped c) = Unit

-- Each piece ends where the next one begins.
abbrev pub AreValid : List Piece → Type 0
AreValid [] = Unit
AreValid (plain c ∷ ps) = (is_quote c ≡ false) × (opens c (written ps) ≡ false) × AreValid ps
AreValid (line s ∷ ps) =
    All (λ c. nat_beq c b'\n' ≡ false) s × (ends_line (written ps) ≡ true) × AreValid ps
AreValid (block s ∷ ps) = (closes s ≡ false) × AreValid ps
AreValid (quoted q parts ∷ ps) = (is_quote q ≡ true) × All (IsPart q) parts × AreValid ps

strip_from-plain :
    (c : ℕ) (s : Str)
    → is_quote c ≡ false
    → opens c s ≡ false
    → strip_from code (c ∷ s) ≡ c ∷ strip_from code s
unfolding strip_from
strip_from-plain c [] h g = ground arith
strip_from-plain c (d ∷ s) h g = ground arith

strip_from-line :
    (s rest : Str)
    → All (λ c. nat_beq c b'\n' ≡ false) s
    → ends_line rest ≡ true
    → strip_from line_comment (s ++ rest) ≡ map space s ++ strip_from code rest
unfolding strip_from
strip_from-line [] [] h e = refl
strip_from-line [] (c ∷ []) h e = ground arith
strip_from-line [] (c ∷ d ∷ rest) h e = ground arith
strip_from-line (c ∷ s) rest (p, h) e = rw p (ap (◌∷◌ b' ') (strip_from-line s rest h e))

strip_from-block :
    (s rest : Str)
    → closes s ≡ false
    → strip_from block_comment (s ++ b'*' ∷ b'/' ∷ rest)
      ≡ map blank s ++ b' ' ∷ b' ' ∷ strip_from code rest
unfolding strip_from
strip_from-block [] rest h = refl
strip_from-block (c ∷ []) rest h = ground arith
strip_from-block (c ∷ d ∷ s) rest h = ground (arith, strip_from-block (d ∷ s) rest)

strip_from-literal :
    (q c : ℕ) (s : Str)
    → nat_beq c q ≡ false
    → nat_beq c b'\\' ≡ false
    → strip_from (text q) (c ∷ s) ≡ blank c ∷ strip_from (text q) s
unfolding strip_from
strip_from-literal q c [] h g = ground arith
strip_from-literal q c (d ∷ s) h g = ground arith

strip_from-text :
    (q : ℕ) (parts : List Part) (rest : Str)
    → is_quote q ≡ true
    → All (IsPart q) parts
    → strip_from (text q) (each written_part parts ++ q ∷ rest)
      ≡ each blanked_part parts ++ b' ' ∷ strip_from code rest
unfolding strip_from
strip_from-text q [] [] h g = ground arith
strip_from-text q [] (c ∷ rest) h g = ground arith
strip_from-text q (literal c ∷ parts) rest h ((a, b), g) =
    strip_from-literal q c (each written_part parts ++ q ∷ rest) a b
    ∙ ap (◌∷◌ (blank c)) (strip_from-text q parts rest h g)
strip_from-text q (escaped c ∷ parts) rest h (p, g) =
    ground (arith, strip_from-text q parts rest h g)

strip_from-quote :
    (q : ℕ) (s : Str) → is_quote q ≡ true → strip_from code (q ∷ s) ≡ b' ' ∷ strip_from (text q) s
unfolding strip_from
strip_from-quote q [] h = ground arith
strip_from-quote q (d ∷ s) h = ground arith

strip_from-written : (ps : List Piece) → AreValid ps → strip_from code (written ps) ≡ blanked ps
unfolding strip_from
strip_from-written [] h = refl
strip_from-written (plain c ∷ ps) (p, q, h) =
    strip_from-plain c (written ps) p q ∙ ap (◌∷◌ c) (strip_from-written ps h)
strip_from-written (line s ∷ ps) (p, q, h) =
    rw (strip_from-line s (written ps) p q) (rw (strip_from-written ps h))
strip_from-written (block s ∷ ps) (p, h) =
    rw (strip_from-block s (written ps) p) (rw (strip_from-written ps h))
strip_from-written (quoted q parts ∷ ps) (p, g, h) =
    rw (strip_from-quote q (each written_part parts ++ q ∷ written ps) p)
      (rw (strip_from-text q parts (written ps) p g) (rw (strip_from-written ps h)))

-- A text that is written in pieces, where each ends before the next one begins, is given back with
-- blanks for its strings and comments, and all else as it was.
pub strip_strings_and_comments-written :
    (ps : List Piece) → AreValid ps → strip_strings_and_comments (written ps) ≡ blanked ps
unfolding strip_strings_and_comments
strip_strings_and_comments-written = strip_from-written
