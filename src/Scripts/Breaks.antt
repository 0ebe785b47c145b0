-- ===== src/Scripts/Breaks.antt =====
-- The line breaks that `strip_strings_and_comments` of scripts/check_solidity.py keeps.
use mathlib.Core.List.{map-append}
use based_ai.Prelude.{ℕ, ◌≡◌, refl, ap, Bool, false, List, [], ◌∷◌, map, nat_beq, arith, All}
use based_ai.Prelude.Text.{Str}
use based_ai.Scripts.{blank, strip_strings_and_comments}
use based_ai.Scripts.Pieces.{
  Part, Piece, written_part, blanked_part, each, space, written, blanked, AreValid,
  strip_strings_and_comments-written, literal, escaped, plain, line, block, quoted,
}

abbrev pub is_break : ℕ → Bool
is_break c = nat_beq c b'\n'

-- No backslash stands before a line break.
abbrev pub KeepsLine : Part → Type 0
KeepsLine (literal c) = Unit
KeepsLine (escaped c) = is_break c ≡ false

abbrev pub IsUnbroken : Piece → Type 0
IsUnbroken (quoted q parts) = All KeepsLine parts
IsUnbroken _ = Unit

breaks-space :
    (s : Str) → All (λ c. nat_beq c b'\n' ≡ false) s → map is_break (map space s) ≡ map is_break s
breaks-space [] h = refl
breaks-space (c ∷ s) (p, h) = rw p (ap (◌∷◌ false) (breaks-space s h))

breaks-blank : (s : Str) → map is_break (map blank s) ≡ map is_break s
breaks-blank [] = refl
breaks-blank (c ∷ s) = ground (arith, breaks-blank s)

breaks-parts :
    (parts : List Part)
    → All KeepsLine parts
    → map is_break (each blanked_part parts) ≡ map is_break (each written_part parts)
breaks-parts [] h = refl
breaks-parts (literal c ∷ parts) (p, h) = ground (arith, breaks-parts parts h)
breaks-parts (escaped c ∷ parts) (p, h) = ground (arith, breaks-parts parts h)

breaks-blanked :
    (ps : List Piece)
    → AreValid ps
    → All IsUnbroken ps
    → map is_break (blanked ps) ≡ map is_break (written ps)
breaks-blanked [] h g = refl
breaks-blanked (plain c ∷ ps) (p, q, h) (u, g) = ap (◌∷◌ (is_break c)) (breaks-blanked ps h g)
breaks-blanked (line s ∷ ps) (p, q, h) (u, g) =
    rw (map-append, map-append, breaks-space s p) (rw (breaks-blanked ps h g))
breaks-blanked (block s ∷ ps) (p, h) (u, g) =
    rw (map-append, map-append, breaks-blank s) (rw (breaks-blanked ps h g))
breaks-blanked (quoted q parts ∷ ps) (p, parted, h) (u, g) =
    let mid : is_break q ≡ false = ground arith in
    rw mid (
      rw
        (
          map-append is_break (each blanked_part parts) (b' ' ∷ blanked ps),
          map-append is_break (each written_part parts) (q ∷ written ps),
          breaks-parts parts u,
          mid,
        )
        (rw (breaks-blanked ps h g)))

-- Of a text that is written in pieces, where each ends before the next one begins, the line breaks
-- are where they were, if no string of it has one after a backslash.
pub strip_strings_and_comments-breaks :
    (ps : List Piece)
    → AreValid ps
    → All IsUnbroken ps
    → map is_break (strip_strings_and_comments (written ps)) ≡ map is_break (written ps)
strip_strings_and_comments-breaks ps h unbroken =
    rw (strip_strings_and_comments-written ps h) (breaks-blanked ps h unbroken)
