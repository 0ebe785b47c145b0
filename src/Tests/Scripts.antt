-- ===== src/Tests/Scripts.antt =====
-- The theorems on the structural checks of the contracts, at small files.
use based_ai.Prelude.{◌≡◌, ◌↔◌, refl, false, List, [], ◌∷◌, map}
use based_ai.Prelude.Text.{codes}
use based_ai.Scripts.{strip_strings_and_comments}
use based_ai.Scripts.Breaks.{is_break}
use based_ai.Scripts.Pieces.{
  Piece, plain, line, block, quoted, literal, escaped, written, blanked, AreValid,
  strip_strings_and_comments-written,
}
use based_ai.Scripts.Balance.{check_balance, unclosed, expected}
use based_ai.Scripts.Brackets.{Balanced, check_balance_iff}

-- `a/*{*/"\"}"//(` and a line break
abbrev pieces : List Piece
pieces =
    plain b'a'
    ∷ block (codes "{")
    ∷ quoted b'"' (escaped b'"' ∷ literal b'}' ∷ [])
    ∷ line (codes "(")
    ∷ plain b'\n'
    ∷ []

pieces-AreValid : AreValid pieces
pieces-AreValid =
    (refl, refl, (refl, (refl, (tt, ((refl, refl), tt)), ((refl, tt), refl, (refl, refl, tt)))))

strip_strings_and_comments-written_example :
    strip_strings_and_comments (written pieces) ≡ blanked pieces
strip_strings_and_comments-written_example =
    strip_strings_and_comments-written pieces pieces-AreValid

check_balance_iff_example :
    (check_balance (codes "f(){[1]}") ≡ [])
    ↔ Balanced (strip_strings_and_comments (codes "f(){[1]}"))
check_balance_iff_example = check_balance_iff (codes "f(){[1]}")

crossed : check_balance (codes "(]{") ≡ expected 1 b')' b'(' 1 b']' ∷ unclosed 1 b'{' ∷ []
unfolding check_balance based_ai.Scripts.Balance.scan strip_strings_and_comments
    based_ai.Scripts.strip_from
crossed = refl

-- A line break after a backslash in a string is lost, so that the lines after it are counted wrong.
lost_line :
    map is_break (strip_strings_and_comments (codes "'\\\n'")) ≡ false ∷ false ∷ false ∷ false ∷ []
unfolding strip_strings_and_comments based_ai.Scripts.strip_from
lost_line = refl
