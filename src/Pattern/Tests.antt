-- ===== src/Pattern/Tests.antt =====
-- Runs of `expandPattern`, and its theorems at inputs.
use enimul.Common.{List, [], ◌∷◌, ◌++◌, ◌≡◌, refl}
use enimul.Outcome.{ok, panic}
use enimul.Pattern.{expand_pattern}
use enimul.Pattern.Words.{join}
use enimul.Pattern.Groups.{Group, render, words, expand_pattern-render, expand_pattern_crossed}

-- "w(a|b).x|y"
abbrev two_choices : List Group
two_choices = record { text = b'w' ∷ []; first = b'a' ∷ []; others = (b'b' ∷ []) ∷ [] } ∷ []

expand_choices :
    expand_pattern (render two_choices (b'.' ∷ b'x' ∷ []) ((b'y' ∷ []) ∷ []))
    ≡ ok (
        (b'w' ∷ b'a' ∷ b'.' ∷ b'x' ∷ [])
        ∷ (b'w' ∷ b'a' ∷ b'y' ∷ [])
        ∷ (b'w' ∷ b'b' ∷ b'.' ∷ b'x' ∷ [])
        ∷ (b'w' ∷ b'b' ∷ b'y' ∷ [])
        ∷ [])
unfolding expand_pattern render join
expand_choices = refl

expand_pattern-render_example :
    expand_pattern (render two_choices (b'.' ∷ b'x' ∷ []) ((b'y' ∷ []) ∷ []))
    ≡ ok (words two_choices (b'.' ∷ b'x' ∷ []) ((b'y' ∷ []) ∷ []))
expand_pattern-render_example =
    expand_pattern-render two_choices (b'.' ∷ b'x' ∷ []) ((b'y' ∷ []) ∷ [])
      (((refl, tt), (refl, tt), (refl, tt), (refl, tt), ((refl, tt), tt), ((refl, tt), tt)), tt)
      ((refl, (refl, tt)), (refl, (refl, tt)), ((refl, tt), tt), ((refl, tt), tt))

expand_pattern_crossed_example :
    expand_pattern ((b'a' ∷ []) ++ b')' ∷ ((b'b' ∷ []) ++ b'(' ∷ [])) ≡ panic
expand_pattern_crossed_example =
    expand_pattern_crossed (b'a' ∷ []) (b'b' ∷ []) [] (refl, tt) (refl, tt) (refl, tt)
