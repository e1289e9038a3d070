-- ===== src/Pattern/Groups.antt =====
-- `expandPattern` against a grammar: groups of alternatives between plain texts.
use mathlib.Core.List.{flatten, append_assoc}
use enimul.Common.{
  ℕ, zero, suc, ◌+◌, ◌<◌, true, false, ◌&&◌, some, List, [], ◌∷◌, ◌++◌, map, ◌≡◌, refl, ap, ◌∙◌,
  subst, arith, leb, ◌==◌, Bytes, length, length-append, ◌-◌, take-length-append,
  drop-length-append,
}
use enimul.Outcome.{ok, panic, ◌>>=◌}
use enimul.Fragment.{slice?, slice_from?}
use enimul.Fragment.Split.{All}
use enimul.Pattern.{index_byte, split, combine, expand_loop, expand_pattern}
use enimul.Pattern.Words.{Without, join, split-join, index_byte-Without, index_byte-append}

-- A text, then a group in parentheses: its first alternative and the others.
pub record Group : Type 0 where
  pub text : Bytes
  pub first : Bytes
  pub others : List Bytes

-- A pattern: groups, then alternatives outside parentheses.
unfoldable pub render : List Group → Bytes → List Bytes → Bytes
unfolding join
render [] q qs = join b'|' q qs
render (g ∷ gs) q qs = g.text ++ b'(' ∷ (join b'|' g.first g.others ++ b')' ∷ render gs q qs)

-- What it stands for: one alternative of each group, in order.
unfoldable pub words : List Group → Bytes → List Bytes → List Bytes
unfolding flatten
words [] q qs = q ∷ qs
words (g ∷ gs) q qs =
    flatten (map (λ part. map (λ w. g.text ++ part ++ w) (words gs q qs)) (g.first ∷ g.others))

-- A text in front of a group has no parenthesis, an alternative no bar and no closing one.
abbrev pub IsPlain : Group → Type 0
IsPlain g =
    Without b'(' g.text
    × Without b')' g.text
    × Without b'|' g.first
    × Without b')' g.first
    × All (Without b'|') g.others
    × All (Without b')') g.others

-- In the alternatives at the end there is no bar and no opening parenthesis.
abbrev pub IsTail : Bytes → List Bytes → Type 0
IsTail q qs = Without b'|' q × Without b'(' q × All (Without b'|') qs × All (Without b'(') qs

Without-append : (b : ℕ) (xs ys : Bytes) → Without b xs → Without b ys → Without b (xs ++ ys)
Without-append b [] ys h k = k
Without-append b (x ∷ xs) ys (h, hs) k = (h, Without-append b xs ys hs k)

Without-join :
    (b : ℕ) (q : Bytes) (qs : List Bytes)
    → (b'|' == b) ≡ false
    → Without b q
    → All (Without b) qs
    → Without b (join b'|' q qs)
unfolding join
Without-join b q [] bar h hs = h
Without-join b q (p ∷ ps) bar h (hp, hs) =
    Without-append b q (b'|' ∷ join b'|' p ps) h (bar, Without-join b p ps bar hp hs)

-- The three slices of a text cut at two places.
cut_first : (xs rest : Bytes) → slice? (xs ++ rest) 0 (length xs) ≡ ok xs
cut_first xs rest =
    let inside : (leb 0 (length xs) && leb (length xs) (length (xs ++ rest))) ≡ true =
      rw (length-append xs rest) (ground arith) in
    let whole : length xs - 0 ≡ length xs = omega arith in
    rw (inside, whole) (ap ok (take-length-append xs rest))

cut_middle :
    (xs ys rest : Bytes) (lo hi : ℕ)
    → lo ≡ length xs
    → hi ≡ lo + length ys
    → slice? (xs ++ (ys ++ rest)) lo hi ≡ ok ys
cut_middle xs ys rest lo hi hlo hhi =
    let inside : (leb lo hi && leb hi (length (xs ++ (ys ++ rest)))) ≡ true =
      rw (length-append xs (ys ++ rest), length-append ys rest) (ground arith) in
    let width : hi - lo ≡ length ys = omega arith in
    rw (inside, width)
      (ap ok (rw hlo (rw (drop-length-append xs (ys ++ rest)) (take-length-append ys rest))))

cut_last : (xs rest : Bytes) (lo : ℕ) → lo ≡ length xs → slice_from? (xs ++ rest) lo ≡ ok rest
cut_last xs rest lo h =
    let inside : leb lo (length (xs ++ rest)) ≡ true = rw (length-append xs rest) (ground arith) in
    rw inside (ap ok (rw h (drop-length-append xs rest)))

-- One round at a group, where the searches and the slices succeed.
expand_round :
    (fuel : ℕ) (s : Bytes) (left right : ℕ) (prefix inner suffix : Bytes)
    → index_byte s b'(' ≡ some left
    → index_byte s b')' ≡ some right
    → slice? s 0 left ≡ ok prefix
    → slice? s (left + 1) right ≡ ok inner
    → slice_from? s (right + 1) ≡ ok suffix
    → expand_loop (suc fuel) s
      ≡ (expand_loop fuel suffix >>= λ results. ok (combine prefix (split inner b'|') results))
unfolding expand_loop
expand_round fuel s left right prefix inner suffix hl hr h1 h2 h3 =
    rw (hl, expand_loop) (rw (hr, h1, h2, h3) refl)

-- The recursive call is on what follows the group.
expand_group :
    (fuel : ℕ) (g : Group) (rest : Bytes)
    → IsPlain g
    → expand_loop (suc fuel) (g.text ++ b'(' ∷ (join b'|' g.first g.others ++ b')' ∷ rest))
      ≡ (expand_loop fuel rest >>= λ results. ok (combine g.text (g.first ∷ g.others) results))
expand_group fuel g rest (no_open, no_close, bar, close, bars, closes) =
    let inner = join b'|' g.first g.others in
    let s = g.text ++ b'(' ∷ (inner ++ b')' ∷ rest) in
    let opened = g.text ++ b'(' ∷ [] in
    let before = g.text ++ b'(' ∷ inner in
    let after_open : opened ++ (inner ++ b')' ∷ rest) ≡ s = append_assoc g.text (b'(' ∷ []) _ in
    let to_close : before ++ b')' ∷ rest ≡ s = append_assoc g.text (b'(' ∷ inner) _ in
    let len_opened = length-append g.text (b'(' ∷ []) in
    let len_before = length-append g.text (b'(' ∷ inner) in
    let no_close_before : Without b')' before =
      Without-append b')' g.text (b'(' ∷ inner) no_close
        (refl, Without-join b')' g.first g.others refl close closes) in
    let after_close : (before ++ b')' ∷ []) ++ rest ≡ s =
      append_assoc before (b')' ∷ []) rest ∙ to_close in
    let len_closed = length-append before (b')' ∷ []) in
    expand_round fuel s (length g.text) (length before) g.text inner rest
      (index_byte-append b'(' g.text (inner ++ b')' ∷ rest) no_open)
      (subst (λ t. index_byte t b')' ≡ some (length before)) to_close
        (index_byte-append b')' before rest no_close_before))
      (cut_first g.text _)
      (subst (λ t. slice? t (length g.text + 1) (length before) ≡ ok inner) after_open
        (cut_middle opened inner (b')' ∷ rest) _ _ (omega arith) (omega arith)))
      (subst (λ t. slice_from? t (length before + 1) ≡ ok rest) after_close
        (cut_last (before ++ b')' ∷ []) rest _ (omega arith)))
    ∙ ap (λ parts. expand_loop fuel rest >>= λ results. ok (combine g.text parts results))
        (split-join b'|' g.first g.others bar bars)

-- At the end there is no group.
expand_tail :
    (fuel : ℕ) (q : Bytes) (qs : List Bytes)
    → IsTail q qs
    → expand_loop (suc fuel) (join b'|' q qs) ≡ ok (q ∷ qs)
unfolding expand_loop
expand_tail fuel q qs (bar, no_open, bars, opens) =
    rw (index_byte-Without b'(' _ (Without-join b'(' q qs refl no_open opens), expand_loop)
      (ap ok (split-join b'|' q qs bar bars))

expand_loop-render :
    (fuel : ℕ) (gs : List Group) (q : Bytes) (qs : List Bytes)
    → length (render gs q qs) < fuel
    → All IsPlain gs
    → IsTail q qs
    → expand_loop fuel (render gs q qs) ≡ ok (words gs q qs)
unfolding render words combine
expand_loop-render zero gs q qs h plain tail = absurd (omega arith)
expand_loop-render (suc fuel) [] q qs h plain tail = expand_tail fuel q qs tail
expand_loop-render (suc fuel) (g ∷ gs) q qs h (plain, plains) tail =
    let rest = b')' ∷ render gs q qs in
    let outer = length-append g.text (b'(' ∷ (join b'|' g.first g.others ++ rest)) in
    let inner = length-append (join b'|' g.first g.others) rest in
    expand_group fuel g (render gs q qs) plain
    ∙ ap (λ r. r >>= λ results. ok (combine g.text (g.first ∷ g.others) results))
        (expand_loop-render fuel gs q qs (omega arith) plains tail)
    ∙ refl

-- `expandPattern` of a pattern that is written with groups of alternatives in parentheses, and
-- alternatives at its end, returns one text for each choice of an alternative in every group, in
-- the order of the choices, and does not panic. A text in front of a group has no parenthesis, an
-- alternative has no bar and no closing parenthesis, those at the end no opening one.
pub expand_pattern-render :
    (gs : List Group) (q : Bytes) (qs : List Bytes)
    → All IsPlain gs
    → IsTail q qs
    → expand_pattern (render gs q qs) ≡ ok (words gs q qs)
unfolding expand_pattern
expand_pattern-render gs q qs plain tail =
    expand_loop-render (suc (length (render gs q qs))) gs q qs (omega arith) plain tail

-- `expandPattern` panics on every pattern whose first closing parenthesis stands before the first
-- opening one.
pub expand_pattern_crossed :
    (pre mid rest : Bytes)
    → Without b'(' pre
    → Without b')' pre
    → Without b'(' mid
    → expand_pattern (pre ++ b')' ∷ (mid ++ b'(' ∷ rest)) ≡ panic
unfolding expand_pattern expand_loop
expand_pattern_crossed pre mid rest no_open no_close none_between =
    let s = pre ++ b')' ∷ (mid ++ b'(' ∷ rest) in
    let before = pre ++ b')' ∷ mid in
    let to_open : before ++ b'(' ∷ rest ≡ s = append_assoc pre (b')' ∷ mid) (b'(' ∷ rest) in
    let opens : index_byte s b'(' ≡ some (length before) =
      subst (λ t. index_byte t b'(' ≡ some (length before)) to_open
        (index_byte-append b'(' before rest
          (Without-append b'(' pre (b')' ∷ mid) no_open (refl, none_between))) in
    let closes : index_byte s b')' ≡ some (length pre) =
      index_byte-append b')' pre (mid ++ b'(' ∷ rest) no_close in
    let len_before = length-append pre (b')' ∷ mid) in
    let first_part : slice? s 0 (length before) ≡ ok before =
      subst (λ t. slice? t 0 (length before) ≡ ok before) to_open
        (cut_first before (b'(' ∷ rest)) in
    let crossed : (leb (length before + 1) (length pre) && leb (length pre) (length s)) ≡ false =
      ground arith in
    rw (opens, expand_loop) (rw (closes, crossed, first_part) refl)
