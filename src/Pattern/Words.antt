-- ===== src/Pattern/Words.antt =====
-- The words of a pattern: `expandPattern` against a grammar.
use enimul.Common.{
  ℕ, true, false, none, some, List, [], ◌∷◌, ◌++◌, ◌≡◌, refl, ap, ◌∙◌, arith, ◌==◌, Bytes, length,
}
use enimul.Fragment.Split.{All}
use enimul.Pattern.{index_byte, split}

-- No byte of the text is `b`.
abbrev pub Without : ℕ → Bytes → Type 0
Without b cs = All (λ c. (c == b) ≡ false) cs

-- The parts with the separator between them.
unfoldable pub join : ℕ → Bytes → List Bytes → Bytes
join sep p [] = p
join sep p (q ∷ qs) = p ++ sep ∷ join sep q qs

split-Without : (sep : ℕ) (p : Bytes) → Without sep p → split p sep ≡ p ∷ []
unfolding split
split-Without sep [] h = refl
split-Without sep (c ∷ cs) (h, hs) = rw (h, split-Without sep cs hs) refl

split-append :
    (sep : ℕ) (p rest : Bytes) → Without sep p → split (p ++ sep ∷ rest) sep ≡ p ∷ split rest sep
unfolding split
split-append sep [] rest h = let same : (sep == sep) ≡ true = ground arith in rw same refl
split-append sep (c ∷ cs) rest (h, hs) = rw (h, split-append sep cs rest hs) refl

-- Splitting undoes joining.
pub split-join :
    (sep : ℕ) (p : Bytes) (ps : List Bytes)
    → Without sep p
    → All (Without sep) ps
    → split (join sep p ps) sep ≡ p ∷ ps
unfolding join
split-join sep p [] h hs = split-Without sep p h
split-join sep p (q ∷ qs) h (hq, hs) =
    split-append sep p (join sep q qs) h ∙ ap (◌∷◌ p) (split-join sep q qs hq hs)

pub index_byte-Without : (b : ℕ) (p : Bytes) → Without b p → index_byte p b ≡ none
unfolding index_byte
index_byte-Without b [] h = refl
index_byte-Without b (c ∷ cs) (h, hs) = rw (h, index_byte-Without b cs hs) refl

pub index_byte-append :
    (b : ℕ) (p rest : Bytes) → Without b p → index_byte (p ++ b ∷ rest) b ≡ some (length p)
unfolding index_byte
index_byte-append b [] rest h = let same : (b == b) ≡ true = ground arith in rw same refl
index_byte-append b (c ∷ cs) rest (h, hs) =
    rw (h, index_byte-append b cs rest hs) (ap some (omega arith))
