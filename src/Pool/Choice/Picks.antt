-- ===== src/Pool/Choice/Picks.antt =====
-- The loop of `Get` over the weights.
use enimul.Common.{
  ℕ, zero, suc, ◌+◌, ◌-◌, ◌%◌, ◌≤◌, ◌<◌, true, false, some, List, [], ◌∷◌, leb, ltb, length,
  get_elem?, take, ◌≡◌, refl, inl, inr, arith, Bool-cases, subst,
}
use enimul.Fragment.Split.{All}
use enimul.Pool.Ranking.{sum}
use enimul.Pool.Choice.{pick}

-- Some target in every stretch of as many numbers as the modulus.
pub cycle : (c t s : ℕ) → s < t → (j : ℕ) × (j < t) × ((c + j) % t ≡ s)
cycle c t s h = elim (Bool-cases (leb (c % t) s)) [
  | inl y ↦ (s - c % t, grind arith, grind arith)
  | inr y ↦ (t - c % t + s, grind arith, grind arith)
]

some_injective {ℓ} : {A : Type ℓ} {x y : A} → some x ≡ some y → x ≡ y
some_injective h = cc

pub get_elem?-some {ℓ} :
    {A : Type ℓ} (xs : List A) (i : ℕ) → i < length xs → (a : A) × (get_elem? xs i ≡ some a)
get_elem?-some [] i h = absurd (omega arith)
get_elem?-some (x ∷ xs) zero h = (x, refl)
get_elem?-some (x ∷ xs) (suc i) h = get_elem?-some xs i (omega arith)

pub All-get_elem? :
    (P : ℕ → Type 0) (xs : List ℕ) (k : ℕ) {x : ℕ} → All P xs → get_elem? xs k ≡ some x → P x
All-get_elem? P [] k h e = cc
All-get_elem? P (x ∷ xs) zero (h, hs) e = subst P (some_injective e) h
All-get_elem? P (x ∷ xs) (suc k) (h, hs) e = All-get_elem? P xs k hs e

pub length-le-sum : (ws : List ℕ) → All (λ w. 1 ≤ w) ws → length ws ≤ sum ws
unfolding sum
length-le-sum [] h = omega arith
length-le-sum (w ∷ ws) (h, hs) = omega (arith, length-le-sum ws hs)

-- Below the sum of the weights the loop finds an index.
pub pick_below :
    (ws is : List ℕ) (acc target : ℕ)
    → length ws ≡ length is
    → acc ≤ target
    → target < acc + sum ws
    → (k : ℕ) × (i : ℕ) × (pick ws is acc target ≡ some i) × (get_elem? is k ≡ some i)
unfolding pick sum
pick_below [] is acc target len above below = absurd (omega arith)
pick_below (w ∷ ws) [] acc target len above below = absurd (omega arith)
pick_below (w ∷ ws) (i ∷ is) acc target len above below = elim (Bool-cases (ltb target (acc + w))) [
  | inl y ↦ (0, i, rw (y, pick) refl, refl)
  | inr y ↦
      let (k, n, found, at) =
        pick_below ws is (acc + w) target (omega arith) (ground arith) (omega arith) in
      (suc k, n, rw (y, pick) found, at)
]

-- The first target of the k-th index picks it.
pub pick_first :
    (ws is : List ℕ) (k acc i : ℕ)
    → length ws ≡ length is
    → All (λ w. 1 ≤ w) ws
    → get_elem? is k ≡ some i
    → (acc + sum (take k ws) < acc + sum ws) × (pick ws is acc (acc + sum (take k ws)) ≡ some i)
unfolding pick sum
pick_first ws [] k acc i len pos e = cc
pick_first [] (j ∷ is) k acc i len pos e = absurd (omega arith)
pick_first (w ∷ ws) (j ∷ is) zero acc i len (p, ps) e =
    let first : ltb (acc + 0) (acc + w) ≡ true = ground arith in (omega arith, rw (first, pick) e)
pick_first (w ∷ ws) (j ∷ is) (suc k) acc i len (p, ps) e =
    let (below, found) = pick_first ws is k (acc + w) i (omega arith) ps e in
    let later : ltb (acc + (w + sum (take k ws))) (acc + w) ≡ false = ground arith in
    let same : acc + (w + sum (take k ws)) ≡ acc + w + sum (take k ws) = omega arith in
    (omega arith, rw (later, pick) (rw same found))
