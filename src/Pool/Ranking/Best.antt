-- ===== src/Pool/Ranking/Best.antt =====
-- What `updateBest` promises: the best results are taken, and the pool is ready for `Get`.
use mathlib.Core.List.{Perm}
use mathlib.Core.List.Perm
use enimul.Common.{true, false, List, [], ◌∷◌, ◌++◌, ◌≡◌, inl, inr, arith, Bool-cases}
use enimul.Fragment.Split.{All}
use enimul.Pool.Ranking.{IpResult, not_worse, insert, sort}

All-weaken {ℓ} :
    {A : Type ℓ} (P Q : A → Type 0) (xs : List A) → ((x : A) → P x → Q x) → All P xs → All Q xs
All-weaken P Q [] f h = tt
All-weaken P Q (x ∷ xs) f (h, hs) = (f x h, All-weaken P Q xs f hs)

pub All-append {ℓ} :
    {A : Type ℓ} (P : A → Type 0) (xs ys : List A) → All P (xs ++ ys) → All P xs × All P ys
All-append P [] ys h = (tt, h)
All-append P (x ∷ xs) ys (h, hs) = let (l, r) = All-append P xs ys hs in ((h, l), r)

not_worse_trans :
    (a b c : IpResult) → not_worse a b ≡ true → not_worse b c ≡ true → not_worse a c ≡ true
not_worse_trans a b c h k = ground arith

not_worse_total : (a b : IpResult) → not_worse a b ≡ false → not_worse b a ≡ true
not_worse_total a b h = ground arith

-- Every result is not worse than those behind it.
abbrev pub Ranked : List IpResult → Type 0
Ranked [] = Unit
Ranked (r ∷ rs) = All (λ s. not_worse r s ≡ true) rs × Ranked rs

All-insert :
    (P : IpResult → Type 0) (r : IpResult) (ss : List IpResult)
    → P r
    → All P ss
    → All P (insert r ss)
unfolding insert
All-insert P r [] h hs = (h, hs)
All-insert P r (s ∷ ss) h (hs, hss) = elim (Bool-cases (not_worse r s)) [
  | inl y ↦ rw (y, insert) (h, (hs, hss))
  | inr y ↦ rw (y, insert) (hs, All-insert P r ss h hss)
]

insert-Ranked : (r : IpResult) (ss : List IpResult) → Ranked ss → Ranked (insert r ss)
unfolding insert
insert-Ranked r [] h = (tt, tt)
insert-Ranked r (s ∷ ss) (below, h) = elim (Bool-cases (not_worse r s)) [
  | inl y ↦
      rw (y, insert)
        (
          (
            y,
            All-weaken (λ t. not_worse s t ≡ true) (λ t. not_worse r t ≡ true) ss
                (λ t. not_worse_trans r s t y) below,
          ),
          (below, h),
        )
  | inr y ↦
      rw (y, insert)
        (
          All-insert (λ t. not_worse s t ≡ true) r ss (not_worse_total r s y) below,
          insert-Ranked r ss h,
        )
]

pub sort-Ranked : (rs : List IpResult) → Ranked (sort rs)
unfolding sort
sort-Ranked [] = tt
sort-Ranked (r ∷ rs) = insert-Ranked r (sort rs) (sort-Ranked rs)

insert-perm : (r : IpResult) (ss : List IpResult) → Perm (insert r ss) (r ∷ ss)
unfolding insert
insert-perm r [] = Perm.rfl
insert-perm r (s ∷ ss) = elim (Bool-cases (not_worse r s)) [
  | inl y ↦ rw (y, insert) Perm.rfl
  | inr y ↦ rw (y, insert) (Perm.trans (Perm.cons s (insert-perm r ss)) (Perm.swap r s ss))
]

pub sort-perm : (rs : List IpResult) → Perm (sort rs) rs
unfolding sort
sort-perm [] = Perm.rfl
sort-perm (r ∷ rs) = Perm.trans (insert-perm r (sort rs)) (Perm.cons r (sort-perm rs))

pub All-sort : (P : IpResult → Type 0) (rs : List IpResult) → All P rs → All P (sort rs)
unfolding sort
All-sort P [] h = tt
All-sort P (r ∷ rs) (h, hs) = All-insert P r (sort rs) h (All-sort P rs hs)

-- In a ranked list those in front are not worse than those behind a cut.
pub Ranked-append :
    (xs ys : List IpResult) → Ranked (xs ++ ys) → All (λ x. All (λ y. not_worse x y ≡ true) ys) xs
Ranked-append [] ys h = tt
Ranked-append (x ∷ xs) ys (below, h) =
    ((All-append (λ y. not_worse x y ≡ true) xs ys below).1, Ranked-append xs ys h)
