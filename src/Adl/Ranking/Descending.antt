-- ===== src/Adl/Ranking/Descending.antt =====
-- The ranks of a side go by the score, and no position is lost or ranked twice.
use riabow_dex_backend.Prelude.{
  ℕ, ◌+◌, ◌≡◌, arith, refl, ◌∙◌, Bool, true, false, List, [], ◌∷◌, if◌then◌else◌, All, sum_by,
}
use riabow_dex_backend.Prelude.Int.{ℤ, ◌≤ℤ◌}
use riabow_dex_backend.DecimalOps.{DecimalOps}
use riabow_dex_backend.Positions.Types.{PositionSide}
use riabow_dex_backend.Positions.Store.{same_side}
use riabow_dex_backend.Adl.Types.{AdlConfig, AdlRanking, PositionForAdl}
use riabow_dex_backend.Adl.Ranking.{
  insert, sort, scores_more, scored_of, ranked_from, rank_side, max_size,
}

abbrev Scored : Type 0
Scored = PositionForAdl × ℤ

abbrev Below : ℤ → Scored → Type 0
Below x a = a.1 ≤ℤ x

-- No entry has a higher score than one before it.
abbrev Descends : List Scored → Type 0
Descends [] = Unit
Descends (a ∷ as') = All (Below a.1) as' × Descends as'

Below-weaken : (x y : ℤ) → x ≤ℤ y → (l : List Scored) → All (Below x) l → All (Below y) l
Below-weaken x y h [] k = tt
Below-weaken x y h (a ∷ l) (first, rest) = (omega (arith, h, first), Below-weaken x y h l rest)

if-All :
    (P : Scored → Type 0) (b : Bool) (l m : List Scored)
    → All P l
    → All P m
    → All P (if b then l else m)
if-All P true l m h k = h
if-All P false l m h k = k

insert-All :
    (P : Scored → Type 0) (a : Scored) (l : List Scored)
    → P a
    → All P l
    → All P (insert scores_more a l)
unfolding insert
insert-All P a [] h k = (h, tt)
insert-All P a (b ∷ l) h (first, rest) =
    if-All P (scores_more b a) (b ∷ insert scores_more a l) (a ∷ b ∷ l)
      (first, insert-All P a l h rest) (h, (first, rest))

if-Descends :
    (b : Bool) (l m : List Scored)
    → (b ≡ true → Descends l)
    → (b ≡ false → Descends m)
    → Descends (if b then l else m)
if-Descends true l m h k = h refl
if-Descends false l m h k = k refl

more_then : (a b : Scored) → scores_more b a ≡ true → Below b.1 a
more_then a b h = ground (arith, h)

less_then : (a b : Scored) → scores_more b a ≡ false → Below a.1 b
less_then a b h = ground (arith, h)

insert-Descends : (a : Scored) (l : List Scored) → Descends l → Descends (insert scores_more a l)
unfolding insert
insert-Descends a [] h = (tt, tt)
insert-Descends a (b ∷ l) (below, rest) =
    if-Descends (scores_more b a) (b ∷ insert scores_more a l) (a ∷ b ∷ l)
      (λ h. (insert-All (Below b.1) a l (more_then a b h) below, insert-Descends a l rest))
      (λ h. ((less_then a b h, Below-weaken b.1 a.1 (less_then a b h) l below), (below, rest)))

sort-Descends : (l : List Scored) → Descends (sort scores_more l)
unfolding sort
sort-Descends [] = tt
sort-Descends (a ∷ l) = insert-Descends a (sort scores_more l) (sort-Descends l)

-- The rows have the ranks from `n` on, and no row a higher score than one before it.
abbrev pub Ranked : ℕ → List AdlRanking → Type 0
Ranked n [] = Unit
Ranked n (r ∷ rs) =
    (r.rank ≡ n) × All (λ (q : AdlRanking). q.adl_score ≤ℤ r.adl_score) rs × Ranked (n + 1) rs

ranked_from-All :
    (x : ℤ) (n : ℕ) (side : PositionSide) (l : List Scored)
    → All (Below x) l
    → All (λ (q : AdlRanking). q.adl_score ≤ℤ x) (ranked_from n side l)
unfolding ranked_from
ranked_from-All x n side [] h = tt
ranked_from-All x n side ((p, score) ∷ l) (first, rest) =
    (first, ranked_from-All x (n + 1) side l rest)

ranked_from-Ranked :
    (n : ℕ) (side : PositionSide) (l : List Scored) → Descends l → Ranked n (ranked_from n side l)
unfolding ranked_from
ranked_from-Ranked n side [] h = tt
ranked_from-Ranked n side ((p, score) ∷ l) (below, rest) =
    (refl, ranked_from-All score (n + 1) side l below, ranked_from-Ranked (n + 1) side l rest)

-- Sums over the positions.
module _ (f : ℕ → ℕ) where
  abbrev of_scored : Scored → ℕ
  of_scored a = f a.0.id

  insert-sum :
      (a : Scored) (l : List Scored)
      → sum_by of_scored (insert scores_more a l) ≡ of_scored a + sum_by of_scored l
  unfolding insert
  insert-sum a [] = refl
  insert-sum a (b ∷ l) = ground (arith, insert-sum a l)

  sort-sum : (l : List Scored) → sum_by of_scored (sort scores_more l) ≡ sum_by of_scored l
  unfolding sort
  sort-sum [] = refl
  sort-sum (a ∷ l) = ground (arith, sort-sum l, insert-sum a (sort scores_more l))

  ranked_from-sum :
      (n : ℕ) (side : PositionSide) (l : List Scored)
      → sum_by (λ (r : AdlRanking). f r.position_id) (ranked_from n side l) ≡ sum_by of_scored l
  unfolding ranked_from
  ranked_from-sum n side [] = refl
  ranked_from-sum n side ((p, score) ∷ l) = ground (arith, ranked_from-sum (n + 1) side l)

  scored_of-sum :
      (o : DecimalOps) (config : AdlConfig) (largest : ℤ) (side : PositionSide)
      (ps : List PositionForAdl)
      → sum_by of_scored (scored_of o config largest side ps)
        ≡ sum_by (λ (p : PositionForAdl). if same_side p.side side then f p.id else 0) ps
  unfolding scored_of
  scored_of-sum o config largest side [] = refl
  scored_of-sum o config largest side (p ∷ ps) =
      ground (arith, scored_of-sum o config largest side ps)

  -- The rows of a side have the ranks 1, 2, 3 and on, with no score above one that is ranked before;
  -- and they are the positions of that side, each as often as it was: any sum over the ids of the
  -- rows is that sum over the ids of those positions.
  pub rank_side-Ranked :
      (o : DecimalOps) (config : AdlConfig) (ps : List PositionForAdl) (side : PositionSide)
      → Ranked 1 (rank_side o config ps side)
        × (sum_by (λ (r : AdlRanking). f r.position_id) (rank_side o config ps side)
            ≡ sum_by (λ (p : PositionForAdl). if same_side p.side side then f p.id else 0) ps)
  unfolding rank_side
  rank_side-Ranked o config ps side =
      let scored = scored_of o config (max_size ps) side ps in
      (
        ranked_from-Ranked 1 side (sort scores_more scored) (sort-Descends scored),
        ranked_from-sum 1 side (sort scores_more scored)
            ∙ sort-sum scored
            ∙ scored_of-sum o config (max_size ps) side ps,
      )
