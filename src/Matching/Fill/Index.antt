-- ===== src/Matching/Fill/Index.antt =====
-- The loops of `match_order` keep the index and the count of the book in step with its queues.
use riabow_dex_backend.Prelude.{
  ℕ, ◌+◌, ◌≡◌, ◌<◌, ◌⊎◌, inl, refl, arith, none, [], ◌∷◌, length, if◌then◌else◌,
}
use riabow_dex_backend.Prelude.Int.{ℤ, pos, ◌==ℤ◌, -ℤ_parts, pos_part, neg_part}
use riabow_dex_backend.Decimals.{Decimals}
use riabow_dex_backend.Matching.Types.{Uuid, PriceLevel}
use riabow_dex_backend.Matching.Fill.{
  Queue, Levels, Taker, Matching, fill_queue, fill_levels, record_trade, drop_maker, keep_level,
}
use riabow_dex_backend.Matching.Levels.Occurrences.{occurs, occurs_in, occurs_at, orders}

-- The count falls from `c` to `c'` by as much as the number of orders, from `n` to `n'`.
abbrev pub Drops : ℕ → ℕ → ℤ → ℤ → Type 0
Drops n n' c c' = pos_part c' + n + neg_part c ≡ pos_part c + n' + neg_part c'

module _ (d : Decimals) (t : Taker) where
  -- An id keeps its entry and its occurrences, or it leaves the index and occurs less often.
  fill_queue-index :
      (k : Uuid) (s : Matching) (q : Queue)
      → let (s', q') = fill_queue d t s q in
        ((s'.order_index k ≡ s.order_index k) × (occurs k q' ≡ occurs k q))
        ⊎ ((s'.order_index k ≡ none) × (occurs k q' < occurs k q))
  unfolding fill_queue
  fill_queue-index k s [] = inl (refl, refl)
  fill_queue-index k s (m ∷ q) =
      ground (arith, fill_queue-index k (drop_maker d t (record_trade d t s m) m) q)

  fill_queue-count :
      (s : Matching) (q : Queue)
      → let (s', q') = fill_queue d t s q in
        Drops (length q) (length q') s.order_count s'.order_count
  unfolding fill_queue
  fill_queue-count s [] = refl
  fill_queue-count s (m ∷ q) = ground (
    arith,
    -ℤ_parts s.order_count (pos 1),
    fill_queue-count (drop_maker d t (record_trade d t s m) m) q,
  )

  keep_level-occurs :
      (l n : PriceLevel) (k : Uuid) (q : Queue) (rest : Levels)
      → (occurs_in k (keep_level d t l q rest) ≡ occurs k q + occurs_in k rest)
        × (occurs_at n k (keep_level d t l q rest)
            ≡ (if n ==ℤ l then occurs k q else 0) + occurs_at n k rest)
        × (orders (keep_level d t l q rest) ≡ length q + orders rest)
  keep_level-occurs l n k [] rest = (omega arith, ground arith, omega arith)
  keep_level-occurs l n k (m ∷ q) rest = (refl, refl, refl)

  -- On a whole side, with the occurrences in each level.
  pub fill_levels-index :
      (n : PriceLevel) (k : Uuid) (s : Matching) (levels : Levels)
      → let (s', levels') = fill_levels d t s levels in
        ((s'.order_index k ≡ s.order_index k)
          × (occurs_in k levels' ≡ occurs_in k levels)
          × (occurs_at n k levels' ≡ occurs_at n k levels))
        ⊎ ((s'.order_index k ≡ none) × (occurs_in k levels' < occurs_in k levels))
  unfolding fill_levels
  fill_levels-index n k s [] = inl (refl, refl, refl)
  fill_levels-index n k s ((l, q) ∷ levels) =
      let rest = fill_levels d t (fill_queue d t s q).0 levels in
      ground (
        arith,
        fill_queue-index k s q,
        fill_levels-index n k (fill_queue d t s q).0 levels,
        keep_level-occurs l n k (fill_queue d t s q).1 rest.1,
      )

  pub fill_levels-count :
      (s : Matching) (levels : Levels)
      → let (s', levels') = fill_levels d t s levels in
        Drops (orders levels) (orders levels') s.order_count s'.order_count
  unfolding fill_levels
  fill_levels-count s [] = refl
  fill_levels-count s ((l, q) ∷ levels) =
      let rest = fill_levels d t (fill_queue d t s q).0 levels in
      ground (
        arith,
        fill_queue-count s q,
        fill_levels-count (fill_queue d t s q).0 levels,
        keep_level-occurs l l 0 (fill_queue d t s q).1 rest.1,
      )
