-- ===== src/Positions/OpenRows.antt =====
-- A user has at most one open position in a market: what a decrease leaves of that.
use riabow_dex_backend.Prelude.{
  ℕ, ◌≤◌, ◌≡◌, arith, refl, true, Option, none, some, inl, inr, List, ap, sym, ◌∙◌, subst,
}
use riabow_dex_backend.Prelude.Int.{ℤ}
use riabow_dex_backend.DecimalOps.{DecimalOps}
use riabow_dex_backend.Positions.Types.{
  Position, PositionConfig, PositionStatus, open_position, closed, liquidated,
}
use riabow_dex_backend.Positions.Store.{PositionStore, find_position, update_position}
use riabow_dex_backend.Positions.Store.Rows.{
  count_open, DistinctIds, find_position-id, update-count, update-DistinctIds,
}
use riabow_dex_backend.Positions.Decrease.{
  Close, close_of, close_open, decrease_found, decrease_position, apply_close, full_close,
  partial_close, close_size_of, closes_fully,
}
use riabow_dex_backend.Positions.Decrease.Remains.{
  close_of-row, close_of-cases, full_close-Flat, apply_close-positions,
}

-- Ids are distinct, and a user has at most one open position in a market, on either side.
pub record OneOpen (ps : List Position) : Type 0 where
  pub distinct : DistinctIds ps
  pub one : (user symbol : ℕ) → count_open user symbol ps ≤ 1

-- A row that takes the place of one with its id and market does not open a second.
pub update-OneOpen :
    (ps : List Position) (p q : Position)
    → OneOpen ps
    → find_position q.id ps ≡ some p
    → q.user_address ≡ p.user_address
    → q.symbol ≡ p.symbol
    → p.status ≡ open_position
    → OneOpen (update_position q ps)
update-OneOpen ps p q h found user symbol is_open = record {
  distinct = update-DistinctIds ps q h.distinct;
  one = λ u y. ground (arith, h.one u y, update-count u y ps p q found);
}

close_open-OneOpen :
    (o : DecimalOps) (config : PositionConfig) (id : ℕ) (p : Position) (size : Option ℤ) (price : ℤ)
    (trade_id : Option ℕ) (s : PositionStore) (status : PositionStatus)
    → p.status ≡ status
    → find_position id s.positions ≡ some p
    → OneOpen s.positions
    → OneOpen (close_open status (close_of o config p size price) trade_id price s).1.positions
unfolding close_open
close_open-OneOpen o config id p size price trade_id s open_position is_open found h =
    let k = close_of o config p size price in
    let (same, user, symbol) = close_of-row o config p size price in
    subst OneOpen (sym (apply_close-positions k trade_id price s)) (
      update-OneOpen s.positions p k.row h
        (ap (λ i. find_position i s.positions) (same ∙ find_position-id id s.positions p found)
          ∙ found)
        user symbol is_open)
close_open-OneOpen o config id p size price trade_id s closed is_open found h = h
close_open-OneOpen o config id p size price trade_id s liquidated is_open found h = h

decrease_found-OneOpen :
    (o : DecimalOps) (config : PositionConfig) (id : ℕ) (size : Option ℤ) (price : ℤ)
    (trade_id : Option ℕ) (s : PositionStore) (found : Option Position)
    → find_position id s.positions ≡ found
    → OneOpen s.positions
    → OneOpen (decrease_found o config found size price trade_id s).1.positions
unfolding decrease_found
decrease_found-OneOpen o config id size price trade_id s none found h = h
decrease_found-OneOpen o config id size price trade_id s (some p) found h =
    close_open-OneOpen o config id p size price trade_id s p.status refl found h

pub decrease_position-OneOpen :
    (o : DecimalOps) (config : PositionConfig) (id : ℕ) (size : Option ℤ) (price : ℤ)
    (trade_id : Option ℕ) (s : PositionStore)
    → OneOpen s.positions
    → OneOpen (decrease_position o config id size price trade_id s).1.positions
unfolding decrease_position
decrease_position-OneOpen o config id size price trade_id s h =
    decrease_found-OneOpen o config id size price trade_id s (find_position id s.positions) refl h

-- A full close of the open position leaves the user none in the market.
closes_fully-whole :
    (o : DecimalOps) (config : PositionConfig) (p q : Position) (price : ℤ)
    → closes_fully o config p (close_size_of p none) q price ≡ true
unfolding closes_fully close_size_of
closes_fully-whole o config p q price = ground arith

close_of-none :
    (o : DecimalOps) (config : PositionConfig) (p : Position) (price : ℤ)
    → close_of o config p none price ≡ full_close o p price
close_of-none o config p price = elim (close_of-cases o config p none price) [
  | inl full ↦ full
  | inr (part, kept) ↦ ground (
    arith,
    kept,
    closes_fully-whole o config p (partial_close o p (close_size_of p none) price).row price,
  )
]

count-closed :
    (ps : List Position) (p q : Position)
    → OneOpen ps
    → find_position q.id ps ≡ some p
    → p.status ≡ open_position
    → q.status ≡ closed
    → count_open p.user_address p.symbol (update_position q ps) ≡ 0
count-closed ps p q h found is_open is_closed = ground (
  arith,
  is_open,
  is_closed,
  h.one p.user_address p.symbol,
  update-count p.user_address p.symbol ps p q found,
)

close_of-closed :
    (o : DecimalOps) (config : PositionConfig) (p : Position) (price : ℤ)
    → (close_of o config p none price).row.status ≡ closed
close_of-closed o config p price =
    subst (λ (k : Close). k.row.status ≡ closed) (sym (close_of-none o config p price))
      (full_close-Flat o p price).1.0

pub closed-OneOpen :
    (o : DecimalOps) (config : PositionConfig) (p : Position) (price : ℤ) (ps : List Position)
    → OneOpen ps
    → find_position p.id ps ≡ some p
    → p.status ≡ open_position
    → OneOpen (update_position (close_of o config p none price).row ps)
closed-OneOpen o config p price ps h found is_open =
    let (same, user, symbol) = close_of-row o config p none price in
    update-OneOpen ps p (close_of o config p none price).row h
      (ap (λ i. find_position i ps) same ∙ found) user symbol is_open

pub closed_count :
    (o : DecimalOps) (config : PositionConfig) (p : Position) (price : ℤ) (trade_id : Option ℕ)
    (s : PositionStore)
    → OneOpen s.positions
    → find_position p.id s.positions ≡ some p
    → p.status ≡ open_position
    → count_open p.user_address p.symbol
        (apply_close (close_of o config p none price) trade_id price s).positions
      ≡ 0
closed_count o config p price trade_id s h found is_open =
    let k = close_of o config p none price in
    ap (count_open p.user_address p.symbol) (apply_close-positions k trade_id price s)
    ∙ count-closed s.positions p k.row h
        (ap (λ i. find_position i s.positions) (close_of-row o config p none price).0 ∙ found)
        is_open (close_of-closed o config p price)
