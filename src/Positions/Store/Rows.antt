-- ===== src/Positions/Store/Rows.antt =====
-- The rows of positions: how a write changes what is found.
use riabow_dex_backend.Prelude.{
  ℕ, ◌+◌, ◌≡◌, arith, false, ◌&&◌, none, some, List, [], ◌∷◌, ap, ◌⊎◌, inr, if◌then◌else◌, ◌==◌,
  sum_by,
}
use riabow_dex_backend.Positions.Types.{PositionSide, open_position, Position}
use riabow_dex_backend.Positions.Store.{
  is_open, same_side, find_position, find_user_position, update_position,
}

-- The number of open rows of a user in a market, of one row and of all.
abbrev pub open_for : ℕ → ℕ → Position → ℕ
open_for user symbol p =
    if p.user_address == user && p.symbol == symbol && is_open p.status then 1 else 0

abbrev pub count_open : ℕ → ℕ → List Position → ℕ
count_open user symbol ps = sum_by (open_for user symbol) ps

-- No two rows have the same id.
abbrev pub DistinctIds : List Position → Type 0
DistinctIds [] = Unit
DistinctIds (p ∷ ps) = (find_position p.id ps ≡ none) × DistinctIds ps

pub some_injective : {A : Type 0} (x y : A) → some x ≡ some y → x ≡ y
some_injective x y h = ap (λ o. elim o [ none ↦ x | some z ↦ z ]) h

pub find_position-id :
    (id : ℕ) (ps : List Position) (p : Position) → find_position id ps ≡ some p → p.id ≡ id
unfolding find_position
find_position-id id [] p h = ground arith
find_position-id id (r ∷ ps) p h = ground (arith, find_position-id id ps p)

pub update-find :
    (id : ℕ) (ps : List Position) (p q : Position)
    → find_position id ps ≡ some p
    → q.id ≡ id
    → find_position id (update_position q ps) ≡ some q
unfolding find_position update_position
update-find id [] p q h same = ground arith
update-find id (r ∷ ps) p q h same = ground (arith, update-find id ps p q)

pub update-find_back :
    (id : ℕ) (ps : List Position) (q r : Position)
    → find_position id (update_position q ps) ≡ some r
    → (r ≡ q) ⊎ (find_position id ps ≡ some r)
unfolding find_position update_position
update-find_back id [] q r h = inr h
update-find_back id (p ∷ ps) q r h = ground (arith, update-find_back id ps q r)

-- The count changes by what the row changes.
pub update-count :
    (user symbol : ℕ) (ps : List Position) (p q : Position)
    → find_position q.id ps ≡ some p
    → count_open user symbol (update_position q ps) + open_for user symbol p
      ≡ count_open user symbol ps + open_for user symbol q
unfolding find_position update_position
update-count user symbol [] p q h = ground arith
update-count user symbol (r ∷ ps) p q h = ground (arith, update-count user symbol ps p q)

pub update-none :
    (id : ℕ) (ps : List Position) (q : Position)
    → find_position id ps ≡ none
    → find_position id (update_position q ps) ≡ none
unfolding find_position update_position
update-none id [] q h = ground arith
update-none id (r ∷ ps) q h = ground (arith, update-none id ps q)

pub update-DistinctIds :
    (ps : List Position) (q : Position) → DistinctIds ps → DistinctIds (update_position q ps)
unfolding update_position
update-DistinctIds [] q h = h
update-DistinctIds (r ∷ ps) q h = ground (arith, update-none r.id ps q, update-DistinctIds ps q)

-- What is found for a user is open, and is found by its id.
pub find_user-row :
    (user symbol : ℕ) (side : PositionSide) (ps : List Position) (p : Position)
    → find_user_position user symbol side ps ≡ some p
    → (p.user_address ≡ user) × (p.symbol ≡ symbol) × (p.status ≡ open_position)
unfolding find_user_position
find_user-row user symbol side [] p h = ground arith
find_user-row user symbol side (r ∷ ps) p h = ground (arith, find_user-row user symbol side ps p)

pub find_user-by_id :
    (user symbol : ℕ) (side : PositionSide) (ps : List Position) (p : Position)
    → DistinctIds ps
    → find_user_position user symbol side ps ≡ some p
    → find_position p.id ps ≡ some p
unfolding find_user_position find_position
find_user-by_id user symbol side [] p h found = ground arith
find_user-by_id user symbol side (r ∷ ps) p h found =
    ground (arith, find_user-by_id user symbol side ps p)

-- A user with no open row on either side has none.
pub find_user-none :
    (user symbol : ℕ) (side other : PositionSide) (ps : List Position)
    → same_side side other ≡ false
    → find_user_position user symbol side ps ≡ none
    → find_user_position user symbol other ps ≡ none
    → count_open user symbol ps ≡ 0
unfolding find_user_position
find_user-none user symbol side other [] differ h k = ground arith
find_user-none user symbol side other (r ∷ ps) differ h k =
    ground (arith, find_user-none user symbol side other ps differ)

pub find_user-count :
    (user symbol : ℕ) (side : PositionSide) (ps : List Position)
    → count_open user symbol ps ≡ 0
    → find_user_position user symbol side ps ≡ none
unfolding find_user_position
find_user-count user symbol side [] h = ground arith
find_user-count user symbol side (r ∷ ps) h = ground (arith, find_user-count user symbol side ps)
