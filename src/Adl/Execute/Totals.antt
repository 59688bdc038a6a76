-- ===== src/Adl/Execute/Totals.antt =====
-- What an event of auto-deleveraging reports is what it booked for the users.
use riabow_dex_backend.Prelude.{
  ℕ, ◌+◌, ◌≡◌, arith, refl, sym, ap, ◌∙◌, ◌≤◌, Bool, true, false, List, [], ◌∷◌, ◌++◌,
  if◌then◌else◌, length, length-append, ◌⊎◌, inl, inr, subst, ◌==◌, ◌&&◌,
}
use riabow_dex_backend.Prelude.Int.{ℤ, pos, ◌+ℤ◌, ◌-ℤ◌, leb_ℤ, int_laws}
use riabow_dex_backend.DecimalOps.{DecimalOps}
use riabow_dex_backend.Positions.Types.{Position}
use riabow_dex_backend.Positions.Store.{PnlEvent, is_open}
use riabow_dex_backend.Adl.Types.{UserAdlStats, AdlConfig, AdlRanking, AdlStore}
use riabow_dex_backend.Adl.Execute.{
  Outside, update_user_stats, Cut, cut_of, cut_row, Progress, book_cut, reduce_one, reduce_all,
  note_cut,
}

-- The sum of a number over the statistics of the users.
abbrev pub stat_total : (UserAdlStats → ℤ) → List UserAdlStats → ℤ
stat_total f [] = pos 0
stat_total f (u ∷ us) = f u +ℤ stat_total f us

abbrev pub events_of : UserAdlStats → ℤ
events_of u = pos u.total_adl_events

grow_first : (y s x z : ℤ) → z ≡ y +ℤ x → z +ℤ s ≡ y +ℤ s +ℤ x
grow_first y s x z h = grind (int_laws, h)

grow_rest : (y s x z : ℤ) → z ≡ s +ℤ x → y +ℤ z ≡ y +ℤ s +ℤ x
grow_rest y s x z h = grind (int_laws, h)

grown_total :
    (f : UserAdlStats → ℤ) (b : Bool) (u v : UserAdlStats) (us vs : List UserAdlStats) (x : ℤ)
    → f v ≡ f u +ℤ x
    → stat_total f vs ≡ stat_total f us +ℤ x
    → stat_total f (if b then v ∷ us else u ∷ vs) ≡ stat_total f (u ∷ us) +ℤ x
grown_total f true u v us vs x h k = grow_first (f u) (stat_total f us) x (f v) h
grown_total f false u v us vs x h k = grow_rest (f u) (stat_total f us) x (stat_total f vs) k

update-stat_total :
    (f : UserAdlStats → ℤ) (x : ℤ) (user symbol : ℕ) (size pnl : ℤ) (us : List UserAdlStats)
    → f (record {
      user_address = user;
      market_symbol = symbol;
      total_adl_events = 1;
      total_size_reduced = size;
      total_pnl_realized = pnl;
    })
      ≡ x
    → ((u : UserAdlStats)
        → f (record u {
          total_adl_events = u.total_adl_events + 1;
          total_size_reduced = u.total_size_reduced +ℤ size;
          total_pnl_realized = u.total_pnl_realized +ℤ pnl;
        })
          ≡ f u +ℤ x)
    → stat_total f (update_user_stats user symbol size pnl us) ≡ stat_total f us +ℤ x
unfolding update_user_stats
update-stat_total f x user symbol size pnl [] first more = grind (int_laws, first)
update-stat_total f x user symbol size pnl (u ∷ us) first more =
    grown_total f (u.user_address == user && u.market_symbol == symbol) u _ us _ x (more u)
      (update-stat_total f x user symbol size pnl us first more)

-- Rows that are not open stay as they are.
abbrev pub KeepsClosed : List Position → List Position → Type 0
KeepsClosed [] [] = Unit
KeepsClosed [] (q ∷ qs) = ⊥
KeepsClosed (p ∷ ps) [] = ⊥
KeepsClosed (p ∷ ps) (q ∷ qs) = ((is_open p.status ≡ true) ⊎ (q ≡ p)) × KeepsClosed ps qs

pub KeepsClosed-refl : (ps : List Position) → KeepsClosed ps ps
KeepsClosed-refl [] = tt
KeepsClosed-refl (p ∷ ps) = (inr refl, KeepsClosed-refl ps)

kept_trans :
    (p q r : Position)
    → (is_open p.status ≡ true) ⊎ (q ≡ p)
    → (is_open q.status ≡ true) ⊎ (r ≡ q)
    → (is_open p.status ≡ true) ⊎ (r ≡ p)
kept_trans p q r (inl h) k = inl h
kept_trans p q r (inr h) (inl k) = inl (subst (λ x. is_open x.status ≡ true) h k)
kept_trans p q r (inr h) (inr k) = inr (k ∙ h)

KeepsClosed-trans :
    (ps qs rs : List Position) → KeepsClosed ps qs → KeepsClosed qs rs → KeepsClosed ps rs
KeepsClosed-trans [] [] rs h k = k
KeepsClosed-trans [] (q ∷ qs) rs h k = absurd h
KeepsClosed-trans (p ∷ ps) [] rs h k = absurd h
KeepsClosed-trans (p ∷ ps) (q ∷ qs) [] h k = absurd k
KeepsClosed-trans (p ∷ ps) (q ∷ qs) (r ∷ rs) (h, hs) (k, ks) =
    (kept_trans p q r h k, KeepsClosed-trans ps qs rs hs ks)

cut_case :
    (b changed : Bool) (p q : Position) (ps rest : List Position)
    → (b ≡ true → is_open p.status ≡ true)
    → KeepsClosed ps rest
    → KeepsClosed
        (p ∷ ps)
        (if◌then◌else◌ {A = Bool × List Position} b (true, q ∷ ps) (changed, p ∷ rest)).1
cut_case true changed p q ps rest h k = (inl (h refl), KeepsClosed-refl ps)
cut_case false changed p q ps rest h k = (inr refl, k)

cut_row-KeepsClosed :
    (o : DecimalOps) (c : Cut) (id : ℕ) (ps : List Position) → KeepsClosed ps (cut_row o c id ps).1
unfolding cut_row
cut_row-KeepsClosed o c id [] = tt
cut_row-KeepsClosed o c id (p ∷ ps) =
    cut_case (p.id == id && is_open p.status) (cut_row o c id ps).0 p _ ps (cut_row o c id ps).1
      (λ h. ground (arith, h)) (cut_row-KeepsClosed o c id ps)

-- Since the store `s`: what is left and what was realized make up the shortfall; the statistics have
-- grown by the reduced size, the realized profit and the number of positions; the events of realized
-- profit are at most that many more; and rows that are not open are as they were.
abbrev pub Booked : ℤ → AdlStore → Progress → Type 0
Booked shortfall s g =
    (g.remaining_shortfall +ℤ g.total_pnl_realized ≡ shortfall)
    × (stat_total (λ u. u.total_size_reduced) g.store.stats
        ≡ stat_total (λ u. u.total_size_reduced) s.stats +ℤ g.total_reduced_size)
    × (stat_total (λ u. u.total_pnl_realized) g.store.stats
        ≡ stat_total (λ u. u.total_pnl_realized) s.stats +ℤ g.total_pnl_realized)
    × (stat_total events_of g.store.stats
        ≡ stat_total events_of s.stats +ℤ pos g.positions_affected)
    × (length g.store.tables.pnl_events ≤ length s.tables.pnl_events + g.positions_affected)
    × KeepsClosed s.tables.positions g.store.tables.positions

shift_left : (a b x total : ℤ) → a +ℤ b ≡ total → a -ℤ x +ℤ (b +ℤ x) ≡ total
shift_left a b x total h = grind (int_laws, h)

shift_right : (t' t a b x : ℤ) → t' ≡ t +ℤ x → t ≡ a +ℤ b → t' ≡ a +ℤ (b +ℤ x)
shift_right t' t a b x h k = grind (int_laws, h, k)

pos_suc : (n : ℕ) → pos n +ℤ pos 1 ≡ pos (n + 1)
pos_suc n = grind int_laws

pub zero_plus : (x : ℤ) → x +ℤ pos 0 ≡ x
zero_plus x = grind int_laws

pos_grows : (n : ℕ) → pos (n + 1) ≡ pos n +ℤ pos 1
pos_grows n = sym (pos_suc n)

inserted_length :
    (b : Bool) (e : PnlEvent) (es : List PnlEvent) (m n : ℕ)
    → length es ≤ m + n
    → length (if b then es ++ (e ∷ []) else es) ≤ m + (n + 1)
inserted_length true e es m n h = ground (arith, h, length-append es (e ∷ []))
inserted_length false e es m n h = omega (arith, h)

book_cut-Booked :
    (shortfall : ℤ) (s : AdlStore) (symbol : ℕ) (outside : Outside) (r : AdlRanking) (c : Cut)
    (positions : List Position) (g : Progress)
    → Booked shortfall s g
    → KeepsClosed s.tables.positions positions
    → Booked shortfall s (book_cut symbol outside r c positions g)
unfolding book_cut
book_cut-Booked shortfall s symbol outside r c positions g (left, size, pnl, count, events, old)
      kept =
    (
      shift_left g.remaining_shortfall g.total_pnl_realized c.pnl_realized shortfall left,
      shift_right _ (stat_total (λ u. u.total_size_reduced) g.store.stats) _ g.total_reduced_size
          c.size_to_reduce
          (update-stat_total (λ u. u.total_size_reduced) c.size_to_reduce r.user_address symbol
            c.size_to_reduce c.pnl_realized g.store.stats refl (λ u. refl))
          size,
      shift_right _ (stat_total (λ u. u.total_pnl_realized) g.store.stats) _ g.total_pnl_realized
          c.pnl_realized
          (update-stat_total (λ u. u.total_pnl_realized) c.pnl_realized r.user_address symbol
            c.size_to_reduce c.pnl_realized g.store.stats refl (λ u. refl))
          pnl,
      shift_right _ (stat_total events_of g.store.stats) _ (pos g.positions_affected) (pos 1)
            (update-stat_total events_of (pos 1) r.user_address symbol c.size_to_reduce
              c.pnl_realized g.store.stats refl (λ u. pos_grows u.total_adl_events))
            count
          ∙ ap (λ n. stat_total events_of s.stats +ℤ n) (pos_suc g.positions_affected),
      inserted_length outside.event_inserted _ g.store.tables.pnl_events
          (length s.tables.pnl_events) g.positions_affected events,
      kept,
    )

if-Booked :
    (b : Bool) (shortfall : ℤ) (s : AdlStore) (g h : Progress)
    → Booked shortfall s g
    → Booked shortfall s h
    → Booked shortfall s (if b then g else h)
if-Booked true shortfall s g h x y = x
if-Booked false shortfall s g h x y = y

note_cut-Booked :
    (shortfall : ℤ) (s : AdlStore) (event symbol : ℕ) (r : AdlRanking) (c : Cut) (g : Progress)
    → Booked shortfall s g
    → Booked shortfall s (note_cut event symbol r c g)
unfolding note_cut
note_cut-Booked shortfall s event symbol r c g h = h

reduce_one-Booked :
    (shortfall : ℤ) (s : AdlStore) (o : DecimalOps) (config : AdlConfig) (event symbol : ℕ)
    (outside : Outside) (r : AdlRanking) (g : Progress)
    → Booked shortfall s g
    → Booked shortfall s (reduce_one o config event symbol outside r g)
unfolding reduce_one
reduce_one-Booked shortfall s o config event symbol outside r g h =
    let c = cut_of o config r g.remaining_shortfall in
    let row = cut_row o c r.position_id g.store.tables.positions in
    let written = note_cut event symbol r c g in
    let (left, size, pnl, count, events, old) = h in
    if-Booked row.0 shortfall s (book_cut symbol outside r c row.1 written) written
      (book_cut-Booked shortfall s symbol outside r c row.1 written
        (note_cut-Booked shortfall s event symbol r c g h)
        (KeepsClosed-trans s.tables.positions g.store.tables.positions row.1 old
          (cut_row-KeepsClosed o c r.position_id g.store.tables.positions)))
      (note_cut-Booked shortfall s event symbol r c g h)

pub reduce_all-Booked :
    (shortfall : ℤ) (s : AdlStore) (o : DecimalOps) (config : AdlConfig) (event symbol : ℕ)
    (outsides : ℕ → Outside) (rs : List AdlRanking) (g : Progress)
    → Booked shortfall s g
    → Booked shortfall s (reduce_all o config event symbol outsides rs g)
unfolding reduce_all
reduce_all-Booked shortfall s o config event symbol outsides [] g h = h
reduce_all-Booked shortfall s o config event symbol outsides (r ∷ rs) g h =
    let next = reduce_one o config event symbol (outsides r.position_id) r g in
    if-Booked (leb_ℤ g.remaining_shortfall (pos 0)) shortfall s g
      (reduce_all o config event symbol outsides rs next) h
      (reduce_all-Booked shortfall s o config event symbol outsides rs next
        (reduce_one-Booked shortfall s o config event symbol (outsides r.position_id) r g h))
