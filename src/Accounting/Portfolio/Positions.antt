-- ===== src/Accounting/Portfolio/Positions.antt =====
-- The positions of src/accounting/portfolio.cpp against the signed sum of the trades.
use toy_quant_v.Base.{
  ℕ, ◌+◌, ◌%◌, ◌<◌, ◌≡◌, ap, ◌∙◌, ℤ, pos, negsuc, ◌+ℤ◌, ◌-ℤ◌, ltb_ℤ, neg_ℤ, pos_part, neg_part,
  to_i64, +ℤ_parts, -ℤ_parts, eq_of_parts, true, false, not, ◌||◌, List, [], ◌∷◌, arith, ◌==◌,
  if◌then◌else◌, add64, u64_mod, Bytes, bytes_eq, bytes_eq_refl, bytes_eq→≡, subst, All, Bool-cases,
  inl, inr,
}
use toy_quant_v.Base.Symbols.{entry_of-put_entry}
use toy_quant_v.Common.Float.{Float}
use toy_quant_v.Exchange.Order.{ExecutionReport, OrderSide, trade?, executed_quantity}
use toy_quant_v.Accounting.Portfolio.{
  Portfolio, PortfolioPosition, position_in, apply, close_part, open_part, settle_close, book_fee,
  signed, min_ℤ, close_and_open,
}

-- A quantity that int64_t holds.
abbrev pub FitsInt64 : ℕ → Type 0
FitsInt64 n = n < 9_223_372_036_854_775_808

neg_ℤ_parts : (a : ℤ) → pos_part (neg_ℤ a) + pos_part a ≡ neg_part (neg_ℤ a) + neg_part a
neg_ℤ_parts a = ground arith

-- A closing part and the rest of a trade come to the trade.
split-sum : (q c n : ℤ) → (q +ℤ c) +ℤ (n -ℤ c) ≡ q +ℤ n
split-sum q c n =
    eq_of_parts ((q +ℤ c) +ℤ (n -ℤ c)) (q +ℤ n)
      (omega (arith, +ℤ_parts q c, -ℤ_parts n c, +ℤ_parts (q +ℤ c) (n -ℤ c), +ℤ_parts q n))

split-difference : (q c n : ℤ) → (q +ℤ neg_ℤ c) +ℤ neg_ℤ (n -ℤ c) ≡ q +ℤ neg_ℤ n
split-difference q c n = eq_of_parts ((q +ℤ neg_ℤ c) +ℤ neg_ℤ (n -ℤ c)) (q +ℤ neg_ℤ n) (
    omega (
      arith,
      neg_ℤ_parts c,
      neg_ℤ_parts n,
      neg_ℤ_parts (n -ℤ c),
      +ℤ_parts q (neg_ℤ c),
      -ℤ_parts n c,
      +ℤ_parts (q +ℤ neg_ℤ c) (neg_ℤ (n -ℤ c)),
      +ℤ_parts q (neg_ℤ n),
    ))

close-split :
    (side : OrderSide) (q c n : ℤ)
    → (q +ℤ signed side c) +ℤ signed side (n -ℤ c) ≡ q +ℤ signed side n
close-split OrderSide.buy = split-sum
close-split OrderSide.sell = split-difference

rest-positive : (a : ℤ) (n : ℕ) → neg_part (pos n -ℤ min_ℤ a (pos n)) ≡ 0
unfolding ◌-ℤ◌
rest-positive (pos k) n = ground arith
rest-positive (negsuc k) n = ground arith

pub add_zero : (side : OrderSide) (q : ℤ) → q +ℤ signed side (pos 0) ≡ q
unfolding ◌+ℤ◌
add_zero OrderSide.buy q = ground arith
add_zero OrderSide.sell q = ground arith

pub +ℤ_assoc : (a b c : ℤ) → (a +ℤ b) +ℤ c ≡ a +ℤ (b +ℤ c)
+ℤ_assoc a b c =
    eq_of_parts ((a +ℤ b) +ℤ c) (a +ℤ (b +ℤ c))
      (omega (arith, +ℤ_parts a b, +ℤ_parts b c, +ℤ_parts (a +ℤ b) c, +ℤ_parts a (b +ℤ c)))

pub to_i64-exact : (n : ℕ) → FitsInt64 n → to_i64 n ≡ pos n
unfolding to_i64
to_i64-exact n h = ground arith

module _ {F : Type 0} where
  -- What a report trades of a symbol, and which way.
  abbrev pub traded_of : Bytes → ExecutionReport F → ℕ
  traded_of symbol r = if bytes_eq r.symbol symbol then executed_quantity r else 0

  abbrev pub change_of : Bytes → ExecutionReport F → ℤ
  change_of symbol r = signed r.side (pos (traded_of symbol r))

  unfoldable pub net_quantity : Bytes → List (ExecutionReport F) → ℤ
  net_quantity symbol [] = pos 0
  net_quantity symbol (r ∷ rs) = change_of symbol r +ℤ net_quantity symbol rs

  unfoldable pub total_quantity : Bytes → List (ExecutionReport F) → ℕ
  total_quantity symbol [] = 0
  total_quantity symbol (r ∷ rs) = traded_of symbol r + total_quantity symbol rs

module _ {F : Type 0} ⦃fl : Float F⦄ where
  unfoldable pub apply_all : List (ExecutionReport F) → Portfolio F → Portfolio F
  apply_all [] p = p
  apply_all (r ∷ rs) p = apply_all rs (apply r p)

  positions-settle_close :
      (r : ExecutionReport F) (c : ℤ) (x : PortfolioPosition F) (p : Portfolio F)
      → let (x', p') = settle_close r c x p in
        (p'.positions ≡ p.positions) × (x'.traded_quantity ≡ x.traded_quantity)
  unfolding settle_close
  positions-settle_close r c x p = ground arith

  positions-book_fee :
      (r : ExecutionReport F) (p : Portfolio F) → (book_fee r p).positions ≡ p.positions
  unfolding book_fee
  positions-book_fee r p = ground arith

  close_part-quantity :
      (r : ExecutionReport F) (n : ℕ) (x : PortfolioPosition F) (p : Portfolio F)
      → let (x', p', left) = close_part r (pos n) x p in
        (x'.quantity +ℤ signed r.side left ≡ x.quantity +ℤ signed r.side (pos n))
        × (neg_part left ≡ 0)
        × (p'.positions ≡ p.positions)
        × (x'.traded_quantity ≡ x.traded_quantity)
  unfolding close_part
  close_part-quantity r n x p =
      let against = neg_ℤ (signed r.side x.quantity) in
      let kept = positions-settle_close r (min_ℤ against (pos n)) x p in
      elim (Bool-cases (ltb_ℤ (pos 0) against)) [
        | inl some_held ↦
            let c = min_ℤ against (pos n) in
            ground (arith, close-split r.side x.quantity c (pos n), rest-positive against n, kept)
        | inr none_held ↦ ground arith
      ]

  open_part-quantity :
      (r : ExecutionReport F) (left : ℤ) (x : PortfolioPosition F) (p : Portfolio F)
      → neg_part left ≡ 0
      → let (x', p') = open_part r left x p in
        (x'.quantity ≡ x.quantity +ℤ signed r.side left)
        × (p'.positions ≡ p.positions)
        × (x'.traded_quantity ≡ x.traded_quantity)
  unfolding open_part ◌+ℤ◌
  open_part-quantity r left x p h = ground arith

  close_and_open-quantity :
      (r : ExecutionReport F) (z : ℤ) (x : PortfolioPosition F) (p : Portfolio F)
      → neg_part z ≡ 0
      → let (x', p') = close_and_open r z x p in
        (x'.quantity ≡ x.quantity +ℤ signed r.side z)
        × (p'.positions ≡ p.positions)
        × (x'.traded_quantity ≡ x.traded_quantity)
  unfolding close_and_open
  close_and_open-quantity r (negsuc n) x p h = ground arith
  close_and_open-quantity r (pos n) x p h =
      let (x1, p1, left) = close_part r (pos n) x p in
      let (q1, l1, m1, t1) = close_part-quantity r n x p in
      let (q2, m2, t2) = open_part-quantity r left x1 p1 l1 in (q2 ∙ q1, m2 ∙ m1, t2 ∙ t1)

  executed-none :
      (r : ExecutionReport F)
      → (not (trade? r.exec_type) || r.quantity == 0) ≡ true
      → executed_quantity r ≡ 0
  unfolding executed_quantity
  executed-none r h = ground arith

  -- What `apply` does to the position of the report's symbol.
  apply-own :
      (r : ExecutionReport F) (p : Portfolio F)
      → FitsInt64 (executed_quantity r)
      → let x = position_in r.symbol p in
        let y = position_in r.symbol (apply r p) in
        (y.quantity ≡ x.quantity +ℤ signed r.side (pos (executed_quantity r)))
        × (y.traded_quantity % u64_mod ≡ (x.traded_quantity + executed_quantity r) % u64_mod)
  unfolding apply position_in add64
  apply-own r p h =
      let n = executed_quantity r in
      let x = position_in r.symbol p in
      let traded = record x { traded_quantity = add64 x.traded_quantity n } in
      let (x', p') = close_and_open r (to_i64 n) traded (book_fee r p) in
      let cast : to_i64 n ≡ pos n = to_i64-exact n h in
      let (q, m, t) =
        close_and_open-quantity r (to_i64 n) traded (book_fee r p) (ap neg_part cast) in
      let read = entry_of-put_entry r.symbol r.symbol x' p'.positions in
      let moved = q ∙ ap (λ z. x.quantity +ℤ signed r.side z) cast in
      let none_traded = add_zero r.side x.quantity in
      elim (Bool-cases (not (trade? r.exec_type) || r.quantity == 0)) [
        | inl skipped ↦ ground (arith, none_traded, executed-none r skipped)
        | inr counted ↦ ground (arith, moved, t, read, bytes_eq_refl r.symbol)
      ]

  apply-other :
      (r : ExecutionReport F) (p : Portfolio F) (symbol : Bytes)
      → FitsInt64 (executed_quantity r)
      → bytes_eq r.symbol symbol ≡ false
      → position_in symbol (apply r p) ≡ position_in symbol p
  unfolding apply position_in
  apply-other r p symbol h differ =
      let n = executed_quantity r in
      let x = position_in r.symbol p in
      let traded = record x { traded_quantity = add64 x.traded_quantity n } in
      let (x', p') = close_and_open r (to_i64 n) traded (book_fee r p) in
      let (q, m, t) =
        close_and_open-quantity r (to_i64 n) traded (book_fee r p)
          (ap neg_part (to_i64-exact n h)) in
      let kept = m ∙ positions-book_fee r p in
      let read = entry_of-put_entry r.symbol symbol x' p'.positions in
      elim (Bool-cases (not (trade? r.exec_type) || r.quantity == 0)) [
        | inl skipped ↦ ground arith
        | inr counted ↦ ground (arith, kept, read, differ)
      ]

  -- Whatever the symbol.
  pub apply-position_in :
      (r : ExecutionReport F) (p : Portfolio F) (symbol : Bytes)
      → FitsInt64 (executed_quantity r)
      → let x = position_in symbol p in
        let y = position_in symbol (apply r p) in
        (y.quantity ≡ x.quantity +ℤ change_of symbol r)
        × (y.traded_quantity % u64_mod ≡ (x.traded_quantity + traded_of symbol r) % u64_mod)
  apply-position_in r p symbol h = elim (Bool-cases (bytes_eq r.symbol symbol)) [
    | inl same ↦
        subst
          (λ s.
            let x = position_in s p in
            let y = position_in s (apply r p) in
            (y.quantity ≡ x.quantity +ℤ change_of s r)
            × (y.traded_quantity % u64_mod ≡ (x.traded_quantity + traded_of s r) % u64_mod))
          (bytes_eq→≡ r.symbol symbol same)
          (ground (arith, apply-own r p h, bytes_eq_refl r.symbol))
    | inr differ ↦
        let kept = apply-other r p symbol h differ in
        let zero_change = add_zero r.side (position_in symbol p).quantity in
        ground (arith, kept, zero_change, differ)
  ]

  -- Reports of trades of fewer than 2^63 units each leave the position of each symbol at what it was plus
  -- the signed sum of the trades in it, however closes, reversals and reports of other symbols are mixed,
  -- and its traded quantity at what it was plus their sum, in 64 bits.
  pub apply_all-position_in :
      (rs : List (ExecutionReport F)) (p : Portfolio F) (symbol : Bytes)
      → All (λ r. FitsInt64 (executed_quantity r)) rs
      → let x = position_in symbol p in
        let y = position_in symbol (apply_all rs p) in
        (y.quantity ≡ x.quantity +ℤ net_quantity symbol rs)
        × (y.traded_quantity % u64_mod ≡ (x.traded_quantity + total_quantity symbol rs) % u64_mod)
  unfolding apply_all net_quantity total_quantity
  apply_all-position_in [] p symbol h =
      let same = add_zero OrderSide.buy (position_in symbol p).quantity in ground (arith, same)
  apply_all-position_in (r ∷ rs) p symbol (h, hs) =
      let (q, t) = apply-position_in r p symbol h in
      let (q', t') = apply_all-position_in rs (apply r p) symbol hs in
      let x = position_in symbol p in
      (
        q'
            ∙ ap (λ z. z +ℤ net_quantity symbol rs) q
            ∙ +ℤ_assoc x.quantity (change_of symbol r) (net_quantity symbol rs),
        ground (arith, t, t'),
      )
