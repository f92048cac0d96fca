-- ===== src/Market/Ordering.antt =====
-- The order of one stream of events as `MarketDataValidator` (src/market/market_data_validator.cpp)
-- enforces it.
use toy_quant_v.Base.{
  ℕ, ◌≤◌, ◌<◌, ◌≡◌, subst, sym, true, List, [], ◌∷◌, none, arith, ltb, ◌&&◌, Bytes, bytes_eq,
  bytes_eq→≡, bytes_eq_refl, add64, Bool-cases, inl, inr,
}
use toy_quant_v.Common.Types.{MarketTrade, BboQuote}
use toy_quant_v.Common.Float.{Float}
use toy_quant_v.Common.Batch.{MarketDepthSnapshot, IncrementalBookBatch}
use toy_quant_v.Market.Validator.{
  StreamState, MarketDataValidator, MarketEvent, trade, quote, depth, incremental, assign,
  validate_ordering, validate_trade, validate_quote, validate_depth_snapshot,
  validate_incremental_batch, dispatch, validate, event_time,
}

-- The stream `b` is as far as `a` was, or further.
pub record IsLater (a b : StreamState) : Type 0 where
  pub started : a.initialized ≡ true → b.initialized ≡ true
  pub time : a.initialized ≡ true → a.timestamp ≤ b.timestamp
  pub place : a.initialized ≡ true → a.sequence ≤ b.sequence

IsLater-refl : (a : StreamState) → IsLater a a
IsLater-refl a = record { started = λ h. h; time = λ _. omega arith; place = λ _. omega arith }

IsLater-trans : (a b c : StreamState) → IsLater a b → IsLater b c → IsLater a c
IsLater-trans a b c h k = record {
  started = λ i. k.started (h.started i);
  time = λ i. omega (arith, h.time i, k.time (h.started i));
  place = λ i. omega (arith, h.place i, k.place (h.started i));
}

validate_ordering-IsLater : (a : StreamState) (ts n : ℕ) → IsLater a (validate_ordering a ts n).0
unfolding validate_ordering
validate_ordering-IsLater a ts n = record {
  started = λ i. ground arith;
  time = λ i. ground arith;
  place = λ i. ground arith;
}

-- What an accepted event says of its stream.
record Follows (a b : StreamState) (ts n : ℕ) : Type 0 where
  new_time : b.timestamp ≡ ts
  new_place : b.sequence ≡ n
  started : b.initialized ≡ true
  no_earlier : a.initialized ≡ true → a.timestamp ≤ ts
  higher : a.initialized ≡ true → a.sequence < n

validate_ordering-Follows :
    (a : StreamState) (ts n : ℕ)
    → (validate_ordering a ts n).1 ≡ none
    → Follows a (validate_ordering a ts n).0 ts n
unfolding validate_ordering
validate_ordering-Follows a ts n h = record {
  new_time = ground arith;
  new_place = ground arith;
  started = ground arith;
  no_earlier = λ i. ground arith;
  higher = λ i. ground arith;
}

assign-IsLater :
    (s k : Bytes) (b : StreamState) (m : Bytes → StreamState)
    → IsLater (m s) b
    → IsLater (m k) (assign s b m k)
unfolding assign
assign-IsLater s k b m h = elim (Bool-cases (bytes_eq s k)) [
  | inl same ↦ rw same (subst (λ x. IsLater (m x) b) (bytes_eq→≡ s k same) h)
  | inr other ↦ rw other (IsLater-refl (m k))
]

same-IsLater : (m n : Bytes → StreamState) (k : Bytes) → n ≡ m → IsLater (m k) (n k)
same-IsLater m n k e = subst (λ x. IsLater (m k) (x k)) (sym e) (IsLater-refl (m k))

assign_self : (s : Bytes) (b : StreamState) (m : Bytes → StreamState) → assign s b m s ≡ b
unfolding assign
assign_self s b m = ground (arith, bytes_eq_refl s)

module _ {F : Type 0} ⦃fl : Float F⦄ where
  trades-validate_trade :
      (t : MarketTrade F) (v : MarketDataValidator F)
      → (validate_trade t v).0.trade_streams
        ≡ assign t.symbol
            (validate_ordering (v.trade_streams t.symbol) t.ts t.sequence).0
            v.trade_streams
  unfolding validate_trade
  trades-validate_trade t v = ground arith

  fault-validate_trade :
      (t : MarketTrade F) (v : MarketDataValidator F)
      → (validate_trade t v).1 ≡ none
      → (validate_ordering (v.trade_streams t.symbol) t.ts t.sequence).1 ≡ none
  unfolding validate_trade
  fault-validate_trade t v h = ground arith

  trades-validate_quote :
      (q : BboQuote F) (v : MarketDataValidator F)
      → (validate_quote q v).0.trade_streams ≡ v.trade_streams
  unfolding validate_quote
  trades-validate_quote q v = ground arith

  trades-validate_depth :
      (d : MarketDepthSnapshot F) (v : MarketDataValidator F)
      → (validate_depth_snapshot d v).0.trade_streams ≡ v.trade_streams
  unfolding validate_depth_snapshot
  trades-validate_depth d v = ground arith

  trades-validate_batch :
      (b : IncrementalBookBatch F) (v : MarketDataValidator F)
      → (validate_incremental_batch b v).0.trade_streams ≡ v.trade_streams
  unfolding validate_incremental_batch
  trades-validate_batch b v = ground arith

  trade-IsLater :
      (t : MarketTrade F) (v : MarketDataValidator F) (k : Bytes)
      → IsLater (v.trade_streams k) ((validate_trade t v).0.trade_streams k)
  trade-IsLater t v k =
      let old = v.trade_streams t.symbol in
      subst (λ m. IsLater (v.trade_streams k) (m k)) (sym (trades-validate_trade t v))
        (assign-IsLater t.symbol k (validate_ordering old t.ts t.sequence).0 v.trade_streams
          (validate_ordering-IsLater old t.ts t.sequence))

  dispatch-IsLater :
      (e : MarketEvent F) (v : MarketDataValidator F) (k : Bytes)
      → IsLater (v.trade_streams k) ((dispatch e v).0.trade_streams k)
  unfolding dispatch
  dispatch-IsLater (trade t) v k = trade-IsLater t v k
  dispatch-IsLater (quote q) v k = same-IsLater _ _ k (trades-validate_quote q v)
  dispatch-IsLater (depth d) v k = same-IsLater _ _ k (trades-validate_depth d v)
  dispatch-IsLater (incremental b) v k = same-IsLater _ _ k (trades-validate_batch b v)

  validate-IsLater :
      (e : MarketEvent F) (v : MarketDataValidator F) (k : Bytes)
      → IsLater (v.trade_streams k) ((validate e v).0.trade_streams k)
  unfolding validate
  validate-IsLater e v k =
      elim (Bool-cases (v.has_merged_timestamp && ltb (event_time e) v.last_merged_timestamp)) [
        | inl early ↦ rw early (IsLater-refl (v.trade_streams k))
        | inr fine ↦ rw fine (dispatch-IsLater e _ k)
      ]

  -- The validator after a list of events, whatever it refuses.
  abbrev pub validate_all : List (MarketEvent F) → MarketDataValidator F → MarketDataValidator F
  validate_all [] v = v
  validate_all (e ∷ es) v = validate_all es (validate e v).0

  validate_all-IsLater :
      (es : List (MarketEvent F)) (v : MarketDataValidator F) (k : Bytes)
      → IsLater (v.trade_streams k) ((validate_all es v).trade_streams k)
  validate_all-IsLater [] v k = IsLater-refl (v.trade_streams k)
  validate_all-IsLater (e ∷ es) v k =
      IsLater-trans _ _ _ (validate-IsLater e v k) (validate_all-IsLater es (validate e v).0 k)

  trade-Follows :
      (t : MarketTrade F) (v : MarketDataValidator F)
      → (validate_trade t v).1 ≡ none
      → Follows
          (v.trade_streams t.symbol)
          ((validate_trade t v).0.trade_streams t.symbol)
          t.ts
          t.sequence
  trade-Follows t v h =
      let old = v.trade_streams t.symbol in
      let new = (validate_ordering old t.ts t.sequence).0 in
      subst (λ m. Follows old (m t.symbol) t.ts t.sequence) (sym (trades-validate_trade t v))
        (subst (λ b. Follows old b t.ts t.sequence) (sym (assign_self t.symbol new v.trade_streams))
          (validate_ordering-Follows old t.ts t.sequence (fault-validate_trade t v h)))

  accepted-Follows :
      (t : MarketTrade F) (v : MarketDataValidator F)
      → (validate (trade t) v).1 ≡ none
      → Follows
          (v.trade_streams t.symbol)
          ((validate (trade t) v).0.trade_streams t.symbol)
          t.ts
          t.sequence
  unfolding validate dispatch assign
  accepted-Follows t v h =
      elim (Bool-cases (v.has_merged_timestamp && ltb t.ts v.last_merged_timestamp)) [
        | inl early ↦ absurd (ground arith)
        | inr fine ↦
            let noted = record v {
              last_merged_timestamp = t.ts;
              has_merged_timestamp = true;
              summary = record v.summary { events = add64 v.summary.events 1 };
            } in
            let passed : (validate_trade t noted).1 ≡ none = ground arith in
            rw fine (trade-Follows t noted passed)
      ]

  -- Between two trades of one symbol that the validator accepts, whatever it is given in between: the
  -- second has a higher sequence number than the first, and no earlier a time.
  pub validate_in_order :
      (t u : MarketTrade F) (es : List (MarketEvent F)) (v : MarketDataValidator F)
      → t.symbol ≡ u.symbol
      → (validate (trade t) v).1 ≡ none
      → (validate (trade u) (validate_all es (validate (trade t) v).0)).1 ≡ none
      → (t.sequence < u.sequence) × (t.ts ≤ u.ts)
  validate_in_order t u es v same first second =
      let v1 = (validate (trade t) v).0 in
      let a = accepted-Follows t v first in
      let b = accepted-Follows u (validate_all es v1) second in
      let between =
        subst (λ k. IsLater (v1.trade_streams t.symbol) ((validate_all es v1).trade_streams k)) same
          (validate_all-IsLater es v1 t.symbol) in
      let on = between.started a.started in
      (
        omega (arith, a.new_place, between.place a.started, b.higher on),
        omega (arith, a.new_time, between.time a.started, b.no_earlier on),
      )
