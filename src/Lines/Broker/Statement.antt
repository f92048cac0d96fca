-- ===== src/Lines/Broker/Statement.antt =====
-- What an execution does to the statement of src/lines/paper_broker.cpp.
use toy_quant_v.Base.{
  ◌+◌, ◌%◌, ◌≡◌, subst, pos, ◌+ℤ◌, true, false, arith, add64, u64_mod, Bytes, bytes_eq,
  bytes_eq_refl, bytes_eq→≡, Bool-cases, inl, inr,
}
use toy_quant_v.Base.Symbols.{entry_of-put_entry}
use toy_quant_v.Common.Float.{Float}
use toy_quant_v.Exchange.Order.{ExecutionReport, executed_quantity}
use toy_quant_v.Accounting.Portfolio.{signed}
use toy_quant_v.Accounting.Portfolio.Positions.{
  FitsInt64, traded_of, change_of, to_i64-exact, add_zero,
}
use toy_quant_v.Lines.Broker.{
  PaperBroker, SymbolStatement, own_trade?, record_execution, statement_of, executed_statement,
}

module _ {F : Type 0} ⦃fl : Float F⦄ where
  executed_statement-quantity :
      (r : ExecutionReport F) (fee : F) (s : SymbolStatement F)
      → FitsInt64 r.quantity
      → let s' = executed_statement r r.quantity fee s in
        (s'.net_quantity ≡ s.net_quantity +ℤ signed r.side (pos r.quantity))
        × (s'.filled_quantity % u64_mod ≡ (s.filled_quantity + r.quantity) % u64_mod)
  unfolding executed_statement add64
  executed_statement-quantity r fee s h = ground (arith, to_i64-exact r.quantity h)

module _ {F V : Type 0} ⦃fl : Float F⦄ where
  record_execution-own :
      (r : ExecutionReport F) (fee : F) (b : PaperBroker F V)
      → own_trade? r ≡ true
      → statement_of r.symbol (record_execution r r.quantity fee b)
        ≡ executed_statement r r.quantity fee (statement_of r.symbol b)
  unfolding record_execution statement_of
  record_execution-own r fee b own =
      let s = executed_statement r r.quantity fee (statement_of r.symbol b) in
      ground (
        arith,
        own,
        entry_of-put_entry r.symbol r.symbol s b.statement.symbols,
        bytes_eq_refl r.symbol,
      )

  record_execution-other :
      (r : ExecutionReport F) (fee : F) (b : PaperBroker F V) (symbol : Bytes)
      → bytes_eq r.symbol symbol ≡ false
      → statement_of symbol (record_execution r r.quantity fee b) ≡ statement_of symbol b
  unfolding record_execution statement_of
  record_execution-other r fee b symbol differ =
      let s = executed_statement r r.quantity fee (statement_of r.symbol b) in
      ground (arith, differ, entry_of-put_entry r.symbol symbol s b.statement.symbols)

  -- Whatever the symbol.
  pub record_execution-statement_of :
      (r : ExecutionReport F) (fee : F) (b : PaperBroker F V) (symbol : Bytes)
      → own_trade? r ≡ true
      → FitsInt64 r.quantity
      → let s = statement_of symbol b in
        let s' = statement_of symbol (record_execution r r.quantity fee b) in
        (s'.net_quantity ≡ s.net_quantity +ℤ change_of symbol r)
        × (s'.filled_quantity % u64_mod ≡ (s.filled_quantity + traded_of symbol r) % u64_mod)
  unfolding executed_quantity
  record_execution-statement_of r fee b symbol own h =
      elim (Bool-cases (bytes_eq r.symbol symbol)) [
        | inl same ↦
            subst
              (λ x.
                let s = statement_of x b in
                let s' = statement_of x (record_execution r r.quantity fee b) in
                (s'.net_quantity ≡ s.net_quantity +ℤ change_of x r)
                × (s'.filled_quantity % u64_mod ≡ (s.filled_quantity + traded_of x r) % u64_mod))
              (bytes_eq→≡ r.symbol symbol same)
              (let moved = executed_statement-quantity r fee (statement_of r.symbol b) h in
                ground
                  (arith, own, moved, record_execution-own r fee b own, bytes_eq_refl r.symbol))
        | inr differ ↦
            let zero_change = add_zero r.side (statement_of symbol b).net_quantity in
            ground (arith, differ, zero_change, record_execution-other r fee b symbol differ)
      ]
