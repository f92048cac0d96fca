-- ===== src/Lines/Broker/Flow.antt =====
-- The path of an order through src/lines/paper_broker.cpp: refused, given to the venue, or held first.
use mathlib.Core.List.Sublist
use mathlib.Core.List.{Sublist, nil-sublist}
use toy_quant_v.Base.{
  ℕ, ◌+◌, ◌%◌, ◌≡◌, refl, sym, subst, ap, Bool, true, false, List, [], ◌∷◌, ◌++◌, arith, add64,
  u64_mod, length, length-append, append_assoc, append-nil, Bool-cases, inl, inr, ◌==◌,
}
use toy_quant_v.Exchange.Order.{Order}
use toy_quant_v.Lines.Broker.{erase_held}

-- What of a broker the path of an order goes through.
pub record Flow (F : Type 0) : Type 0 where
  pub log : List (Order F)
  pub held : List (Order F)
  pub outage : Bool
  pub accepted : ℕ
  pub released : ℕ
  pub count : ℕ

module _ {F : Type 0} where
  -- The state of such a path once the orders `os` were submitted.
  pub record Kept (os : List (Order F)) (w : Flow F) : Type 0 where
    pub in_order : Sublist (w.log ++ w.held) os
    pub none_held : w.outage ≡ false → w.held ≡ []
    pub given : length w.log % u64_mod ≡ (w.accepted + w.released) % u64_mod
    pub counted : w.count % u64_mod ≡ length os % u64_mod

  pub Kept-refused :
      (o : Order F) (os : List (Order F)) (w : Flow F)
      → Kept os w
      → Kept (os ++ o ∷ []) (record w { count = add64 w.count 1 })
  unfolding add64
  Kept-refused o os w k = record {
    in_order =
        subst (λ xs. Sublist xs (os ++ o ∷ [])) (append-nil (w.log ++ w.held))
          (Sublist.append k.in_order (nil-sublist (o ∷ [])));
    none_held = k.none_held;
    given = k.given;
    counted = omega (arith, k.counted, length-append os (o ∷ []));
  }

  pub Kept-accepted :
      (o : Order F) (os : List (Order F)) (w : Flow F)
      → Kept os w
      → w.held ≡ []
      → Kept (os ++ o ∷ []) (record w {
        log = w.log ++ o ∷ [];
        accepted = add64 w.accepted 1;
        count = add64 w.count 1;
      })
  unfolding add64
  Kept-accepted o os w k e =
      let all = subst (λ h. Sublist (w.log ++ h) os) e k.in_order in
      let logged' = subst (λ xs. Sublist xs os) (append-nil w.log) all in
      record {
        in_order =
            subst (λ h. Sublist (w.log ++ o ∷ [] ++ h) (os ++ o ∷ [])) (sym e)
              (subst (λ xs. Sublist xs (os ++ o ∷ [])) (sym (append-nil (w.log ++ o ∷ [])))
                (Sublist.append logged' (Sublist.refl (o ∷ []))));
        none_held = k.none_held;
        given = omega (arith, k.given, length-append w.log (o ∷ []));
        counted = omega (arith, k.counted, length-append os (o ∷ []));
      }

  pub Kept-held :
      (o : Order F) (os : List (Order F)) (w : Flow F)
      → Kept os w
      → w.outage ≡ true
      → Kept (os ++ o ∷ []) (record w { held = w.held ++ o ∷ []; count = add64 w.count 1 })
  unfolding add64
  Kept-held o os w k out = record {
    in_order =
        subst (λ xs. Sublist xs (os ++ o ∷ [])) (append_assoc w.log w.held (o ∷ []))
          (Sublist.append k.in_order (Sublist.refl (o ∷ [])));
    none_held = λ h. absurd (cc);
    given = k.given;
    counted = omega (arith, k.counted, length-append os (o ∷ []));
  }

  pub Kept-released :
      (os : List (Order F)) (w : Flow F)
      → Kept os w
      → Kept os (record w {
        log = w.log ++ w.held;
        held = [];
        outage = false;
        released = add64 w.released (length w.held);
      })
  unfolding add64
  Kept-released os w k = record {
    in_order = subst (λ xs. Sublist xs os) (sym (append-nil (w.log ++ w.held))) k.in_order;
    none_held = λ _. refl;
    given = omega (arith, k.given, length-append w.log w.held);
    counted = k.counted;
  }

  erase_held-Sublist : (id : ℕ) (os : List (Order F)) → Sublist (erase_held id os) os
  unfolding erase_held
  erase_held-Sublist id [] = Sublist.refl []
  erase_held-Sublist id (o ∷ os) = elim (Bool-cases (o.id == id)) [
    | inl same ↦ rw same (Sublist.cons o (Sublist.refl os))
    | inr other ↦ rw other (Sublist.cons-cons o (erase_held-Sublist id os))
  ]

  pub Kept-cancelled :
      (id : ℕ) (os : List (Order F)) (w : Flow F)
      → Kept os w
      → Kept os (record w { held = erase_held id w.held })
  unfolding erase_held
  Kept-cancelled id os w k = record {
    in_order =
        Sublist.trans (Sublist.append (Sublist.refl w.log) (erase_held-Sublist id w.held))
          k.in_order;
    none_held = λ h. ap (erase_held id) (k.none_held h);
    given = k.given;
    counted = k.counted;
  }
