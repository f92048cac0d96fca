-- ===== src/Exchange/Queue.antt =====
-- src/exchange/queue_model.h: how much of a level's displayed decrease leaves from ahead of us.
use toy_quant_v.Base.{ℕ, Bool, true, false, ◌==◌, if◌then◌else◌}
use toy_quant_v.Common.Types.{QueueModel, conservative, pro_rata, lumpy, optimistic}
use toy_quant_v.Common.Float.{Float}

-- `std::mt19937_64` and `std::binomial_distribution` are the standard library's: a generator's state,
-- its seeding, and a draw of `chunks` trials at `share` that returns the next state.
pub record Random (F R : Type 0) : Type 0 where
  pub seeded : ℕ → R
  pub binomial : R → ℕ → F → ℕ × R

pub record QueueAheadModel (R : Type 0) : Type 0 where
  pub model : QueueModel
  pub lump_chunks : ℕ
  pub rng : R

unfoldable pub removes_nothing : {R : Type 0} → QueueAheadModel R → Bool
removes_nothing m = elim m.model [ conservative ↦ true | _ ↦ false ]

module _ {F R : Type 0} (fl : Float F) (rnd : Random F R) where
  open fl use {f_one, f_lt, f_mul, f_div, of_u64, to_u64, llround_u64}

  unfoldable pub queue_ahead_model : QueueModel → ℕ → ℕ → QueueAheadModel R
  queue_ahead_model model chunks seed = record {
    model = model;
    lump_chunks = if chunks == 0 then 1 else chunks;
    rng = rnd.seeded seed;
  }

  unfoldable pub pro_rata_quantity : ℕ → ℕ → ℕ → ℕ
  pro_rata_quantity reduction previous_quantity queue_ahead =
      to_u64 (f_div (f_mul (of_u64 queue_ahead) (of_u64 reduction)) (of_u64 previous_quantity))

  -- `std::min(1.0, x)` is `x < 1.0 ? x : 1.0`.
  unfoldable pub lumpy_quantity : QueueAheadModel R → ℕ → ℕ → ℕ → ℕ × QueueAheadModel R
  lumpy_quantity m reduction previous_quantity queue_ahead =
      let ratio = f_div (of_u64 queue_ahead) (of_u64 previous_quantity) in
      let share = if f_lt ratio f_one then ratio else f_one in
      let (ahead_orders, rng') = rnd.binomial m.rng m.lump_chunks share in
      (
        llround_u64 (f_div (f_mul (of_u64 reduction) (of_u64 ahead_orders)) (of_u64 m.lump_chunks)),
        record m { rng = rng' },
      )

  unfoldable pub advance_quantity : QueueAheadModel R → ℕ → ℕ → ℕ → ℕ × QueueAheadModel R
  advance_quantity m reduction previous_quantity queue_ahead = elim m.model [
    | conservative ↦ (0, m)
    | optimistic ↦ (reduction, m)
    | lumpy ↦
        if previous_quantity == 0
        then (queue_ahead, m)
        else lumpy_quantity m reduction previous_quantity queue_ahead
    | pro_rata ↦
        if previous_quantity == 0
        then (queue_ahead, m)
        else (pro_rata_quantity reduction previous_quantity queue_ahead, m)
  ]
