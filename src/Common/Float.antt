-- ===== src/Common/Float.antt =====
-- `double` as an interface: the hardware's type and the operations of it that the code uses.
use toy_quant_v.Base.{ℕ, ℤ, Bool, if◌then◌else◌}

-- `f_bps` is the literal 10000.0.
pub record Float (F : Type 0) : Type 0 where
  pub f_zero : F
  pub f_half : F
  -- `decimal m k` is the literal m / 10^k.
  pub decimal : ℕ → ℕ → F
  pub f_one : F
  pub f_two : F
  pub f_bps : F
  pub f_add : F → F → F
  pub f_sub : F → F → F
  pub f_mul : F → F → F
  pub f_div : F → F → F
  pub f_lt : F → F → Bool
  pub f_le : F → F → Bool
  pub is_finite : F → Bool
  pub f_round : F → F
  pub f_abs : F → F
  pub f_neg : F → F
  pub f_eq : F → F → Bool
  -- `static_cast<double>` of a uint64_t and of an int64_t, and `static_cast<uint64_t>` of a double
  pub of_u64 : ℕ → F
  pub of_i64 : ℤ → F
  pub to_u64 : F → ℕ
  -- `std::llround` to an int64_t and to a uint64_t
  pub llround : F → ℤ
  pub llround_u64 : F → ℕ

module _ {F : Type 0} ⦃fl : Float F⦄ where
  -- `to_price_tick` and `to_price` of src/common/types.h.
  unfoldable pub to_price_tick : F → F → ℤ
  to_price_tick price tick_size = fl.llround (fl.f_div price tick_size)

  unfoldable pub to_price : ℤ → F → F
  to_price tick tick_size = fl.f_mul (fl.of_i64 tick) tick_size

  -- `std::max` and `std::min`, which keep the first argument where neither is less.
  abbrev pub f_max : F → F → F
  f_max a b = if fl.f_lt a b then b else a

  abbrev pub f_min : F → F → F
  f_min a b = if fl.f_lt b a then b else a
