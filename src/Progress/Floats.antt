-- ===== src/Progress/Floats.antt =====
-- Finite float64 values, of which the program's progress code needs the order. Each of them is a
-- whole multiple of 2^-1074, the least positive one; `Float64` is that multiple.
use gomcp.Prelude.{ℕ, ◌*◌, ◌-◌, ◌^◌, ◌≡◌, Bool, true, false, ltb, ℤ, pos, negsuc, arith}

abbrev pub Float64 : Type 0
Float64 = ℤ

-- How many multiples make 1.
unfoldable pub one_float : ℕ
one_float = 2 ^ 1074

abbrev pub zero_float : Float64
zero_float = pos 0

abbrev pub minus_one_float : Float64
minus_one_float = negsuc (one_float - 1)

abbrev pub hundred_float : Float64
hundred_float = pos (100 * one_float)

-- `x < y`
unfoldable pub lt_float : Float64 → Float64 → Bool
lt_float (pos x) (pos y) = ltb x y
lt_float (pos x) (negsuc y) = false
lt_float (negsuc x) (pos y) = true
lt_float (negsuc x) (negsuc y) = ltb y x

pub lt_float_irrefl : (x : Float64) → lt_float x x ≡ false
unfolding lt_float
lt_float_irrefl (pos x) = ground arith
lt_float_irrefl (negsuc x) = ground arith

-- `y ≤ x` and `z ≤ y` give `z ≤ x`.
pub lt_float_trans :
    (x y z : Float64) → lt_float x y ≡ false → lt_float y z ≡ false → lt_float x z ≡ false
unfolding lt_float
lt_float_trans (pos x) (pos y) (pos z) h k = ground arith
lt_float_trans (pos x) (pos y) (negsuc z) h k = ground arith
lt_float_trans (pos x) (negsuc y) (pos z) h k = ground arith
lt_float_trans (pos x) (negsuc y) (negsuc z) h k = ground arith
lt_float_trans (negsuc x) (pos y) (pos z) h k = ground arith
lt_float_trans (negsuc x) (pos y) (negsuc z) h k = ground arith
lt_float_trans (negsuc x) (negsuc y) (pos z) h k = ground arith
lt_float_trans (negsuc x) (negsuc y) (negsuc z) h k = ground arith

-- `x < y` gives `x ≤ y`.
pub lt_float_asymm : (x y : Float64) → lt_float x y ≡ true → lt_float y x ≡ false
unfolding lt_float
lt_float_asymm (pos x) (pos y) h = ground arith
lt_float_asymm (pos x) (negsuc y) h = ground arith
lt_float_asymm (negsuc x) (pos y) h = ground arith
lt_float_asymm (negsuc x) (negsuc y) h = ground arith
