-- ===== src/Base/Number.antt =====
-- Python's int and float. A finite float is a dyadic fraction, so its value is written exactly.
use Prim.Native.Nat.{ℕ, ◌*◌, ◌^◌}
use mathlib.Core.Bool.{Bool, true, false, ◌&&◌}
use fava_trails.Base.Tests.{leb, nat_eq}

-- `negsuc n` is -(n + 1).
pub data ℤ : Type 0 where
  pos : ℕ → ℤ
  negsuc : ℕ → ℤ

-- `a <= b` on ints
abbrev pub int_le : ℤ → ℤ → Bool
int_le (pos a) (pos b) = leb a b
int_le (negsuc a) (pos b) = true
int_le (pos a) (negsuc b) = false
int_le (negsuc a) (negsuc b) = leb b a

-- `finite m k` is m / 2^k, `minus m k` is -(m / 2^k).
pub data Float : Type 0 where
  finite minus : ℕ → ℕ → Float
  infinity minus_infinity nan : Float

unfoldable pub is_finite : Float → Bool
is_finite (finite _ _) = true
is_finite (minus _ _) = true
is_finite _ = false

-- `a <= b`
unfoldable pub float_le : Float → Float → Bool
float_le nan _ = false
float_le _ nan = false
float_le minus_infinity _ = true
float_le _ infinity = true
float_le infinity _ = false
float_le _ minus_infinity = false
float_le (finite m k) (finite n j) = leb (m * 2 ^ j) (n * 2 ^ k)
float_le (minus m k) (minus n j) = leb (n * 2 ^ k) (m * 2 ^ j)
float_le (minus _ _) (finite _ _) = true
float_le (finite m _) (minus n _) = nat_eq m 0 && nat_eq n 0

-- `a == b`
unfoldable pub float_eq : Float → Float → Bool
unfolding float_le
float_eq a b = float_le a b && float_le b a

abbrev pub zero_float : Float
zero_float = finite 0 0

abbrev pub one_float : Float
one_float = finite 1 0

abbrev pub half_float : Float
half_float = finite 1 1
