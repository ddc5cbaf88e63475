-- ===== src/Prelude/Ratios.antt =====
-- Exact quotients of counts, where the source divides floating-point numbers.
use Prim.Native.Nat.{ℕ, zero, suc, ◌+◌, ◌*◌, ◌≤◌, ◌<◌}
use mathlib.Core.Bool.{Bool}
use native.Mathlib.Omega.{arith}
use frontier_refactor_factor.Prelude.Tests.{ltb}

pub record Fraction : Type 0 where
  pub above : ℕ
  pub below : ℕ

abbrev pub is_more : Fraction → Fraction → Bool
is_more a b = ltb (b.above * a.below) (a.above * b.below)

pub mul_mono : (b x y : ℕ) → x ≤ y → b * x ≤ b * y
mul_mono zero x y h = omega arith
mul_mono (suc b) x y h = omega (arith, mul_mono b x y h)

pub mul_cancel : (b x y : ℕ) → b * x < b * y → x < y
mul_cancel b x y h = ground (arith, mul_mono b y x)

pub is_more_trans :
    (ba bb fa fb ma mb : ℕ) → ba * fb < fa * bb → ma * bb < ba * mb → ma * fb < fa * mb
is_more_trans ba bb fa fb ma zero h k = omega arith
is_more_trans ba bb fa fb ma (suc m) h k =
    let p = mul_mono fb (ma * bb) (ba * suc m) (omega arith) in
    let q = mul_mono (suc m) (ba * fb + 1) (fa * bb) (omega arith) in
    mul_cancel bb (ma * fb) (fa * suc m) (omega (arith, p, q))

pub is_more_up :
    (ba bb fa fb ma mb : ℕ) → 0 < bb → fa * bb ≤ ba * fb → ma * fb < fa * mb → ma * bb < ba * mb
is_more_up ba zero fa fb ma mb o h k = elim o [ ]
is_more_up ba (suc b) fa fb ma mb o h k =
    let p = mul_mono mb (fa * suc b) (ba * fb) h in
    let q = mul_mono (suc b) (suc (ma * fb)) (fa * mb) k in
    mul_cancel fb (ma * suc b) (ba * mb) (omega (arith, p, q))
