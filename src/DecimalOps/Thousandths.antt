-- ===== src/DecimalOps/Thousandths.antt =====
-- Decimals of three digits after the point, for the tests: every operation cuts off what is below.
use riabow_dex_backend.Prelude.{suc, ◌+◌, ◌*◌, ◌/◌, ◌^◌, ◌≡◌, ◌≢◌, arith, refl, if◌then◌else◌}
use riabow_dex_backend.Prelude.Int.{
  ℤ, pos, negsuc, ◌-ℤ◌, ◌*ℤ◌, ◌≤ℤ◌, ◌==ℤ◌, pos_part, neg_part, ltb_ℤ, -ℤ_parts,
}
use riabow_dex_backend.DecimalOps.{DecimalOps, DecimalLaws}

unfoldable pub quotient : ℤ → ℤ → ℤ
quotient x y =
    let size = pos ((pos_part x + neg_part x) * 1000 / (pos_part y + neg_part y)) in
    if ltb_ℤ (x *ℤ y) (pos 0) then pos 0 -ℤ size else size

unfoldable pub times : ℤ → ℤ → ℤ
times (pos m) (pos n) = pos (m * n / 1000)
times (pos m) (negsuc n) = pos 0 -ℤ pos (m * suc n / 1000)
times (negsuc m) (pos n) = pos 0 -ℤ pos (suc m * n / 1000)
times (negsuc m) (negsuc n) = pos (suc m * suc n / 1000)

unfoldable pub over : ℤ → ℤ → ℤ
unfolding quotient
over x y = if x ==ℤ y then pos 1000 else quotient x y

abbrev pub thousandths : DecimalOps
thousandths = record {
  one = pos 1000;
  mul = times;
  div = over;
  round_dp10 = λ x. x;
  new_decimal = λ m scale. quotient m (pos (10 ^ scale));
}

times-one : (x : ℤ) → times x (pos 1000) ≡ x
unfolding times
times-one (pos n) = ground arith
times-one (negsuc n) = ground (arith, -ℤ_parts (pos 0) (pos (suc n * 1000 / 1000)))

times_nonneg : (x y : ℤ) → pos 0 ≤ℤ x → pos 0 ≤ℤ y → pos 0 ≤ℤ times x y
unfolding times
times_nonneg (pos m) (pos n) h k = omega arith
times_nonneg (pos m) (negsuc n) h k = ground (arith, k)
times_nonneg (negsuc m) y h k = ground (arith, h)

over_self : (x : ℤ) → x ≢ pos 0 → over x x ≡ pos 1000
unfolding over
over_self x h = ground arith

pub thousandths-DecimalLaws : DecimalLaws thousandths
thousandths-DecimalLaws = record {
  mul-one = times-one;
  div_self = over_self;
  round-one = refl;
  mul_nonneg = times_nonneg;
}
