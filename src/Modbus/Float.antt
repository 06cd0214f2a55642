-- ===== src/Modbus/Float.antt =====
-- Rust's float conversions on bit patterns, as crates/ferredge-proto-modbus/src/convert.rs
-- (`as f32`) and codec.rs (`f64::from`) use them. A finite value is a sign and a count of 2^-1074.
use ferredge.Prelude.{
  ℕ, zero, suc, ◌+◌, ◌-◌, ◌*◌, ◌/◌, ◌%◌, ◌^◌, Bool, true, false, ltb, leb, ◌==◌, ◌&&◌, ◌||◌,
  if◌then◌else◌,
}
use ferredge.Prelude.Int.{ℤ, pos, negsuc}

-- The position of the highest bit, 0 for 0.
unfoldable pub log2 : ℕ → ℕ → ℕ
log2 zero n = 0
log2 (suc fuel) n = let rest = log2 fuel (n / 2) in if ltb n 2 then 0 else suc rest

-- To the nearest integer, ties to even, of `n / 2 ^ shift`.
unfoldable pub round_half_even : ℕ → ℕ → ℕ
round_half_even n shift =
    let q = n / 2 ^ shift in
    let twice = n % 2 ^ shift * 2 in
    if ltb (2 ^ shift) twice || (twice == 2 ^ shift && q % 2 == 1) then q + 1 else q

abbrev f32_infinity : ℕ
f32_infinity = 255 * 2 ^ 23

-- Rounded to 24 bits, or to a multiple of 2^-149; a carry runs into the exponent.
unfoldable pub f32_magnitude : ℕ → ℕ
unfolding log2 round_half_even
f32_magnitude n =
    let scale = log2 2200 n - 948 in
    let bits = scale * 2 ^ 23 + round_half_even n (925 + scale) in
    if leb f32_infinity bits then f32_infinity else bits

abbrev f32_sign : Bool → ℕ
f32_sign false = 0
f32_sign true = 2 ^ 31

unfoldable pub f32_of_int : ℤ → ℕ
unfolding f32_magnitude
f32_of_int (pos n) = f32_magnitude (n * 2 ^ 1074)
f32_of_int (negsuc n) = 2 ^ 31 + f32_magnitude ((n + 1) * 2 ^ 1074)

-- A NaN keeps the high bits of its payload and is quiet.
unfoldable pub f32_of_f64 : ℕ → ℕ
unfolding f32_magnitude
f32_of_f64 bits =
    let sign = f32_sign (leb (2 ^ 63) bits) in
    let exponent = bits / 2 ^ 52 % 2048 in
    let fraction = bits % 2 ^ 52 in
    let finite =
      if exponent == 0
      then f32_magnitude fraction
      else f32_magnitude ((2 ^ 52 + fraction) * 2 ^ (exponent - 1)) in
    let special =
      if fraction == 0 then f32_infinity else f32_infinity + 2 ^ 22 + fraction / 2 ^ 29 % 2 ^ 22 in
    sign + (if exponent == 2047 then special else finite)

-- Exact: every `f32` is an `f64`.
unfoldable pub f64_of_f32 : ℕ → ℕ
unfolding log2
f64_of_f32 bits =
    let sign = if leb (2 ^ 31) bits then 2 ^ 63 else 0 in
    let exponent = bits / 2 ^ 23 % 256 in
    let fraction = bits % 2 ^ 23 in
    let scale = log2 24 fraction in
    let subnormal =
      if fraction == 0
      then 0
      else (scale + 874) * 2 ^ 52 + (fraction * 2 ^ (52 - scale) - 2 ^ 52) in
    let normal = (exponent + 896) * 2 ^ 52 + fraction * 2 ^ 29 in
    let special =
      if fraction == 0
      then 2047 * 2 ^ 52
      else 2047 * 2 ^ 52 + 2 ^ 51 + fraction % 2 ^ 22 * 2 ^ 29 in
    sign + (if exponent == 255 then special else if exponent == 0 then subnormal else normal)
