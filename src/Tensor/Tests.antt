-- ===== src/Tensor/Tests.antt =====
-- Some patterns.
use llm_engine.Base.{◌+◌, ◌-◌, ◌*◌, ◌/◌, ◌%◌, ◌^◌, ◌≤◌, ◌≡◌, if◌then◌else◌, arith}
use llm_engine.Tensor.Half.{f16_to_f32, f32_to_f16}
use llm_engine.Tensor.Exact.{is_nan, f32_to_f16-f16_to_f32, f32_to_f16-nearest}

-- The smallest subnormal number.
f32_to_f16-f16_to_f32_example :
    f32_to_f16 (f16_to_f32 1) ≡ (if is_nan 1 then 1 / 2 ^ 15 * 2 ^ 15 + 0x7e00 else 1)
f32_to_f16-f16_to_f32_example = f32_to_f16-f16_to_f32 1 (omega arith)

-- 1 + 2^-11, half way between two numbers.
f32_to_f16-nearest_example :
    let r = f32_to_f16 0x3f80_1000 in
    let x = 0x3f80_1000 % 2 ^ 31 - 112 * 2 ^ 23 in
    let y = r % 2 ^ 15 in
    (r / 2 ^ 15 ≡ 0x3f80_1000 / 2 ^ 31)
    × (y * 2 ^ 13 ≤ x + 2 ^ 12)
    × (x ≤ y * 2 ^ 13 + 2 ^ 12)
    × (x % 2 ^ 13 ≡ 2 ^ 12 → y % 2 ≡ 0)
f32_to_f16-nearest_example =
    f32_to_f16-nearest 0x3f80_1000 (omega arith) (omega arith) (omega arith)
