-- ===== src/Tensor/Half.antt =====
-- include/engine/tensor.h: conversions between bit patterns of 32-bit floats and of the two 16-bit kinds.
--
-- A float is its bit pattern. A shift is `/` or `*` by a power of two, a mask of low bits is `%`, and
-- `|` of fields that do not overlap is `+`.
use llm_engine.Base.{
  ℕ, zero, suc, ◌+◌, ◌-◌, ◌*◌, ◌/◌, ◌%◌, ◌^◌, if◌then◌else◌, ltb, leb, ◌==◌, ◌&&◌, ◌||◌,
}

unfoldable pub bf16_to_f32 : ℕ → ℕ
bf16_to_f32 h = h * 2 ^ 16

unfoldable pub f32_to_bf16 : ℕ → ℕ
f32_to_bf16 u =
    if u / 2 ^ 23 % 2 ^ 8 == 255
    then u / 2 ^ 16
    else (u + (0x7fff + u / 2 ^ 16 % 2)) % 2 ^ 32 / 2 ^ 16

-- `do { e++; man <<= 1; } while ((man & 0x400u) == 0)`, on the number of shifts that are left: the value of
-- `e + 1`, and of `man`.
unfoldable pub normalise : ℕ → ℕ → ℕ → ℕ × ℕ
normalise zero shifts man = (shifts, man)
normalise (suc fuel) shifts man =
    let rest = normalise fuel (shifts + 1) (man * 2) in
    if man * 2 / 2 ^ 10 % 2 == 0 then rest else (shifts + 1, man * 2)

-- `exp == 0`
unfoldable pub small_to_f32 : ℕ → ℕ → ℕ
unfolding normalise
small_to_f32 sign man =
    let (shifts, norm) = normalise 10 0 man in
    if man == 0 then sign else sign + (127 - 15 - (shifts - 1)) * 2 ^ 23 + norm % 2 ^ 10 * 2 ^ 13

unfoldable pub f16_to_f32 : ℕ → ℕ
unfolding small_to_f32
f16_to_f32 h =
    let sign = h / 2 ^ 15 % 2 * 2 ^ 31 in
    let exp = h / 2 ^ 10 % 2 ^ 5 in
    let man = h % 2 ^ 10 in
    if exp == 0
    then small_to_f32 sign man
    else if exp == 31
    then sign + 0x7f800000 + man * 2 ^ 13
    else sign + (exp + 127 - 15) * 2 ^ 23 + man * 2 ^ 13

-- `half`, one more if what was cut off is more than half, or half and `half` is odd.
abbrev pub round_even : ℕ → ℕ → ℕ → ℕ
round_even half rem mid = if ltb mid rem || rem == mid && half % 2 == 1 then half + 1 else half

-- `exp <= 0`, with the exponent field of 32 bits, `exp + 112`.
unfoldable pub small_to_f16 : ℕ → ℕ → ℕ → ℕ
small_to_f16 sign biased man =
    let shift = 126 - biased in
    let full = man + 2 ^ 23 in
    if ltb biased 102
    then sign
    else sign + round_even (full / 2 ^ shift) (full % 2 ^ shift) (2 ^ (shift - 1))

unfoldable pub f32_to_f16 : ℕ → ℕ
unfolding small_to_f16
f32_to_f16 u =
    let sign = u / 2 ^ 31 % 2 * 2 ^ 15 in
    let biased = u / 2 ^ 23 % 2 ^ 8 in
    let man = u % 2 ^ 23 in
    if biased == 255
    then sign + 0x7c00 + (if man == 0 then 0 else 0x200)
    else if leb 143 biased
    then sign + 0x7c00
    else if leb biased 112
    then small_to_f16 sign biased man
    else round_even (sign + (biased - 112) * 2 ^ 10 + man / 2 ^ 13) (man % 2 ^ 13) (2 ^ 12)
