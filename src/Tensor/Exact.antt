-- ===== src/Tensor/Exact.antt =====
-- include/engine/tensor.h: what the conversions keep, and how they round.
use llm_engine.Base.{
  ℕ, zero, suc, ◌+◌, ◌-◌, ◌*◌, ◌/◌, ◌%◌, ◌^◌, ◌≤◌, ◌<◌, ◌≡◌, ◌≢◌, refl, ap₂, ◌∙◌, Bool, true, false,
  if◌then◌else◌, ltb, leb, ◌==◌, ◌&&◌, ◌||◌, not, arith, ==_iff, below, below_at, Bool-cases, inl,
  inr,
}
use llm_engine.Tensor.Half.{
  bf16_to_f32, f32_to_bf16, f16_to_f32, f32_to_f16, normalise, small_to_f32, small_to_f16,
  round_even,
}

-- Widening a bfloat16 and narrowing it again changes nothing, for every pattern, infinities and NaNs
-- included.
pub f32_to_bf16-bf16_to_f32 : (h : ℕ) → h < 2 ^ 16 → f32_to_bf16 (bf16_to_f32 h) ≡ h
unfolding f32_to_bf16 bf16_to_f32
f32_to_bf16-bf16_to_f32 h small = ground arith

-- Narrowing rounds to the nearest bfloat16, at a tie to the even one.
pub f32_to_bf16-nearest :
    (u : ℕ)
    → u < 2 ^ 32
    → u / 2 ^ 23 % 2 ^ 8 ≢ 255
    → let r = f32_to_bf16 u in (r * 2 ^ 16 ≤ u + 2 ^ 15) × (u ≤ r * 2 ^ 16 + 2 ^ 15)
unfolding f32_to_bf16
f32_to_bf16-nearest u small finite = ground arith

-- The fields of a pattern of 32 bits.
fields :
    (s e m : ℕ)
    → s < 2
    → e < 256
    → m < 2 ^ 23
    → let u = s * 2 ^ 31 + e * 2 ^ 23 + m in
      (u / 2 ^ 31 % 2 ≡ s) × (u / 2 ^ 23 % 2 ^ 8 ≡ e) × (u % 2 ^ 23 ≡ m)
fields s e m hs he hm = (omega arith, omega arith, omega arith)

-- Widened normal numbers.
normal_back :
    (s e m : ℕ)
    → s < 2
    → 0 < e
    → e < 31
    → m < 2 ^ 10
    → f32_to_f16 (s * 2 ^ 31 + (e + 112) * 2 ^ 23 + m * 2 ^ 13) ≡ s * 2 ^ 15 + e * 2 ^ 10 + m
unfolding f32_to_f16
normal_back s e m hs pos fin hm =
    let (a, b, c) = fields s (e + 112) (m * 2 ^ 13) hs (omega arith) (omega arith) in
    simp (a, b, c) (ground arith)

-- Widened infinities.
infinite_back : (s : ℕ) → s < 2 → f32_to_f16 (s * 2 ^ 31 + 255 * 2 ^ 23 + 0) ≡ s * 2 ^ 15 + 0x7c00
unfolding f32_to_f16
infinite_back s hs =
    let (a, b, c) = fields s 255 0 hs (omega arith) (omega arith) in simp (a, b, c) (ground arith)

-- Zeros and subnormal numbers, of both signs.
abbrev returns : ℕ → ℕ → Bool
returns s m = f32_to_f16 (small_to_f32 (s * 2 ^ 31) m) == s * 2 ^ 15 + m

returns_table : (below 1024 (returns 0) ≡ true) × (below 1024 (returns 1) ≡ true)
unfolding below f32_to_f16 small_to_f16 small_to_f32 normalise
returns_table = (refl, refl)

small_back :
    (s m : ℕ) → s < 2 → m < 2 ^ 10 → f32_to_f16 (small_to_f32 (s * 2 ^ 31) m) ≡ s * 2 ^ 15 + m
small_back zero m hs h = (==_iff _ _).0 (below_at 1024 (returns 0) m returns_table.0 h)
small_back (suc zero) m hs h = (==_iff _ _).0 (below_at 1024 (returns 1) m returns_table.1 h)
small_back (suc (suc s)) m hs h = absurd (omega arith)

abbrev pub is_nan : ℕ → Bool
is_nan h = h / 2 ^ 10 % 2 ^ 5 == 31 && not (h % 2 ^ 10 == 0)

-- A NaN becomes the quiet one of its sign.
nan_back :
    (s m : ℕ)
    → s < 2
    → 0 < m
    → m < 2 ^ 10
    → f32_to_f16 (s * 2 ^ 31 + 255 * 2 ^ 23 + m * 2 ^ 13) ≡ s * 2 ^ 15 + 0x7e00
unfolding f32_to_f16
nan_back s m hs pos hm =
    let (a, b, c) = fields s 255 (m * 2 ^ 13) hs (omega arith) (omega arith) in
    simp (a, b, c) (ground arith)

-- By the three fields.
fields_back :
    (s e m : ℕ)
    → s < 2
    → e < 32
    → m < 2 ^ 10
    → f32_to_f16 (
        if e == 0
        then small_to_f32 (s * 2 ^ 31) m
        else if e == 31
        then s * 2 ^ 31 + 0x7f800000 + m * 2 ^ 13
        else s * 2 ^ 31 + (e + 127 - 15) * 2 ^ 23 + m * 2 ^ 13)
      ≡ (if e == 31 && not (m == 0) then s * 2 ^ 15 + 0x7e00 else s * 2 ^ 15 + e * 2 ^ 10 + m)
fields_back s e m hs he hm = elim (Bool-cases (e == 0)) [
  | inl zero_exp ↦
      let none_left : e ≡ 0 = ground arith in rw (none_left) (small_back s m hs hm ∙ omega arith)
  | inr more ↦ elim (Bool-cases (e == 31)) [
    | inl top ↦
        let last : e ≡ 31 = ground arith in
        rw last (elim (Bool-cases (m == 0)) [
          | inl infinite ↦
              let none_left : m ≡ 0 = ground arith in
              rw none_left (infinite_back s hs ∙ omega arith)
          | inr nan ↦ rw nan (nan_back s m hs (ground arith) hm)
        ])
    | inr mid ↦
        let same : e + 127 - 15 ≡ e + 112 = omega arith in
        rw (more, mid, same) (normal_back s e m hs (ground arith) (ground arith) hm)
  ]
]

-- Widening a half-precision number to 32 bits and narrowing it again gives it back, zeros, subnormal
-- numbers and infinities included; a NaN becomes the quiet NaN of its sign.
pub f32_to_f16-f16_to_f32 :
    (h : ℕ)
    → h < 2 ^ 16
    → f32_to_f16 (f16_to_f32 h) ≡ (if is_nan h then h / 2 ^ 15 * 2 ^ 15 + 0x7e00 else h)
unfolding f16_to_f32
f32_to_f16-f16_to_f32 h small =
    let s = h / 2 ^ 15 % 2 in
    let e = h / 2 ^ 10 % 2 ^ 5 in
    let m = h % 2 ^ 10 in
    let whole : s * 2 ^ 15 + e * 2 ^ 10 + m ≡ h = omega arith in
    let sign : s * 2 ^ 15 ≡ h / 2 ^ 15 * 2 ^ 15 = omega arith in
    fields_back s e m (omega arith) (omega arith) (omega arith)
    ∙ ap₂ (λ x y. if is_nan h then x + 0x7e00 else y) sign whole

-- The rounding, by the fields: `k` is the exponent less the difference of the biases.
nearest_fields :
    (s k q r : ℕ)
    → s < 2
    → 0 < k
    → k ≤ 30
    → q < 2 ^ 10
    → r < 2 ^ 13
    → let h = round_even (s * 2 ^ 15 + k * 2 ^ 10 + q) r (2 ^ 12) in
      let x = k * 2 ^ 23 + q * 2 ^ 13 + r in
      let y = h % 2 ^ 15 in
      (h / 2 ^ 15 ≡ s)
      × (y * 2 ^ 13 ≤ x + 2 ^ 12)
      × (x ≤ y * 2 ^ 13 + 2 ^ 12)
      × (r ≡ 2 ^ 12 → y % 2 ≡ 0)
nearest_fields s k q r hs pos fin hq hr =
    let half = s * 2 ^ 15 + k * 2 ^ 10 + q in
    elim (Bool-cases (ltb (2 ^ 12) r || r == 2 ^ 12 && half % 2 == 1)) [
      | inl up ↦ ground (arith, up)
      | inr down ↦ ground (arith, down)
    ]

f32_to_f16-normal :
    (u : ℕ)
    → 113 ≤ u / 2 ^ 23 % 2 ^ 8
    → u / 2 ^ 23 % 2 ^ 8 ≤ 142
    → f32_to_f16 u
      ≡ round_even
          (u / 2 ^ 31 % 2 * 2 ^ 15 + (u / 2 ^ 23 % 2 ^ 8 - 112) * 2 ^ 10 + u % 2 ^ 23 / 2 ^ 13)
          (u % 2 ^ 23 % 2 ^ 13)
          (2 ^ 12)
unfolding f32_to_f16
f32_to_f16-normal u lo hi =
    let e = u / 2 ^ 23 % 2 ^ 8 in
    let a : (e == 255) ≡ false = ground arith in
    let b : leb 143 e ≡ false = ground arith in
    let c : leb e 112 ≡ false = ground arith in rw (a, b, c) refl

-- Narrowing a 32-bit float to 16 bits rounds it to the nearest, if it is normal there: the result,
-- as a number of units of 2 ^ 13 of the wide pattern, less the difference of the biases, is within
-- half a unit, at a tie it is even, and the sign is kept.
pub f32_to_f16-nearest :
    (u : ℕ)
    → u < 2 ^ 32
    → 113 ≤ u / 2 ^ 23 % 2 ^ 8
    → u / 2 ^ 23 % 2 ^ 8 ≤ 142
    → let r = f32_to_f16 u in
      let x = u % 2 ^ 31 - 112 * 2 ^ 23 in
      let y = r % 2 ^ 15 in
      (r / 2 ^ 15 ≡ u / 2 ^ 31)
      × (y * 2 ^ 13 ≤ x + 2 ^ 12)
      × (x ≤ y * 2 ^ 13 + 2 ^ 12)
      × (x % 2 ^ 13 ≡ 2 ^ 12 → y % 2 ≡ 0)
f32_to_f16-nearest u small lo hi =
    let e = u / 2 ^ 23 % 2 ^ 8 in
    let q = u % 2 ^ 23 / 2 ^ 13 in
    let r = u % 2 ^ 23 % 2 ^ 13 in
    let (sign, below_it, above_it, even) =
      nearest_fields (u / 2 ^ 31 % 2) (e - 112) q r (omega arith) (omega arith) (omega arith)
        (omega arith) (omega arith) in
    let x : u % 2 ^ 31 - 112 * 2 ^ 23 ≡ (e - 112) * 2 ^ 23 + q * 2 ^ 13 + r = omega arith in
    rw (f32_to_f16-normal u lo hi) (
      omega (arith, sign),
      omega (arith, below_it, x),
      omega (arith, above_it, x),
      λ tie. even (omega (arith, tie, x)),
    )
