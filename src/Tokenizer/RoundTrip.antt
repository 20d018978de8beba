-- ===== src/Tokenizer/RoundTrip.antt =====
-- src/tokenizer/tokenizer.cpp: `utf8_decode` and `utf8_encode` on one code point.
use Prim.Native.Nat.{bit_and, bit_or}
use llm_engine.Base.{
  ℕ, suc, ◌+◌, ◌*◌, ◌/◌, ◌%◌, ◌^◌, ◌≤◌, ◌<◌, ◌≡◌, ap, ◌∙◌, true, false, List, ◌∷◌, ◌++◌, ltb, leb,
  length, arith, Bool-cases, inl, inr,
}
use llm_engine.Tokenizer.Bits.{bit_or-shift, marks, mask_seven, mask_fifteen, mask_31, mask_63}
use llm_engine.Tokenizer.Utf8.{join, utf8_decode, utf8_encode, byte}

-- A byte that follows the first one.
tail_byte : (x : ℕ) → byte (bit_or 128 (bit_and x 63)) ≡ 128 + x % 64
tail_byte x =
    let (mark, _, _, _) = marks (bit_and x 63) in
    omega (arith, mask_63 x, mark (omega (arith, mask_63 x)))

-- A decoder appends its six bits.
append_bits :
    (cp x b : ℕ)
    → cp < 2 ^ 20
    → b ≡ 128 + x % 64
    → bit_or (cp * 64 % 2 ^ 32) (bit_and b 63) ≡ cp * 64 + x % 64
append_bits cp x b h e =
    let small : cp * 64 % 2 ^ 32 ≡ cp * 64 = omega arith in
    let low : bit_and b 63 ≡ x % 64 = omega (arith, mask_63 b, e) in
    ap (λ k. bit_or k (bit_and b 63)) small
    ∙ ap (bit_or (cp * 64)) low
    ∙ bit_or-shift cp (x % 64) (omega arith)

-- A mark, with the bits of a first byte.
decode_two :
    (cp b c : ℕ) (rest : List ℕ)
    → cp < 0x800
    → 128 ≤ cp
    → b ≡ 192 + cp / 64
    → c ≡ 128 + cp % 64
    → utf8_decode (b ∷ c ∷ rest) ≡ (2, cp)
unfolding utf8_decode join
decode_two cp b c rest small large e f =
    let first : bit_and b 31 ≡ cp / 64 = omega (arith, mask_31 b, e) in
    let value : bit_or (bit_and b 31 * 64 % 2 ^ 32) (bit_and c 63) ≡ cp =
      append_bits (bit_and b 31) cp c (omega (arith, first)) f ∙ omega (arith, first) in
    let t1 : ltb b 128 ≡ false = ground arith in
    let t2 : leb 240 b ≡ false = ground arith in
    let t3 : leb 224 b ≡ false = ground arith in
    let t4 : leb 192 b ≡ true = ground arith in
    let t5 : ltb (suc (suc (length rest))) 2 ≡ false = ground arith in
    rw (t1, t2, t3, t4, t5, value)

decode_three :
    (cp b c d : ℕ) (rest : List ℕ)
    → cp < 0x10000
    → b ≡ 224 + cp / 4096
    → c ≡ 128 + cp / 64 % 64
    → d ≡ 128 + cp % 64
    → utf8_decode (b ∷ c ∷ d ∷ rest) ≡ (3, cp)
unfolding utf8_decode join
decode_three cp b c d rest small e f g =
    let first : bit_and b 15 ≡ cp / 4096 = omega (arith, mask_fifteen b, e) in
    let second : bit_or (bit_and b 15 * 64 % 2 ^ 32) (bit_and c 63) ≡ cp / 64 =
      append_bits (bit_and b 15) (cp / 64) c (omega (arith, first)) f ∙ omega (arith, first) in
    let third : bit_or (cp / 64 * 64 % 2 ^ 32) (bit_and d 63) ≡ cp =
      append_bits (cp / 64) cp d (omega arith) g ∙ omega arith in
    let t1 : ltb b 128 ≡ false = ground arith in
    let t2 : leb 240 b ≡ false = ground arith in
    let t3 : leb 224 b ≡ true = ground arith in
    let t5 : ltb (suc (suc (suc (length rest)))) 3 ≡ false = ground arith in
    rw (t1, t2, t3, t5, second, third)

decode_four :
    (cp b c d g : ℕ) (rest : List ℕ)
    → cp < 2 ^ 21
    → b ≡ 240 + cp / 262144
    → c ≡ 128 + cp / 4096 % 64
    → d ≡ 128 + cp / 64 % 64
    → g ≡ 128 + cp % 64
    → utf8_decode (b ∷ c ∷ d ∷ g ∷ rest) ≡ (4, cp)
unfolding utf8_decode join
decode_four cp b c d g rest small e f h k =
    let first : bit_and b 7 ≡ cp / 262144 = omega (arith, mask_seven b, e) in
    let second : bit_or (bit_and b 7 * 64 % 2 ^ 32) (bit_and c 63) ≡ cp / 4096 =
      append_bits (bit_and b 7) (cp / 4096) c (omega (arith, first)) f ∙ omega (arith, first) in
    let third : bit_or (cp / 4096 * 64 % 2 ^ 32) (bit_and d 63) ≡ cp / 64 =
      append_bits (cp / 4096) (cp / 64) d (omega arith) h ∙ omega arith in
    let fourth : bit_or (cp / 64 * 64 % 2 ^ 32) (bit_and g 63) ≡ cp =
      append_bits (cp / 64) cp g (omega arith) k ∙ omega arith in
    let t1 : ltb b 128 ≡ false = ground arith in
    let t2 : leb 240 b ≡ true = ground arith in
    let t5 : ltb (suc (suc (suc (suc (length rest))))) 4 ≡ false = ground arith in
    rw (t1, t2, t5, second, third, fourth)

decode_one : (cp : ℕ) (rest : List ℕ) → cp < 128 → utf8_decode (byte cp ∷ rest) ≡ (1, cp)
unfolding utf8_decode
decode_one cp rest h =
    let same : cp % 256 ≡ cp = omega arith in
    let t1 : ltb cp 128 ≡ true = ground arith in rw (same, t1)

-- The first byte.
pub head_byte :
    (x : ℕ)
    → (x < 32 → byte (bit_or 192 x) ≡ 192 + x)
      × (x < 16 → byte (bit_or 224 x) ≡ 224 + x)
      × (x < 8 → byte (bit_or 240 x) ≡ 240 + x)
head_byte x =
    let (_, two, three, four) = marks x in
    ((λ h. omega (arith, two h)), (λ h. omega (arith, three h)), (λ h. omega (arith, four h)))

-- The decoder reads the code point back, wherever the code stands.
pub decode-encode :
    (cp : ℕ) (rest : List ℕ)
    → cp < 2 ^ 21
    → utf8_decode (utf8_encode cp ++ rest) ≡ (length (utf8_encode cp), cp)
unfolding utf8_encode
decode-encode cp rest small = elim (Bool-cases (ltb cp 128)) [
  | inl one ↦ rw one (decode_one cp rest (ground arith))
  | inr not_one ↦ elim (Bool-cases (ltb cp 2048)) [
    | inl two ↦
        let (head, _, _) = head_byte (cp / 64) in
        rw (not_one, two)
          (decode_two cp _ _ rest (ground arith) (ground arith) (head (ground arith))
            (tail_byte cp))
    | inr not_two ↦ elim (Bool-cases (ltb cp 65536)) [
      | inl three ↦
          let (_, head, _) = head_byte (cp / 4096) in
          rw (not_one, not_two, three)
            (decode_three cp _ _ _ rest (ground arith) (head (ground arith)) (tail_byte (cp / 64))
              (tail_byte cp))
      | inr four ↦
          let (_, _, head) = head_byte (cp / 262144) in
          rw (not_one, not_two, four)
            (decode_four cp _ _ _ _ rest small (head (omega arith)) (tail_byte (cp / 4096))
              (tail_byte (cp / 64)) (tail_byte cp))
    ]
  ]
]
