-- ===== src/Tokenizer/Symbols.antt =====
-- src/tokenizer/tokenizer.cpp: the symbols of bytes, and decoding a token that is made of them.
use llm_engine.Base.{
  below, below_at, ℕ, zero, suc, ◌+◌, ◌-◌, ◌^◌, ◌≤◌, ◌<◌, ◌≡◌, refl, sym, ap, ◌∙◌, subst, true,
  List, [], ◌∷◌, ◌++◌, some, if◌then◌else◌, ltb, ◌==◌, length, length-append, take, All, arith,
  Bool-cases, inl, inr,
}
use llm_engine.Tokenizer.Utf8.{utf8_decode}
use llm_engine.Tokenizer.RoundTrip.{decode-encode}
use llm_engine.Tokenizer.Texts.{drop-append, encode-nonempty}
use llm_engine.Tokenizer.Rounds.{append_assoc}
use llm_engine.Tokenizer.Vocab.{
  str_eq, unlisted, placeholder, byte_to_unicode, find_byte, unicode_to_byte, symbol_bytes,
}

pub str_eq-same : (xs : List ℕ) → str_eq xs xs ≡ true
unfolding str_eq
str_eq-same [] = refl
str_eq-same (x ∷ xs) = ground (arith, str_eq-same xs)

pub str_eq-true : (xs ys : List ℕ) → str_eq xs ys ≡ true → xs ≡ ys
unfolding str_eq
str_eq-true [] [] e = refl
str_eq-true [] (y ∷ ys) e = cc
str_eq-true (x ∷ xs) [] e = cc
str_eq-true (x ∷ xs) (y ∷ ys) e = ground (arith, str_eq-true xs ys)

abbrev closed : ℕ → ℕ
closed b =
    if ltb b 0x21
    then b
    else if ltb b 0x7F
    then 33
    else if ltb b 0xA1
    then 33 + (b - 0x7F)
    else if ltb b 0xAE
    then 67
    else 68

unlisted-closed : (b : ℕ) → b < 256 → unlisted b ≡ closed b
unfolding below unlisted
unlisted-closed b h = ground (arith, below_at 256 (λ n. unlisted n == closed n) b refl h)

-- Different bytes have different placeholders, none of them far away.
placeholder-injective : (a b : ℕ) → a < 256 → b < 256 → placeholder a ≡ placeholder b → a ≡ b
unfolding placeholder
placeholder-injective a b ha hb e = ground (arith, unlisted-closed a ha, unlisted-closed b hb, e)

placeholder-small : (b : ℕ) → b < 256 → placeholder b < 2 ^ 21
unfolding placeholder
placeholder-small b h = ground (arith, unlisted-closed b h)

-- The string of some bytes in the vocabulary.
unfoldable pub symbols : List ℕ → List ℕ
symbols [] = []
symbols (b ∷ bs) = byte_to_unicode b ++ symbols bs

pub symbols-append : (xs ys : List ℕ) → symbols (xs ++ ys) ≡ symbols xs ++ symbols ys
unfolding symbols
symbols-append [] ys = refl
symbols-append (x ∷ xs) ys =
    ap (λ l. byte_to_unicode x ++ l) (symbols-append xs ys)
    ∙ sym (append_assoc (byte_to_unicode x) (symbols xs) (symbols ys))

utf8_decode-symbol :
    (b : ℕ) (rest : List ℕ)
    → b < 256
    → utf8_decode (byte_to_unicode b ++ rest) ≡ (length (byte_to_unicode b), placeholder b)
unfolding byte_to_unicode
utf8_decode-symbol b rest h = decode-encode (placeholder b) rest (placeholder-small b h)

byte_to_unicode-injective :
    (a b : ℕ) → a < 256 → b < 256 → byte_to_unicode a ≡ byte_to_unicode b → a ≡ b
byte_to_unicode-injective a b ha hb e = placeholder-injective a b ha hb (
    sym (ap (λ (r : ℕ × ℕ). r.1) (utf8_decode-symbol a [] ha))
    ∙ (ap (λ s. (utf8_decode (s ++ [])).1) e
        ∙ ap (λ (r : ℕ × ℕ). r.1) (utf8_decode-symbol b [] hb)))

find_byte-symbol : (n b : ℕ) → n ≤ 256 → b < n → find_byte n (byte_to_unicode b) ≡ some b
unfolding find_byte
find_byte-symbol zero b h k = absurd (omega arith)
find_byte-symbol (suc n) b h k =
    elim (Bool-cases (str_eq (byte_to_unicode n) (byte_to_unicode b))) [
      | inl hit ↦
          let same =
            byte_to_unicode-injective n b (omega arith) (omega arith) (str_eq-true _ _ hit) in
          rw hit (ap some same)
      | inr miss ↦ rw miss (
          find_byte-symbol n b (omega arith) (elim (Bool-cases (n == b)) [
            | inl e ↦
                let same : n ≡ b = ground arith in
                absurd (
                  ground (
                    arith,
                    miss,
                    subst (λ k. str_eq (byte_to_unicode n) (byte_to_unicode k) ≡ true) same
                        (str_eq-same (byte_to_unicode n)),
                  ))
            | inr e ↦ ground arith
          ]))
    ]

pub unicode_to_byte-symbol : (b : ℕ) → b < 256 → unicode_to_byte (byte_to_unicode b) ≡ some b
unfolding unicode_to_byte
unicode_to_byte-symbol b h = find_byte-symbol 256 b (omega arith) h

pub symbol_length : (b : ℕ) → 0 < length (byte_to_unicode b)
unfolding byte_to_unicode
symbol_length b = encode-nonempty (placeholder b)

take-append : (xs ys : List ℕ) → take (length xs) (xs ++ ys) ≡ xs
take-append [] ys = refl
take-append (x ∷ xs) ys = ap (λ l. x ∷ l) (take-append xs ys)

symbol_bytes-first :
    (fuel b : ℕ) (s rest : List ℕ)
    → 0 < length s
    → (utf8_decode (s ++ rest)).0 ≡ length s
    → unicode_to_byte s ≡ some b
    → symbol_bytes (suc fuel) (s ++ rest) ≡ b ∷ symbol_bytes fuel rest
unfolding symbol_bytes
symbol_bytes-first fuel b [] rest pos e u = absurd (omega arith)
symbol_bytes-first fuel b (c ∷ s) rest pos e u =
    rw e (rw (take-append s rest, drop-append s rest, u) refl)

symbol_bytes-none : (fuel : ℕ) → symbol_bytes fuel [] ≡ []
unfolding symbol_bytes
symbol_bytes-none zero = refl
symbol_bytes-none (suc fuel) = refl

-- Decoding the symbols of some bytes, with enough fuel, gives the bytes.
pub symbol_bytes-symbols :
    (fuel : ℕ) (bs : List ℕ)
    → All (λ b. b < 256) bs
    → length (symbols bs) ≤ fuel
    → symbol_bytes fuel (symbols bs) ≡ bs
unfolding symbols
symbol_bytes-symbols fuel [] a h = symbol_bytes-none fuel
symbol_bytes-symbols zero (b ∷ bs) (small, a) h =
    absurd (omega (arith, symbol_length b, length-append (byte_to_unicode b) (symbols bs)))
symbol_bytes-symbols (suc fuel) (b ∷ bs) (small, a) h =
    symbol_bytes-first fuel b (byte_to_unicode b) (symbols bs) (symbol_length b)
      (ap (λ (r : ℕ × ℕ). r.0) (utf8_decode-symbol b (symbols bs) small))
      (unicode_to_byte-symbol b small)
    ∙ ap (λ l. b ∷ l)
        (symbol_bytes-symbols fuel bs a
          (omega (arith, symbol_length b, length-append (byte_to_unicode b) (symbols bs))))
