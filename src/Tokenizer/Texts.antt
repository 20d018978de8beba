-- ===== src/Tokenizer/Texts.antt =====
-- src/tokenizer/tokenizer.cpp: texts in UTF-8, and their pieces.
use llm_engine.Base.{
  ℕ, zero, suc, ◌^◌, ◌≤◌, ◌<◌, ◌≡◌, refl, sym, ap, ◌∙◌, List, [], ◌∷◌, ◌++◌, length, drop, All,
  arith, length-append, map,
}
use llm_engine.Tokenizer.Utf8.{
  utf8_decode, utf8_encode, codepoints, to_codepoints, encode_all, pre_tokenize,
}
use llm_engine.Tokenizer.Rounds.{append_assoc}
use llm_engine.Tokenizer.RoundTrip.{decode-encode}
use llm_engine.Tokenizer.Split.{Tables, pieces}
use llm_engine.Tokenizer.Pieces.{concat, pieces-concat}

pub drop-append : (xs ys : List ℕ) → drop (length xs) (xs ++ ys) ≡ ys
drop-append [] ys = refl
drop-append (x ∷ xs) ys = drop-append xs ys

pub encode-nonempty : (cp : ℕ) → 0 < length (utf8_encode cp)
unfolding utf8_encode
encode-nonempty cp = ground arith

codepoints-first :
    (fuel : ℕ) (xs : List ℕ)
    → 0 < length xs
    → codepoints (suc fuel) xs ≡ (utf8_decode xs).1 ∷ codepoints fuel (drop (utf8_decode xs).0 xs)
unfolding codepoints
codepoints-first fuel [] h = absurd (omega arith)
codepoints-first fuel (x ∷ xs) h = refl

codepoints-encode_all :
    (fuel : ℕ) (cps : List ℕ)
    → All (λ cp. cp < 2 ^ 21) cps
    → length (encode_all cps) ≤ fuel
    → codepoints fuel (encode_all cps) ≡ cps
unfolding encode_all codepoints
codepoints-encode_all zero [] a h = refl
codepoints-encode_all (suc fuel) [] a h = refl
codepoints-encode_all zero (cp ∷ cps) (b, a) h =
    absurd (omega (arith, h, encode-nonempty cp, length-append (utf8_encode cp) (encode_all cps)))
codepoints-encode_all (suc fuel) (cp ∷ cps) (b, a) h =
    let rest = encode_all cps in
    let size = length-append (utf8_encode cp) rest in
    let nonempty = encode-nonempty cp in
    let read = decode-encode cp rest b in
    let later = codepoints-encode_all fuel cps a (omega (arith, h, size, nonempty)) in
    codepoints-first fuel (utf8_encode cp ++ rest) (omega (arith, size, nonempty))
    ∙ rw (read, drop-append (utf8_encode cp) rest, later)

-- Decoding the UTF-8 code of any list of code points below 2^21, whatever their mix of lengths,
-- gives the list back.
pub to_codepoints-encode_all :
    (cps : List ℕ) → All (λ cp. cp < 2 ^ 21) cps → to_codepoints (encode_all cps) ≡ cps
unfolding to_codepoints
to_codepoints-encode_all cps a = codepoints-encode_all (length (encode_all cps)) cps a (omega arith)

pub encode_all-append : (xs ys : List ℕ) → encode_all (xs ++ ys) ≡ encode_all xs ++ encode_all ys
unfolding encode_all
encode_all-append [] ys = refl
encode_all-append (x ∷ xs) ys =
    ap (λ l. utf8_encode x ++ l) (encode_all-append xs ys)
    ∙ sym (append_assoc (utf8_encode x) (encode_all xs) (encode_all ys))

concat-map : (xss : List (List ℕ)) → concat (map encode_all xss) ≡ encode_all (concat xss)
unfolding concat encode_all
concat-map [] = refl
concat-map (xs ∷ xss) =
    ap (λ l. encode_all xs ++ l) (concat-map xss) ∙ sym (encode_all-append xs (concat xss))

-- For any tables and the UTF-8 text of any code points below 2^21, the strings that `pre_tokenize`
-- emits, put together, are the text.
pub pre_tokenize-concat :
    (t : Tables) (cps : List ℕ)
    → All (λ cp. cp < 2 ^ 21) cps
    → concat (pre_tokenize t (encode_all cps)) ≡ encode_all cps
unfolding pre_tokenize
pre_tokenize-concat t cps a =
    rw (to_codepoints-encode_all cps a)
      (concat-map (pieces t cps) ∙ ap encode_all (pieces-concat t cps).0)
