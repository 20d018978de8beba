-- ===== src/Tokenizer/Utf8.antt =====
-- src/tokenizer/tokenizer.cpp: `utf8_decode`, `utf8_encode`, `to_codepoints` and `pre_tokenize` on strings.
--
-- A string is a list of bytes, and a position in it the bytes from there on.
use Prim.Native.Nat.{bit_and, bit_or}
use llm_engine.Base.{
  ℕ, zero, suc, ◌+◌, ◌*◌, ◌/◌, ◌%◌, ◌^◌, List, [], ◌∷◌, ◌++◌, if◌then◌else◌, ltb, leb, ◌==◌, ◌||◌,
  length, get_or, drop, map,
}
use llm_engine.Tokenizer.Split.{Tables, pieces}

-- The bytes that follow the first: six bits of each.
unfoldable pub join : ℕ → ℕ → List ℕ → ℕ
join zero cp s = cp
join (suc n) cp s = join n (bit_or (cp * 64 % 2 ^ 32) (bit_and (get_or s 0 0) 0x3F)) (drop 1 s)

abbrev pub sequence_len : ℕ → ℕ
sequence_len c = if leb 0xF0 c then 4 else if leb 0xE0 c then 3 else if leb 0xC0 c then 2 else 1

-- The length and the code point.
unfoldable pub utf8_decode : List ℕ → ℕ × ℕ
utf8_decode s =
    let c = get_or s 0 0 in
    let len = sequence_len c in
    let cp = bit_and c (0xFF / 2 ^ (len + 1)) in
    if ltb c 0x80
    then (1, c)
    else if len == 1 || ltb (length s) len
    then (1, 0xFFFD)
    else if len == 2
    then (2, join 1 cp (drop 1 s))
    else if len == 3
    then (3, join 2 cp (drop 1 s))
    else (4, join 3 cp (drop 1 s))

-- `static_cast<char>`
abbrev pub byte : ℕ → ℕ
byte x = x % 256

unfoldable pub utf8_encode : ℕ → List ℕ
utf8_encode cp =
    if ltb cp 0x80
    then byte cp ∷ []
    else if ltb cp 0x800
    then byte (bit_or 0xC0 (cp / 2 ^ 6)) ∷ byte (bit_or 0x80 (bit_and cp 0x3F)) ∷ []
    else if ltb cp 0x10000
    then byte (bit_or 0xE0 (cp / 2 ^ 12))
      ∷ byte (bit_or 0x80 (bit_and (cp / 2 ^ 6) 0x3F))
      ∷ byte (bit_or 0x80 (bit_and cp 0x3F))
      ∷ []
    else byte (bit_or 0xF0 (cp / 2 ^ 18))
      ∷ byte (bit_or 0x80 (bit_and (cp / 2 ^ 12) 0x3F))
      ∷ byte (bit_or 0x80 (bit_and (cp / 2 ^ 6) 0x3F))
      ∷ byte (bit_or 0x80 (bit_and cp 0x3F))
      ∷ []

-- The loop of `to_codepoints`.
unfoldable pub codepoints : ℕ → List ℕ → List ℕ
codepoints zero s = []
codepoints (suc fuel) [] = []
codepoints (suc fuel) (c ∷ s) =
    let (len, cp) = utf8_decode (c ∷ s) in cp ∷ codepoints fuel (drop len (c ∷ s))

unfoldable pub to_codepoints : List ℕ → List ℕ
to_codepoints s = codepoints (length s) s

-- `emit`
unfoldable pub encode_all : List ℕ → List ℕ
encode_all [] = []
encode_all (cp ∷ cps) = utf8_encode cp ++ encode_all cps

unfoldable pub pre_tokenize : Tables → List ℕ → List (List ℕ)
pre_tokenize t text = map encode_all (pieces t (to_codepoints text))
