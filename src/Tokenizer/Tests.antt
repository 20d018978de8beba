-- ===== src/Tokenizer/Tests.antt =====
-- Small texts and tables.
use mathlib.Core.Option.{some-injective}
use llm_engine.Base.{
  ℕ, zero, suc, ◌≡◌, ◌↔◌, ◌≤◌, ◌<◌, refl, sym, true, List, [], ◌∷◌, none, some, if◌then◌else◌, ◌==◌,
  ◌&&◌, length, arith, All, Bool-cases, inl, inr,
}
use llm_engine.Tokenizer.Ranges.{in_ranges, search, low, high, IsTable, Within, in_ranges-Within}
use llm_engine.Tokenizer.Split.{
  Tables, pieces, split, piece_len, contraction, word, punctuation, blank, run, last_newline,
}
use llm_engine.Tokenizer.Pieces.{concat, pieces-concat}
use llm_engine.Tokenizer.Merge.{
  Merge, Merges, IsMerges, bpe_merge, merge_rounds, find_best, apply_merge, better,
}
use llm_engine.Tokenizer.Utf8.{utf8_encode, encode_all, to_codepoints, pre_tokenize}
use llm_engine.Tokenizer.Texts.{to_codepoints-encode_all, pre_tokenize-concat}
use llm_engine.Tokenizer.Vocab.{decode}
use llm_engine.Tokenizer.Encode.{encode_byte_level, encode}
use llm_engine.Tokenizer.Spelling.{decode-encode_byte_level}
use llm_engine.Tokenizer.Special.{Cuts, decode-encode_ascii}
use llm_engine.Tokenizer.Small.{small, small-IsByteLevel, special-IsAdded}
use llm_engine.Tokenizer.Merged.{Merged, bpe_merge-Merged}

-- The digits and the capital letters.
abbrev table : List (ℕ × ℕ)
table = (48, 57) ∷ (65, 90) ∷ []

ordered : (i : ℕ) → i < 2 → low table i ≤ high table i
ordered zero h = omega arith
ordered (suc zero) h = omega arith
ordered (suc (suc i)) h = absurd (omega arith)

parted : (i j : ℕ) → i < j → j < 2 → high table i < low table j
parted i zero h k = absurd (omega arith)
parted zero (suc zero) h k = omega arith
parted (suc i) (suc zero) h k = absurd (omega arith)
parted i (suc (suc j)) h k = absurd (omega arith)

table-IsTable : IsTable table
table-IsTable = record { ranges = ordered; apart = parted }

in_ranges-Within_example : (in_ranges 70 table ≡ true) ↔ Within 70 table 0 2
in_ranges-Within_example = in_ranges-Within 70 table table-IsTable

abbrev tables : Tables
tables = record {
  letters = (65, 90) ∷ (97, 122) ∷ [];
  numbers = (48, 57) ∷ [];
  spaces = (9, 13) ∷ (32, 32) ∷ [];
}

-- "it's 7"
abbrev text : List ℕ
text = 105 ∷ 116 ∷ 39 ∷ 115 ∷ 32 ∷ 55 ∷ []

text-pieces : pieces tables text ≡ (105 ∷ 116 ∷ []) ∷ (39 ∷ 115 ∷ []) ∷ (32 ∷ []) ∷ (55 ∷ []) ∷ []
unfolding pieces split piece_len contraction word punctuation blank run last_newline in_ranges
    search
text-pieces = refl

pieces-concat_example :
    (concat (pieces tables text) ≡ text) × All (λ piece. 0 < length piece) (pieces tables text)
pieces-concat_example = pieces-concat tables text

-- Tokens 1 and 2 merge to 3.
abbrev merges : Merges
merges x y = if x == 1 && y == 2 then some (record { rank = 0; id = 3 }) else none

abbrev spell : ℕ → List ℕ
spell t =
    if t == 3 then 97 ∷ 98 ∷ [] else if t == 1 then 97 ∷ [] else if t == 2 then 98 ∷ [] else []

the_merge :
    (x y : ℕ) (g : Merge)
    → merges x y ≡ some g
    → (x ≡ 1) × (y ≡ 2) × (g ≡ record { rank = 0; id = 3 })
the_merge x y g e = elim (Bool-cases (x == 1 && y == 2)) [
  | inl hit ↦ (ground arith, ground arith, sym (some-injective _ g (rw hit at e)))
  | inr miss ↦ absurd (ground arith)
]

merges-IsMerges : IsMerges merges spell
merges-IsMerges = record {
  ranked = λ x y g e. let (_, _, same) = the_merge x y g e in rw same (omega arith);
  spelled = λ x y g e. let (p, q, same) = the_merge x y g e in rw (same, p, q);
}

bpe_merge_test : bpe_merge merges (1 ∷ 2 ∷ 2 ∷ 1 ∷ 2 ∷ []) ≡ 3 ∷ 2 ∷ 3 ∷ []
unfolding bpe_merge merge_rounds find_best apply_merge better
bpe_merge_test = refl

bpe_merge-Merged_example :
    Merged merges spell (1 ∷ 2 ∷ 2 ∷ 1 ∷ 2 ∷ []) (bpe_merge merges (1 ∷ 2 ∷ 2 ∷ 1 ∷ 2 ∷ []))
bpe_merge-Merged_example = bpe_merge-Merged merges spell merges-IsMerges (1 ∷ 2 ∷ 2 ∷ 1 ∷ 2 ∷ [])

-- "h€" and a smiling face.
abbrev points : List ℕ
points = 104 ∷ 0x20AC ∷ 0x1F600 ∷ []

points-code : encode_all points ≡ 104 ∷ 0xE2 ∷ 0x82 ∷ 0xAC ∷ 0xF0 ∷ 0x9F ∷ 0x98 ∷ 0x80 ∷ []
unfolding encode_all utf8_encode
points-code = refl

to_codepoints-encode_all_example : to_codepoints (encode_all points) ≡ points
to_codepoints-encode_all_example =
    to_codepoints-encode_all points (omega arith, (omega arith, (omega arith, tt)))

pre_tokenize-concat_example : concat (pre_tokenize tables (encode_all points)) ≡ encode_all points
pre_tokenize-concat_example =
    pre_tokenize-concat tables points (omega arith, (omega arith, (omega arith, tt)))

-- "hé"
decode-encode_byte_level_example :
    (ids : List ℕ) × (encode_byte_level small (encode_all (104 ∷ 233 ∷ [])) ≡ some ids)
    × (decode small ids ≡ some (encode_all (104 ∷ 233 ∷ [])))
decode-encode_byte_level_example =
    decode-encode_byte_level small small-IsByteLevel (104 ∷ 233 ∷ [])
      (omega arith, (omega arith, tt))

-- "hi<e>"
decode-encode_ascii_example :
    (ids : List ℕ) × (encode small (104 ∷ 105 ∷ 60 ∷ 101 ∷ 62 ∷ []) ≡ some ids)
    × Cuts small (104 ∷ 105 ∷ 60 ∷ 101 ∷ 62 ∷ []) ids
    × (decode small ids ≡ some (104 ∷ 105 ∷ 60 ∷ 101 ∷ 62 ∷ []))
decode-encode_ascii_example =
    decode-encode_ascii small small-IsByteLevel (special-IsAdded, tt)
      (104 ∷ 105 ∷ 60 ∷ 101 ∷ 62 ∷ [])
      (omega arith, (omega arith, (omega arith, (omega arith, (omega arith, tt)))))
