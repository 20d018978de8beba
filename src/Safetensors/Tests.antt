-- ===== src/Safetensors/Tests.antt =====
-- Small files.
use llm_engine.Base.{ℕ, ◌≡◌, refl, false, List, [], ◌∷◌, Option, some, Bool, not, ◌==◌}
use llm_engine.Safetensors.Defs.{
  Entry, Opened, Failure, DType, open_file, little_endian, read_header, read_entries, read_view,
  make_view, check_offsets, put_tensor, parse_dtype, text_eq, numel_of, dtype_size,
}
use llm_engine.Safetensors.Bounds.{Outcome, open_file-Outcome}

-- A header of two bytes, and three elements of two bytes.
abbrev file : List ℕ
file = 2 ∷ 0 ∷ 0 ∷ 0 ∷ 0 ∷ 0 ∷ 0 ∷ 0 ∷ 123 ∷ 125 ∷ 1 ∷ 2 ∷ 3 ∷ 4 ∷ 5 ∷ 6 ∷ []

abbrev entry : Entry
entry = record {
  name = 119 ∷ [];
  is_metadata = false;
  metadata_strings = false;
  dtype = some (b'F' ∷ b'1' ∷ b'6' ∷ []);
  shape = some (3 ∷ 1 ∷ []);
  data_offsets = some (0 ∷ 6 ∷ []);
}

-- The library throws at once on a byte that begins no value, and reads on after `{}`.
abbrev fails_within : List ℕ → Bool
fails_within [] = false
fails_within (b ∷ bs) = not (b == 123)

abbrev parse : List ℕ → Option (List Entry)
parse header = some (entry ∷ [])

opens :
    open_file parse fails_within file
    ≡ Opened.opened (
        (119 ∷ [], record { dtype = DType.f16; shape = 3 ∷ 1 ∷ []; data_at = 10; nbytes = 6 }) ∷ [])
unfolding open_file little_endian read_header read_entries read_view make_view check_offsets
    put_tensor parse_dtype text_eq numel_of dtype_size
opens = refl

-- The header's length is 2^64 - 1, of a file of ten bytes.
abbrev wrapping : List ℕ
wrapping = 255 ∷ 255 ∷ 255 ∷ 255 ∷ 255 ∷ 255 ∷ 255 ∷ 255 ∷ 123 ∷ 125 ∷ []

overruns : open_file parse fails_within wrapping ≡ Opened.undefined
unfolding open_file little_endian
overruns = refl

throws_within :
    open_file parse fails_within (255 ∷ 255 ∷ 255 ∷ 255 ∷ 255 ∷ 255 ∷ 255 ∷ 255 ∷ 7 ∷ [])
    ≡ Opened.refused Failure.bad_json
unfolding open_file little_endian
throws_within = refl

open_file-Outcome_example : Outcome file (open_file parse fails_within file)
open_file-Outcome_example = open_file-Outcome parse fails_within file
