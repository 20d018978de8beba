-- ===== src/Safetensors/Defs.antt =====
-- include/engine/safetensors.h, include/engine/tensor.h and src/safetensors/safetensors.cpp: the checks
-- of a file's header, and the index over several files.
--
-- A file is the list of its bytes. What the JSON library reads in the header is an argument, a function
-- of the header's bytes. `size_t` and `uint64_t` wrap at 2^64; a dimension is the bit pattern of its
-- `int64_t`. A view's data is its position in the file.
use llm_engine.Base.{
  ℕ, ◌+◌, ◌-◌, ◌*◌, ◌%◌, ◌^◌, Bool, true, false, List, [], ◌∷◌, Option, none, some, if◌then◌else◌,
  ltb, ◌==◌, ◌&&◌, ◌||◌, length, take, drop,
}

pub data DType : Type 0 where
  f32 f16 bf16 : DType

unfoldable pub dtype_size : DType → ℕ
dtype_size DType.f32 = 4
dtype_size DType.f16 = 2
dtype_size DType.bf16 = 2

unfoldable pub numel_of : List ℕ → ℕ
numel_of [] = 1
numel_of (d ∷ shape) = d * numel_of shape % 2 ^ 64

pub record TensorView : Type 0 where
  pub dtype : DType
  pub shape : List ℕ
  pub data_at : ℕ
  pub nbytes : ℕ

abbrev pub numel : TensorView → ℕ
numel v = numel_of v.shape

unfoldable pub text_eq : List ℕ → List ℕ → Bool
text_eq [] [] = true
text_eq (x ∷ xs) (y ∷ ys) = x == y && text_eq xs ys
text_eq [] (y ∷ ys) = false
text_eq (x ∷ xs) [] = false

-- "F32", "F16" and "BF16".
unfoldable pub parse_dtype : List ℕ → Option DType
unfolding text_eq
parse_dtype s =
    if text_eq s (b'F' ∷ b'3' ∷ b'2' ∷ [])
    then some DType.f32
    else if text_eq s (b'F' ∷ b'1' ∷ b'6' ∷ [])
    then some DType.f16
    else if text_eq s (b'B' ∷ b'F' ∷ b'1' ∷ b'6' ∷ [])
    then some DType.bf16
    else none

-- An entry of the header; a field is `none` where reading it throws.
pub record Entry : Type 0 where
  pub name : List ℕ
  pub is_metadata : Bool
  -- the values of `__metadata__` are strings
  pub metadata_strings : Bool
  pub dtype : Option (List ℕ)
  pub shape : Option (List ℕ)
  pub data_offsets : Option (List ℕ)

pub data Failure : Type 0 where
  too_small header_overruns bad_json unsupported_dtype bad_offsets size_mismatch : Failure

abbrev pub Tensors : Type 0
Tensors = List (List ℕ × TensorView)

-- `undefined` is a read outside the file.
pub data Opened : Type 0 where
  opened : Tensors → Opened
  refused : Failure → Opened
  undefined : Opened

pub data Checked (A : Type 0) : Type 0 where
  fine : A → Checked A
  wrong : Failure → Checked A

-- The two offsets of an entry.
unfoldable pub check_offsets : ℕ → List ℕ → Checked (ℕ × ℕ)
check_offsets blob_len (lo ∷ hi ∷ []) =
    if ltb hi lo || ltb blob_len hi then wrong Failure.bad_offsets else fine (lo, hi)
check_offsets blob_len off = wrong Failure.bad_offsets

unfoldable pub make_view : ℕ → DType → List ℕ → Checked (ℕ × ℕ) → Checked TensorView
make_view blob d shape (wrong e) = wrong e
make_view blob d shape (fine (lo, hi)) =
    let v : TensorView = record {
      dtype = d;
      shape = shape;
      data_at = blob + lo;
      nbytes = hi - lo;
    } in
    if hi - lo == numel_of shape * dtype_size d % 2 ^ 64
    then fine v
    else wrong Failure.size_mismatch

abbrev pub dtype_of : Option (List ℕ) → Checked DType
dtype_of none = wrong Failure.bad_json
dtype_of (some s) = elim (parse_dtype s) [
  | none ↦ wrong Failure.unsupported_dtype
  | some d ↦ fine d
]

unfoldable pub read_view :
    ℕ → ℕ → Checked DType → Option (List ℕ) → Option (List ℕ) → Checked TensorView
unfolding check_offsets make_view
read_view blob blob_len (wrong e) shape off = wrong e
read_view blob blob_len (fine d) none off = wrong Failure.bad_json
read_view blob blob_len (fine d) (some shape) none = wrong Failure.bad_json
read_view blob blob_len (fine d) (some shape) (some off) =
    make_view blob d shape (check_offsets blob_len off)

-- `tensors_[key] = v`
unfoldable pub put_tensor : List ℕ → TensorView → Tensors → Tensors
put_tensor n v [] = (n, v) ∷ []
put_tensor n v ((m, w) ∷ ts) = if text_eq m n then (m, v) ∷ ts else (m, w) ∷ put_tensor n v ts

abbrev pub add_view : List ℕ → Checked TensorView → Tensors → Checked Tensors
add_view n (wrong e) ts = wrong e
add_view n (fine v) ts = fine (put_tensor n v ts)

abbrev pub read_entry : ℕ → ℕ → Entry → Tensors → Checked Tensors
read_entry blob blob_len e ts =
    if e.is_metadata
    then if e.metadata_strings then fine ts else wrong Failure.bad_json
    else add_view e.name (read_view blob blob_len (dtype_of e.dtype) e.shape e.data_offsets) ts

abbrev pub and_then : Checked Tensors → (Tensors → Checked Tensors) → Checked Tensors
and_then (wrong e) f = wrong e
and_then (fine ts) f = f ts

-- The loop over the entries.
unfoldable pub read_entries : ℕ → ℕ → List Entry → Tensors → Checked Tensors
unfolding read_view put_tensor
read_entries blob blob_len [] ts = fine ts
read_entries blob blob_len (e ∷ es) ts =
    and_then (read_entry blob blob_len e ts) (read_entries blob blob_len es)

-- The first eight bytes, the lowest first.
unfoldable pub little_endian : List ℕ → ℕ
little_endian [] = 0
little_endian (b ∷ bs) = b % 256 + 256 * little_endian bs

abbrev pub result : Checked Tensors → Opened
result (fine ts) = Opened.opened ts
result (wrong e) = Opened.refused e

unfoldable pub read_header : ℕ → ℕ → Option (List Entry) → Opened
unfolding read_entries
read_header blob blob_len none = Opened.refused Failure.bad_json
read_header blob blob_len (some es) = result (read_entries blob blob_len es [])

-- The constructor, of a file that could be mapped. Where 8 + hlen wraps around, the library is given a
-- range that is longer than the file; `fails_within` says that it throws before it is past these bytes.
unfoldable pub open_file : (List ℕ → Option (List Entry)) → (List ℕ → Bool) → List ℕ → Opened
unfolding little_endian read_header
open_file parse fails_within file =
    let map_len = length file in
    let hlen = little_endian (take 8 file) in
    if ltb map_len 8
    then Opened.refused Failure.too_small
    else if ltb map_len ((8 + hlen) % 2 ^ 64)
    then Opened.refused Failure.header_overruns
    else if ltb map_len (8 + hlen)
    then if fails_within (drop 8 file) then Opened.refused Failure.bad_json else Opened.undefined
    else read_header (8 + hlen) (map_len - 8 - hlen) (parse (take hlen (drop 8 file)))

unfoldable pub find_tensor : List ℕ → Tensors → Option TensorView
find_tensor n [] = none
find_tensor n ((m, v) ∷ ts) = if text_eq m n then some v else find_tensor n ts

-- The index over the files, in the order of their paths.
unfoldable pub index_file : Tensors → Tensors → Tensors
unfolding put_tensor
index_file [] index = index
index_file ((n, v) ∷ ts) index = index_file ts (put_tensor n v index)

unfoldable pub index_files : List Tensors → Tensors → Tensors
unfolding index_file
index_files [] index = index
index_files (f ∷ fs) index = index_files fs (index_file f index)
