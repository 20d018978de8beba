-- ===== src/Safetensors/Bounds.antt =====
-- src/safetensors/safetensors.cpp: what an opened file gives, and when it is refused.
use llm_engine.Base.{
  ℕ, ◌+◌, ◌-◌, ◌*◌, ◌%◌, ◌^◌, ◌≤◌, ◌<◌, ◌≡◌, List, [], ◌∷◌, Option, none, some, ltb, ◌==◌, ◌||◌,
  length, take, drop, All, arith, Bool-cases, inl, inr, if◌then◌else◌, true, false, Bool,
}
use llm_engine.Safetensors.Defs.{
  Failure, DType, dtype_size, numel_of, TensorView, text_eq, Entry, Tensors, Opened, Checked, fine,
  wrong, check_offsets, make_view, dtype_of, read_view, put_tensor, add_view, read_entry, and_then,
  read_entries, little_endian, result, read_header, open_file,
}

-- The view lies in the file, behind the header, and has just the bytes of its elements.
pub record InFile (file_len blob : ℕ) (v : TensorView) : Type 0 where
  pub starts : blob ≤ v.data_at
  pub ends : v.data_at + v.nbytes ≤ file_len
  pub sized : v.nbytes ≡ numel_of v.shape * dtype_size v.dtype % 2 ^ 64

abbrev pub AllIn : ℕ → ℕ → Tensors → Type 0
AllIn file_len blob ts = All (λ t. InFile file_len blob t.1) ts

abbrev Good : {A : Type 0} → (A → Type 0) → Checked A → Type 0
Good P (fine a) = P a
Good P (wrong e) = Unit

abbrev InBlob : ℕ → ℕ × ℕ → Type 0
InBlob blob_len (lo, hi) = (lo ≤ hi) × (hi ≤ blob_len)

check_offsets-InBlob :
    (blob_len : ℕ) (off : List ℕ) → Good (InBlob blob_len) (check_offsets blob_len off)
unfolding check_offsets
check_offsets-InBlob blob_len [] = tt
check_offsets-InBlob blob_len (lo ∷ []) = tt
check_offsets-InBlob blob_len (lo ∷ hi ∷ []) = elim (Bool-cases (ltb hi lo || ltb blob_len hi)) [
  | inl bad ↦ rw bad tt
  | inr good ↦ rw good (ground (arith, good))
]
check_offsets-InBlob blob_len (lo ∷ hi ∷ x ∷ off) = tt

module _ (file_len blob blob_len : ℕ) (whole : blob + blob_len ≡ file_len) where
  make_view-InFile :
      (d : DType) (shape : List ℕ) (c : Checked (ℕ × ℕ))
      → Good (InBlob blob_len) c
      → Good (InFile file_len blob) (make_view blob d shape c)
  unfolding make_view
  make_view-InFile d shape (wrong e) g = tt
  make_view-InFile d shape (fine (lo, hi)) (up, within) =
      elim (Bool-cases (hi - lo == numel_of shape * dtype_size d % 2 ^ 64)) [
        | inl same ↦ rw same (record {
          starts = omega arith;
          ends = omega (arith, whole);
          sized = ground (arith, same);
        })
        | inr other ↦ rw other tt
      ]

  read_view-InFile :
      (d : Checked DType) (shape off : Option (List ℕ))
      → Good (InFile file_len blob) (read_view blob blob_len d shape off)
  unfolding read_view
  read_view-InFile (wrong e) shape off = tt
  read_view-InFile (fine d) none off = tt
  read_view-InFile (fine d) (some shape) none = tt
  read_view-InFile (fine d) (some shape) (some off) =
      make_view-InFile d shape (check_offsets blob_len off) (check_offsets-InBlob blob_len off)

  put_tensor-AllIn :
      (n : List ℕ) (v : TensorView) (ts : Tensors)
      → InFile file_len blob v
      → AllIn file_len blob ts
      → AllIn file_len blob (put_tensor n v ts)
  unfolding put_tensor
  put_tensor-AllIn n v [] i a = (i, tt)
  put_tensor-AllIn n v ((m, w) ∷ ts) i (b, a) = elim (Bool-cases (text_eq m n)) [
    | inl hit ↦ rw hit (i, a)
    | inr miss ↦ rw miss (b, put_tensor-AllIn n v ts i a)
  ]

  add_view-AllIn :
      (n : List ℕ) (c : Checked TensorView) (ts : Tensors)
      → Good (InFile file_len blob) c
      → AllIn file_len blob ts
      → Good (AllIn file_len blob) (add_view n c ts)
  add_view-AllIn n (wrong e) ts g a = tt
  add_view-AllIn n (fine v) ts g a = put_tensor-AllIn n v ts g a

  read_entry-AllIn :
      (e : Entry) (ts : Tensors)
      → AllIn file_len blob ts
      → Good (AllIn file_len blob) (read_entry blob blob_len e ts)
  read_entry-AllIn e ts a = elim (Bool-cases e.is_metadata) [
    | inl skip ↦ simp skip (metadata (e.metadata_strings))
    | inr tensor ↦ simp tensor (
        add_view-AllIn e.name (read_view blob blob_len (dtype_of e.dtype) e.shape e.data_offsets) ts
          (read_view-InFile (dtype_of e.dtype) e.shape e.data_offsets) a)
  ]
    where
      metadata :
          (b : Bool) → Good (AllIn file_len blob) (if b then fine ts else wrong Failure.bad_json)
      metadata true = a
      metadata false = tt

  read_entries-AllIn :
      (es : List Entry) (ts : Tensors)
      → AllIn file_len blob ts
      → Good (AllIn file_len blob) (read_entries blob blob_len es ts)
  unfolding read_entries
  read_entries-AllIn [] ts a = a
  read_entries-AllIn (e ∷ es) ts a =
      and_then-AllIn (read_entry blob blob_len e ts) (read_entry-AllIn e ts a)
        (λ ts'. read_entries-AllIn es ts')
    where
      and_then-AllIn :
          (c : Checked Tensors)
          → Good (AllIn file_len blob) c
          → ((ts' : Tensors)
              → AllIn file_len blob ts'
              → Good (AllIn file_len blob) (read_entries blob blob_len es ts'))
          → Good (AllIn file_len blob) (and_then c (read_entries blob blob_len es))
      and_then-AllIn (wrong x) g k = tt
      and_then-AllIn (fine ts') g k = k ts' g

-- What each outcome tells of the file.
abbrev pub Outcome : List ℕ → Opened → Type 0
Outcome file (Opened.opened ts) =
    (8 + little_endian (take 8 file) ≤ length file)
    × AllIn (length file) (8 + little_endian (take 8 file)) ts
Outcome file Opened.undefined =
    (8 ≤ length file)
    × (length file < 8 + little_endian (take 8 file))
    × ((8 + little_endian (take 8 file)) % 2 ^ 64 ≤ length file)
Outcome file (Opened.refused e) = Unit

result-Outcome :
    (file : List ℕ) (c : Checked Tensors)
    → 8 + little_endian (take 8 file) ≤ length file
    → Good (AllIn (length file) (8 + little_endian (take 8 file))) c
    → Outcome file (result c)
result-Outcome file (fine ts) h g = (h, g)
result-Outcome file (wrong x) h g = tt

read_header-Outcome :
    (file : List ℕ) (o : Option (List Entry))
    → 8 + little_endian (take 8 file) ≤ length file
    → let hlen = little_endian (take 8 file) in
      Outcome file (read_header (8 + hlen) (length file - 8 - hlen) o)
unfolding read_header
read_header-Outcome file none h = tt
read_header-Outcome file (some es) h =
    let hlen = little_endian (take 8 file) in
    result-Outcome file (read_entries (8 + hlen) (length file - 8 - hlen) es []) h (
      read_entries-AllIn (length file) (8 + hlen) (length file - 8 - hlen) (omega (arith, h)) es []
        tt)

-- Whatever the JSON library reads in the header: in a file that is opened every tensor lies in the
-- file, behind the header, with just the bytes that its shape and type ask for, modulo 2^64; and the
-- library reads outside of the file only if this has eight bytes, the header's length is past its
-- end, and the sum of this length and 8 wraps around at 2^64 to a number within the file.
pub open_file-Outcome :
    (parse : List ℕ → Option (List Entry)) (fails_within : List ℕ → Bool) (file : List ℕ)
    → Outcome file (open_file parse fails_within file)
unfolding open_file
open_file-Outcome parse fails_within file =
    let hlen = little_endian (take 8 file) in
    elim (Bool-cases (ltb (length file) 8)) [
      | inl small ↦ rw small tt
      | inr sized ↦ rw sized (elim (Bool-cases (ltb (length file) ((8 + hlen) % 2 ^ 64))) [
        | inl over ↦ rw over tt
        | inr passes ↦ rw passes (elim (Bool-cases (ltb (length file) (8 + hlen))) [
          | inl past ↦ rw past (elim (Bool-cases (fails_within (drop 8 file))) [
            | inl early ↦ rw early tt
            | inr late ↦
                rw late (ground (arith, sized), ground (arith, past), ground (arith, passes))
          ])
          | inr within ↦
              rw within (
                read_header-Outcome file (parse (take hlen (drop 8 file))) (ground (arith, within)))
        ])
      ])
    ]
