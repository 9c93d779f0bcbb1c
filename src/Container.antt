-- ===== src/Container.antt =====
-- src/qx_format.c, the QXF1 container: alignment, and the checks of qx_open_file_with_backend on
-- the header and the tensor directory.
pub mod Directory
pub mod Align
pub mod Dimensions
pub mod Placement
pub mod Ranges
pub mod Names
pub mod Open
mod Tests
use qx_mini_c.Prelude.{
  ℕ, zero, suc, ◌+◌, ◌-◌, ◌*◌, ◌/◌, ◌%◌, Bool, true, false, not, ◌&&◌, ◌||◌, List, [], ◌∷◌, Option,
  none, some, map, ltb, ◌==◌, if◌then◌else◌, get_or, take, length, u64_max, add64, sub64, mul64,
}

-- QX_ALIGN_BYTES, QX_MAX_DIMS, QX_NAME_MAX, and the sizes of the two structs as the 64-bit
-- compilers lay them out.
abbrev pub align_bytes : ℕ
align_bytes = 4096

abbrev pub max_dims : ℕ
max_dims = 4

abbrev pub name_max : ℕ
name_max = 96

abbrev pub header_struct_size : ℕ
header_struct_size = 272

abbrev pub entry_struct_size : ℕ
entry_struct_size = 208

-- The fields of `qx_header` that the directory checks read.
pub record Header : Type 0 where
  pub header_size : ℕ
  pub dir_entry_size : ℕ
  pub tensor_count : ℕ
  pub dir_offset : ℕ
  pub data_offset : ℕ
  pub file_size : ℕ

-- `qx_tensor_dir_entry`; `name` holds the bytes of the array, and `dims` its four numbers.
pub record Tensor : Type 0 where
  pub name : List ℕ
  pub dtype : ℕ
  pub quant : ℕ
  pub rank : ℕ
  pub dims : List ℕ
  pub offset : ℕ
  pub byte_size : ℕ
  pub group_size : ℕ
  pub flags : ℕ

pub record Span : Type 0 where
  pub offset : ℕ
  pub end : ℕ

pub data Error : Type 0 where
  empty_directory unsupported_structure_size size_mismatch invalid_layout : Error
  bad_name invalid_metadata invalid_dimensions invalid_placement inconsistent_byte_size : Error
  duplicate_name overlapping_ranges : Error

pub data Result {ℓ} (A : Type ℓ) : Type ℓ where
  ok : A → Result A
  err : Error → Result A

unfoldable pub align_u64 : ℕ → ℕ → ℕ
align_u64 value alignment =
    if alignment == 0
    then value
    else let rem = value % alignment in
      if rem == 0 then value else add64 value (sub64 alignment rem)

unfoldable pub align_u64_checked : ℕ → ℕ → Option ℕ
align_u64_checked value alignment =
    if alignment == 0
    then none
    else let rem = value % alignment in
      let pad = if rem == 0 then 0 else sub64 alignment rem in
      if ltb (u64_max - pad) value then none else some (add64 value pad)

-- The loop of `qx_validate_tensor_dimensions`; the list is `dims` from index `d` on.
unfoldable pub dimensions_loop : ℕ → ℕ → List ℕ → ℕ → Option ℕ
dimensions_loop d rank [] elements = some elements
dimensions_loop d rank (x ∷ dims) elements =
    let used = dimensions_loop (suc d) rank dims (mul64 elements x) in
    let unused = dimensions_loop (suc d) rank dims elements in
    if ltb d rank
    then (if x == 0 || ltb (u64_max / x) elements then none else used)
    else if not (x == 0)
    then none
    else unused

unfoldable pub validate_dimensions : Tensor → Option ℕ
unfolding dimensions_loop
validate_dimensions t =
    if t.rank == 0 || ltb max_dims t.rank then none else elim (dimensions_loop 0 t.rank t.dims 1) [
      | none ↦ none
      | some elements ↦ if ltb 0 elements then some elements else none
    ]

-- Elements and bytes of a block of each GGML type.
unfoldable pub block_geometry : ℕ → Option (ℕ × ℕ)
block_geometry flags =
    if flags == 0
    then some (1, 4)
    else if flags == 1
    then some (1, 2)
    else if flags == 8
    then some (32, 34)
    else if flags == 10
    then some (256, 84)
    else if flags == 11
    then some (256, 110)
    else if flags == 12
    then some (256, 144)
    else if flags == 13
    then some (256, 176)
    else if flags == 14
    then some (256, 210)
    else if flags == 17
    then some (256, 74)
    else if flags == 18
    then some (256, 98)
    else if flags == 21
    then some (256, 110)
    else if flags == 22
    then some (256, 82)
    else if flags == 23
    then some (256, 136)
    else none

unfoldable pub expected_byte_size : Tensor → ℕ → Option ℕ
expected_byte_size t elements = elim (block_geometry t.flags) [
  | none ↦ none
  | some (block_elements, block_bytes) ↦
      if not (get_or t.dims 0 0 % block_elements == 0) || not (elements % block_elements == 0)
      then none
      else let blocks = elements / block_elements in
        if ltb (u64_max / block_bytes) blocks
        then none
        else let expected = mul64 blocks block_bytes in
          if ltb 0 expected then some expected else none
]

abbrev has_traits : Tensor → ℕ → ℕ → Bool
has_traits t dtype group = t.dtype == dtype && t.group_size == group

-- QX_DTYPE_F16 to QX_DTYPE_U8 are 1 to 6.
unfoldable pub validate_traits : Tensor → Bool
validate_traits t =
    let f = t.flags in
    if f == 0
    then has_traits t 2 0
    else if f == 1
    then has_traits t 1 0
    else if f == 8
    then has_traits t 6 0
    else if f == 10 || f == 17 || f == 22
    then has_traits t 5 64
    else if f == 11 || f == 18 || f == 21
    then has_traits t 4 64
    else if f == 12 || f == 13 || f == 14
    then has_traits t 3 64
    else if f == 23
    then has_traits t 3 64 || has_traits t 6 0
    else false

-- The guards on the header, against the size of the file.
unfoldable pub check_header : Header → ℕ → Option Error
check_header h actual_size =
    let directory_bytes = mul64 h.tensor_count entry_struct_size in
    if h.tensor_count == 0
    then some empty_directory
    else if not (h.header_size == header_struct_size) || not (h.dir_entry_size == entry_struct_size)
    then some unsupported_structure_size
    else if not (actual_size == h.file_size) || ltb h.file_size header_struct_size
    then some size_mismatch
    else if ltb h.dir_offset h.header_size
        || not (h.dir_offset % align_bytes == 0)
        || not (h.data_offset % align_bytes == 0)
        || ltb h.file_size h.dir_offset
        || ltb (h.file_size - h.dir_offset) directory_bytes
        || ltb h.data_offset (add64 h.dir_offset directory_bytes)
        || ltb h.file_size h.data_offset
    then some invalid_layout
    else none

-- `memchr(name, 0, QX_NAME_MAX)`.
unfoldable pub has_nul : List ℕ → Bool
has_nul [] = false
has_nul (c ∷ cs) = c == 0 || has_nul cs

-- The placement guards of a file that holds tensor bytes.
unfoldable pub check_placement : Header → Tensor → ℕ → Result Span
check_placement h t elements =
    if ltb t.offset h.data_offset
      || not (t.offset % align_bytes == 0)
      || t.byte_size == 0
      || ltb h.file_size t.offset
      || ltb (h.file_size - t.offset) t.byte_size
    then err invalid_placement
    else elim (expected_byte_size t elements) [
      | none ↦ err inconsistent_byte_size
      | some expected ↦
          if t.byte_size == expected
          then ok (record { offset = t.offset; end = add64 t.offset t.byte_size })
          else err inconsistent_byte_size
    ]

-- One round of the loop over the directory. In a file of metadata alone no span is recorded.
unfoldable pub check_tensor : Header → Bool → Tensor → Result (List Span)
check_tensor h metadata_only t =
    if not (has_nul (take name_max t.name)) || get_or t.name 0 0 == 0
    then err bad_name
    else if ltb t.dtype 1
        || ltb 6 t.dtype
        || ltb t.quant 1
        || ltb 5 t.quant
        || (not metadata_only && not (validate_traits t))
    then err invalid_metadata
    else elim (validate_dimensions t) [
      | none ↦ err invalid_dimensions
      | some elements ↦
          if metadata_only
          then if not (t.offset == 0) || not (t.byte_size == 0)
            then err invalid_placement
            else ok []
          else elim (check_placement h t elements) [ err e ↦ err e | ok span ↦ ok (span ∷ []) ]
    ]
