-- ===== src/Spans.antt =====
-- src/qx_format.c: what is read of an opened container: spans of the file on both backends, the search for a tensor,
-- and the checksum of its bytes. Null arguments, failed allocations and the failures of a seek are not modelled; the
-- mapped view, when there is one, is the file's bytes.
pub mod Agree
pub mod Found
mod Tests
use qx_mini_c.Container.Directory.{c_string, same_bytes}
use qx_mini_c.Prelude.Bytes.{take_bytes}
use qx_mini_c.Prelude.{
  ℕ, zero, suc, ◌+◌, ◌-◌, ◌*◌, Bool, true, false, not, ◌&&◌, ◌||◌, List, [], ◌∷◌, ◌++◌, Option,
  none, some, ltb, ◌==◌, if◌then◌else◌, length, take, drop, mul64,
}
use qx_mini_c.Prelude.Results.{Result, ok, err}
use Prim.Native.Nat.{bit_xor}

abbrev pub fnv_start : ℕ
fnv_start = 1469598103934665603

-- The hash after some more bytes, and of bytes.
unfoldable pub fnv1a64_update : ℕ → List ℕ → ℕ
fnv1a64_update hash [] = hash
fnv1a64_update hash (b ∷ bs) = fnv1a64_update (mul64 (bit_xor hash b) 1099511628211) bs

abbrev pub checksum_of : List ℕ → ℕ
checksum_of bytes = fnv1a64_update fnv_start bytes

-- What is read of a directory's entry here: the bytes of the name's array, and where the tensor's bytes are.
pub record DirEntry : Type 0 where
  pub name : List ℕ
  pub offset : ℕ
  pub byte_size : ℕ
  pub checksum : ℕ

-- `QX_IO_MMAP` without and with a view, and `QX_IO_BUFFERED`.
pub data Backend : Type 0 where
  unmapped mapped buffered : Backend

-- `qx_file`: the header's `file_size` and the bytes that the file has.
pub record Opened : Type 0 where
  pub file_size : ℕ
  pub bytes : List ℕ
  pub backend : Backend
  pub directory : List DirEntry

pub data Error : Type 0 where
  empty_span outside_file view_unavailable short_read : Error
  tensor_outside_file short_tensor_read checksum_mismatch : Error

-- `size` bytes from `offset` on, if the file has them.
abbrev pub read_at : List ℕ → ℕ → ℕ → Option (List ℕ)
read_at bytes offset size = elim (take_bytes size (drop offset bytes)) [
  | none ↦ none
  | some (s, rest) ↦ some s
]

unfoldable pub acquire_span : Opened → ℕ → ℕ → Result Error (List ℕ)
acquire_span file offset size =
    if size == 0
    then err empty_span
    else if ltb file.file_size offset || ltb (file.file_size - offset) size
    then err outside_file
    else elim file.backend [
      | unmapped ↦ err view_unavailable
      | mapped ↦ ok (take size (drop offset file.bytes))
      | buffered ↦ elim (read_at file.bytes offset size) [ none ↦ err short_read | some s ↦ ok s ]
    ]

unfoldable pub find_tensor : List DirEntry → List ℕ → Option DirEntry
unfolding c_string same_bytes
find_tensor [] name = none
find_tensor (e ∷ es) name =
    let rest = find_tensor es name in if same_bytes (c_string e.name) name then some e else rest

-- 64 KiB.
abbrev pub buffer_size : ℕ
buffer_size = 65536

-- The loop over the tensor's bytes: each round takes at least one of the `remaining`.
unfoldable pub hash_chunks : ℕ → ℕ → List ℕ → ℕ → Option ℕ
unfolding fnv1a64_update
hash_chunks zero h rest remaining = if remaining == 0 then some h else none
hash_chunks (suc fuel) h rest remaining =
    if remaining == 0
    then some h
    else let want = if ltb remaining buffer_size then remaining else buffer_size in
      elim (take_bytes want rest) [
        | none ↦ none
        | some (chunk, more) ↦ hash_chunks fuel (fnv1a64_update h chunk) more (remaining - want)
      ]

-- The test of a hash.
abbrev pub compared : ℕ → ℕ → Result Error (Unit {0})
compared h checksum = if not (h == checksum) then err checksum_mismatch else ok tt

unfoldable pub verify_tensor_checksum : Opened → DirEntry → Result Error (Unit {0})
unfolding acquire_span hash_chunks
verify_tensor_checksum file tensor =
    let outside =
      ltb file.file_size tensor.offset || ltb (file.file_size - tensor.offset) tensor.byte_size in
    let of_span : Result Error (Unit {0}) =
      elim (acquire_span file tensor.offset tensor.byte_size) [
        | err e ↦ err e
        | ok s ↦ compared (checksum_of s) tensor.checksum
      ] in
    if outside then err tensor_outside_file else elim file.backend [
      | unmapped ↦ of_span
      | mapped ↦ of_span
      | buffered ↦
          elim (hash_chunks tensor.byte_size fnv_start (drop tensor.offset file.bytes)
            tensor.byte_size) [ none ↦ err short_tensor_read | some h ↦ compared h tensor.checksum ]
    ]
