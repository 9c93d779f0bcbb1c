-- ===== src/Spans/Agree.antt =====
-- src/qx_format.c: spans and checksums on both backends, against what they are to be.
use mathlib.Core.Path.{subst}
use qx_mini_c.Prelude.Bytes.{take_bytes}
use qx_mini_c.Prelude.{
  ℕ, zero, suc, ◌+◌, ◌-◌, ◌≤◌, ◌<◌, ◌≡◌, refl, sym, ap, ◌∙◌, false, ◌||◌, List, [], ◌∷◌, ◌++◌, some,
  ltb, ◌*◌, ◌%◌, ◌^◌, ◌==◌, if◌then◌else◌, length, length-drop, take, drop, mul64, arith,
  Bool-cases, ◌⊎◌, inl, inr,
}
use qx_mini_c.Prelude.Results.{Result, ok, err}
use Prim.Native.Nat.{bit_xor}
use qx_mini_c.Spans.{
  DirEntry, Opened, mapped, buffered, Error, empty_span, outside_file, tensor_outside_file,
  acquire_span, hash_chunks, fnv1a64_update, checksum_of, fnv_start, compared,
  verify_tensor_checksum, buffer_size,
}

-- A span as the file's bytes, whatever the backend.
abbrev pub span_of : Opened → ℕ → ℕ → Result Error (List ℕ)
span_of file offset size =
    if size == 0
    then err empty_span
    else if ltb file.file_size (offset + size)
    then err outside_file
    else ok (take size (drop offset file.bytes))

-- The hash of bytes as one list: from the basis 1469598103934665603, xor a byte, then times the FNV
-- prime, in 64 bits. The basis of FNV-1a is 14695981039346656037.
unfoldable pub hash_from : ℕ → List ℕ → ℕ
hash_from h [] = h
hash_from h (b ∷ bs) = hash_from (bit_xor h b * 1099511628211 % 2 ^ 64) bs

abbrev pub hash_of : List ℕ → ℕ
hash_of bytes = hash_from 1469598103934665603 bytes

update-hash_from : (h : ℕ) (bytes : List ℕ) → fnv1a64_update h bytes ≡ hash_from h bytes
unfolding fnv1a64_update hash_from
update-hash_from h [] = refl
update-hash_from h (b ∷ bs) = update-hash_from (mul64 (bit_xor h b) 1099511628211) bs

pub checksum_of-hash_of : (bytes : List ℕ) → checksum_of bytes ≡ hash_of bytes
checksum_of-hash_of bytes = update-hash_from fnv_start bytes

-- A checksum of the tensor's bytes as one list.
abbrev pub checked : Opened → DirEntry → Result Error (Unit {0})
checked file tensor =
    if ltb file.file_size (tensor.offset + tensor.byte_size)
    then err tensor_outside_file
    else compared (hash_of (take tensor.byte_size (drop tensor.offset file.bytes))) tensor.checksum

bounds :
    (file_size offset size : ℕ)
    → (ltb file_size offset || ltb (file_size - offset) size) ≡ ltb file_size (offset + size)
bounds file_size offset size = ground arith

enough :
    (bytes : List ℕ) (offset size : ℕ)
    → offset + size ≤ length bytes
    → take_bytes size (drop offset bytes)
      ≡ some (take size (drop offset bytes), drop size (drop offset bytes))
enough bytes offset size fits =
    let there : ltb (length (drop offset bytes)) size ≡ false =
      ground (arith, fits, length-drop offset bytes) in
    rw there refl

-- The file is ready: mapped, or read through a buffer.
abbrev pub IsOpen : Opened → Type 0
IsOpen file = (file.backend ≡ mapped) ⊎ (file.backend ≡ buffered)

-- On a ready file that has the bytes its header says, qx_acquire_span refuses an empty span and
-- one outside the file, each with its error, and else gives the bytes from the offset on.
pub acquire_span-span_of :
    (file : Opened) (offset size : ℕ)
    → IsOpen file
    → file.file_size ≤ length file.bytes
    → acquire_span file offset size ≡ span_of file offset size
unfolding acquire_span
acquire_span-span_of file offset size ready whole = elim (Bool-cases (size == 0)) [
  | inl nothing ↦ rw nothing refl
  | inr some_bytes ↦ elim (Bool-cases (ltb file.file_size (offset + size))) [
    | inl outside ↦ rw (some_bytes, bounds file.file_size offset size, outside) refl
    | inr inside ↦
        let fits : offset + size ≤ length file.bytes = ground (arith, inside, whole) in
        rw (some_bytes, bounds file.file_size offset size, inside)
          (elim ready [
            | inl view ↦ rw view refl
            | inr stdio ↦ rw (stdio, enough file.bytes offset size fits) refl
          ])
  ]
]

pub fnv1a64_update-append :
    (h : ℕ) (xs ys : List ℕ) → fnv1a64_update h (xs ++ ys) ≡ fnv1a64_update (fnv1a64_update h xs) ys
unfolding fnv1a64_update
fnv1a64_update-append h [] ys = refl
fnv1a64_update-append h (x ∷ xs) ys =
    fnv1a64_update-append (mul64 (bit_xor h x) 1099511628211) xs ys

take-nil : (n : ℕ) → take {A = ℕ} n [] ≡ []
take-nil zero = refl
take-nil (suc n) = refl

pub take-plus : (m n : ℕ) (xs : List ℕ) → take m xs ++ take n (drop m xs) ≡ take (m + n) xs
take-plus zero n xs = ap (λ k. take k xs) (omega arith)
take-plus (suc m) n [] = take-nil n ∙ sym (take-nil (suc m + n))
take-plus (suc m) n (x ∷ xs) =
    let next : suc (m + n) ≡ suc m + n = omega arith in
    ap (λ t. x ∷ t) (take-plus m n xs) ∙ ap (λ k. take k (x ∷ xs)) next

hash_chunks-fnv1a64_update :
    (fuel h : ℕ) (rest : List ℕ) (remaining : ℕ)
    → remaining ≤ fuel
    → remaining ≤ length rest
    → hash_chunks fuel h rest remaining ≡ some (fnv1a64_update h (take remaining rest))
unfolding hash_chunks
hash_chunks-fnv1a64_update zero h rest remaining few fits =
    let none_left : 0 ≡ remaining = omega (arith, few) in
    subst (λ n. hash_chunks 0 h rest n ≡ some (fnv1a64_update h (take n rest))) none_left refl
hash_chunks-fnv1a64_update (suc fuel) h rest remaining few fits =
    elim (Bool-cases (remaining == 0)) [
      | inl done ↦
          let none_left : 0 ≡ remaining = ground (arith, done) in
          subst (λ n. hash_chunks (suc fuel) h rest n ≡ some (fnv1a64_update h (take n rest)))
            none_left refl
      | inr more ↦
          let want = if ltb remaining buffer_size then remaining else buffer_size in
          let least : want ≤ remaining = ground arith in
          let some_bytes : 0 < want = ground (arith, more) in
          let there : ltb (length rest) want ≡ false = ground (arith, fits, least) in
          let left : remaining - want ≤ length (drop want rest) =
            omega (arith, fits, length-drop want rest, least) in
          let next =
            hash_chunks-fnv1a64_update fuel (fnv1a64_update h (take want rest)) (drop want rest)
              (remaining - want) (omega (arith, few, some_bytes)) left in
          let whole : want + (remaining - want) ≡ remaining = omega (arith, least) in
          rw (more, there, hash_chunks)
            (next
              ∙ ap some (
                  sym (
                    fnv1a64_update-append h (take want rest)
                      (take (remaining - want) (drop want rest)))
                  ∙ ap (fnv1a64_update h)
                      (take-plus want (remaining - want) rest ∙ ap (λ k. take k rest) whole)))
    ]

-- On a ready file that has the bytes its header says, for a tensor that is not empty:
-- qx_verify_tensor_checksum refuses a range outside the file, and else compares the hash `hash_of` of
-- the tensor's bytes, as one list, with its checksum. The basis of that hash is not FNV-1a's.
pub verify_tensor_checksum-checked :
    (file : Opened) (tensor : DirEntry)
    → IsOpen file
    → file.file_size ≤ length file.bytes
    → 0 < tensor.byte_size
    → verify_tensor_checksum file tensor ≡ checked file tensor
unfolding verify_tensor_checksum
verify_tensor_checksum-checked file tensor ready whole some_bytes =
    elim (Bool-cases (ltb file.file_size (tensor.offset + tensor.byte_size))) [
      | inl outside ↦ rw (bounds file.file_size tensor.offset tensor.byte_size, outside) refl
      | inr inside ↦
          let fits : tensor.offset + tensor.byte_size ≤ length file.bytes =
            ground (arith, inside, whole) in
          let nonempty : (tensor.byte_size == 0) ≡ false = ground (arith, some_bytes) in
          let span : acquire_span file tensor.offset tensor.byte_size
              ≡ ok (take tensor.byte_size (drop tensor.offset file.bytes)) =
            acquire_span-span_of file tensor.offset tensor.byte_size ready whole
            ∙ rw (nonempty, inside) refl in
          let chunks =
            hash_chunks-fnv1a64_update tensor.byte_size fnv_start (drop tensor.offset file.bytes)
              tensor.byte_size (omega arith)
              (omega (arith, fits, length-drop tensor.offset file.bytes)) in
          let bytes = take tensor.byte_size (drop tensor.offset file.bytes) in
          let hashed = ap (λ h. compared h tensor.checksum) (checksum_of-hash_of bytes) in
          rw (bounds file.file_size tensor.offset tensor.byte_size, inside)
            (elim ready [
              | inl view ↦ rw (view, span) hashed
              | inr stdio ↦ rw (stdio, chunks) hashed
            ])
    ]
