-- ===== src/Writer/Copied.antt =====
-- src/qx_format.c: what copy_tensor_bytes writes.
use mathlib.Core.Path.{subst}
use qx_mini_c.Prelude.{
  ℕ, zero, suc, ◌+◌, ◌-◌, ◌≤◌, ◌<◌, ◌≡◌, refl, sym, ap, ◌∙◌, true, false, List, ◌++◌, some, ltb,
  ◌==◌, if◌then◌else◌, length, length-drop, take, drop, arith, Bool-cases, inl, inr,
}
use qx_mini_c.Prelude.Results.{ok}
use qx_mini_c.Spans.{
  DirEntry, Opened, fnv1a64_update, fnv_start, buffer_size, verify_tensor_checksum,
}
use qx_mini_c.Spans.Agree.{
  IsOpen, verify_tensor_checksum-checked, hash_of, checksum_of-hash_of, fnv1a64_update-append,
  take-plus,
}
use qx_mini_c.Writer.{copy_chunks, copy_tensor_bytes}

copy_chunks-take :
    (fuel h : ℕ) (src : List ℕ) (n : ℕ)
    → n ≤ fuel
    → n ≤ length src
    → copy_chunks fuel h src n ≡ some (take n src, fnv1a64_update h (take n src))
unfolding copy_chunks fnv1a64_update
copy_chunks-take zero h src n few fits =
    let none_left : 0 ≡ n = omega (arith, few) in
    subst (λ k. copy_chunks 0 h src k ≡ some (take k src, fnv1a64_update h (take k src))) none_left
      refl
copy_chunks-take (suc fuel) h src n few fits = elim (Bool-cases (n == 0)) [
  | inl done ↦
      let none_left : 0 ≡ n = ground (arith, done) in
      subst (λ k. copy_chunks (suc fuel) h src k ≡ some (take k src, fnv1a64_update h (take k src)))
        none_left refl
  | inr more ↦
      let want = if ltb n buffer_size then n else buffer_size in
      let least : want ≤ n = ground arith in
      let some_bytes : 0 < want = ground (arith, more) in
      let there : ltb (length src) want ≡ false = ground (arith, fits, least) in
      let left : n - want ≤ length (drop want src) =
        omega (arith, fits, length-drop want src, least) in
      let chunk = take want src in
      let tail = take (n - want) (drop want src) in
      let next =
        copy_chunks-take fuel (fnv1a64_update h chunk) (drop want src) (n - want)
          (omega (arith, few, some_bytes)) left in
      let whole : want + (n - want) ≡ n = omega (arith, least) in
      let joined : chunk ++ tail ≡ take n src =
        take-plus want (n - want) src ∙ ap (λ k. take k src) whole in
      let both : (t : List ℕ) → List ℕ × ℕ = λ t. (t, fnv1a64_update h t) in
      rw (more, there, next, copy_chunks)
        (ap (λ x. some (chunk ++ tail, x)) (sym (fnv1a64_update-append h chunk tail))
          ∙ ap (λ t. some (both t)) joined)
]

-- When the source has the bytes, copy_tensor_bytes succeeds, and what it writes is those bytes,
-- with their hash `hash_of`, whose basis is not FNV-1a's.
pub copy_tensor_bytes-take :
    (src : List ℕ) (src_abs n : ℕ)
    → src_abs + n ≤ length src
    → copy_tensor_bytes src src_abs n
      ≡ some (take n (drop src_abs src), hash_of (take n (drop src_abs src)))
unfolding copy_tensor_bytes
copy_tensor_bytes-take src src_abs n fits =
    copy_chunks-take n fnv_start (drop src_abs src) n (omega arith)
      (omega (arith, fits, length-drop src_abs src))
    ∙ ap (λ h. some (take n (drop src_abs src), h))
        (checksum_of-hash_of (take n (drop src_abs src)))

abbrev pub entry_of : List ℕ → ℕ → ℕ → ℕ → DirEntry
entry_of name offset size checksum = record {
  name = name;
  offset = offset;
  byte_size = size;
  checksum = checksum;
}

-- When a source has the bytes, one at least, they are copied with a checksum; a ready file that
-- has the bytes its header says, and those copied at an offset inside it, passes the check of a
-- tensor there against that checksum.
pub verify_tensor_checksum-copy_tensor_bytes :
    (src : List ℕ) (src_abs n : ℕ) (file : Opened) (name : List ℕ) (offset : ℕ)
    → src_abs + n ≤ length src
    → 0 < n
    → IsOpen file
    → file.file_size ≤ length file.bytes
    → offset + n ≤ file.file_size
    → take n (drop offset file.bytes) ≡ take n (drop src_abs src)
    → (checksum : ℕ) × (copy_tensor_bytes src src_abs n
        ≡ some (take n (drop src_abs src), checksum))
      × (verify_tensor_checksum file (entry_of name offset n checksum) ≡ ok tt)
verify_tensor_checksum-copy_tensor_bytes src src_abs n file name offset fits some_bytes ready whole
      inside same =
    let bytes = take n (drop src_abs src) in
    let checksum = hash_of bytes in
    let within : ltb file.file_size (offset + n) ≡ false = ground (arith, inside) in
    let equal : (hash_of (take n (drop offset file.bytes)) == checksum) ≡ true =
      ground (arith, ap hash_of same) in
    (
      checksum,
      copy_tensor_bytes-take src src_abs n fits,
      verify_tensor_checksum-checked file (entry_of name offset n checksum) ready whole some_bytes
          ∙ rw (within, equal) refl,
    )
