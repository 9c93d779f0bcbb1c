-- ===== src/Spans/Tests.antt =====
-- src/qx_format.c: spans and checksums of a file of five bytes.
use mathlib.Core.HLevel.{¬_prop}
use mathlib.Core.List.{Pairwise, Pairwise-singleton, eq-or-mem_of_mem-cons, not-mem-nil}
use mathlib.Core.Logic.Or
use qx_mini_c.Spans.Found.{find_tensor_each}
use qx_mini_c.Container.Directory.{c_string}
use qx_mini_c.Prelude.{ℕ, ◌≡◌, ◌≢◌, ap, ◌∙◌, get_or, refl, List, [], ◌∷◌, some, arith, inr}
use qx_mini_c.Prelude.Results.{ok, err}
use qx_mini_c.Spans.{
  DirEntry, Opened, Backend, mapped, buffered, empty_span, checksum_of, fnv1a64_update,
  acquire_span, find_tensor, verify_tensor_checksum,
}
use qx_mini_c.Spans.Agree.{hash_from, acquire_span-span_of, verify_tensor_checksum-checked}

abbrev middle : DirEntry
middle = record {
  name = b'm' ∷ 0 ∷ 0 ∷ [];
  offset = 1;
  byte_size = 3;
  checksum = checksum_of (20 ∷ 30 ∷ 40 ∷ []);
}

abbrev five : Backend → Opened
five backend = record {
  file_size = 5;
  bytes = 10 ∷ 20 ∷ 30 ∷ 40 ∷ 50 ∷ [];
  backend = backend;
  directory = middle ∷ [];
}

middle_found : find_tensor (five buffered).directory (b'm' ∷ []) ≡ some middle
unfolding find_tensor
middle_found = refl

-- An empty tensor has a checksum on the buffered backend only.
abbrev empty_entry : DirEntry
empty_entry = record { name = 0 ∷ []; offset = 1; byte_size = 0; checksum = checksum_of [] }

empty_mapped : verify_tensor_checksum (five mapped) empty_entry ≡ err empty_span
unfolding verify_tensor_checksum
empty_mapped = refl

empty_buffered : verify_tensor_checksum (five buffered) empty_entry ≡ ok tt
unfolding verify_tensor_checksum fnv1a64_update
empty_buffered = refl

acquire_span-span_of_example : acquire_span (five buffered) 1 3 ≡ ok (20 ∷ 30 ∷ 40 ∷ [])
acquire_span-span_of_example = acquire_span-span_of (five buffered) 1 3 (inr refl) (omega arith)

verify_tensor_checksum-checked_example : verify_tensor_checksum (five buffered) middle ≡ ok tt
unfolding fnv1a64_update hash_from
verify_tensor_checksum-checked_example =
    verify_tensor_checksum-checked (five buffered) middle (inr refl) (omega arith) (omega arith)

abbrev first : DirEntry
first = record { name = b'f' ∷ 0 ∷ []; offset = 0; byte_size = 1; checksum = 0 }

names_differ : ◌≢◌ {A = List ℕ} (b'f' ∷ []) (b'm' ∷ [])
names_differ e = ground (arith, ap (λ s. get_or s 0 0) e)

find_tensor_each_example : find_tensor (first ∷ middle ∷ []) (b'm' ∷ []) ≡ some middle
unfolding c_string
find_tensor_each_example =
    find_tensor_each (first ∷ middle ∷ []) 1 middle
      (Pairwise.cons
        (λ b m.
          Or.elim ¬_prop (eq-or-mem_of_mem-cons m) (λ same e. names_differ (e ∙ same))
            (λ later. absurd (not-mem-nil later)))
        (Pairwise-singleton ◌≢◌ (b'm' ∷ [])))
      refl

-- FNV-1a gives its basis, 14695981039346656037, for no bytes.
no_bytes : checksum_of [] ≡ 1469598103934665603
unfolding fnv1a64_update
no_bytes = refl
