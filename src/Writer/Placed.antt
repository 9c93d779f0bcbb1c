-- ===== src/Writer/Placed.antt =====
-- src/qx_format.c: the layout of a copy, against the checks that its reader makes on the header and on
-- where the tensors are.
use mathlib.Core.Option.{some-injective, none-ne-some}
use mathlib.Core.Path.{subst}
use qx_mini_c.Container.{
  Header, Tensor, align_bytes, header_struct_size, entry_struct_size, align_u64_checked,
  check_header,
}
use qx_mini_c.Container.Align.{IsNext, align_u64_checked-IsNext}
use qx_mini_c.Container.Directory.{in_order}
use qx_mini_c.Container.Placement.{span}
use qx_mini_c.Gguf.{Info}
use qx_mini_c.Prelude.{
  ℕ, ◌+◌, ◌-◌, ◌*◌, ◌%◌, ◌≤◌, ◌<◌, ◌≡◌, refl, sym, ap, ◌∙◌, Bool, true, false, not, ◌&&◌, List, [],
  ◌∷◌, map, none, some, ltb, ◌==◌, length, All, u32_max, u64_max, mul64, IsU64, arith, Bool-cases,
  Option-cases, inl, inr,
}
use qx_mini_c.Prelude.Results.{Result, ok, err}
use qx_mini_c.Writer.Traits.{HasTraits, traits_of}
use qx_mini_c.Writer.{
  Error, empty_directory, too_many_tensors, layout_overflow, tensor_layout_overflow, entry_at,
  lay_out, plan_copy,
}

-- A tensor lies aligned between two places.
pub record IsBetween (low end : ℕ) (t : Tensor) : Type 0 where
  pub after : low ≤ t.offset
  pub aligned : t.offset % align_bytes ≡ 0
  pub before : t.offset + t.byte_size ≤ end

pub record IsLaid (low previous cursor : ℕ) (ts : List Tensor) (end : ℕ) : Type 0 where
  pub between : All (IsBetween low end) ts
  pub sorted : in_order previous (map span ts) ≡ true
  pub grows : cursor ≤ end

cursor-IsNext :
    (cursor size next : ℕ)
    → 0 < cursor
    → ltb (u64_max - size) cursor ≡ false
    → align_u64_checked (cursor + size) align_bytes ≡ some next
    → IsNext (cursor + size) align_bytes next
cursor-IsNext cursor size next pos room e =
    let word : IsU64 (cursor + size) = ground (arith, pos, room) in
    align_u64_checked-IsNext (cursor + size) align_bytes word (omega arith) (omega arith) next e

lay_out-IsLaid :
    (quant low previous cursor : ℕ) (gts : List Info) (ts : List Tensor) (end : ℕ)
    → 0 < cursor
    → cursor % align_bytes ≡ 0
    → low ≤ cursor
    → previous ≤ cursor
    → lay_out quant cursor gts ≡ some (ts, end)
    → IsLaid low previous cursor ts end
unfolding lay_out in_order
lay_out-IsLaid quant low previous cursor [] ts end pos aligned above after e =
    let same = some-injective ([], cursor) (ts, end) e in
    subst (λ (x : List Tensor × ℕ). IsLaid low previous cursor x.0 x.1) same
      (record { between = tt; sorted = refl; grows = omega arith })
lay_out-IsLaid quant low previous cursor (gt ∷ gts) ts end pos aligned above after e =
    elim (Bool-cases (ltb (u64_max - gt.byte_size) cursor)) [
      | inl full ↦ absurd (none-ne-some (ts, end) (sym (rw (full, lay_out) refl) ∙ e))
      | inr room ↦ elim (Option-cases (align_u64_checked (cursor + gt.byte_size) align_bytes)) [
        | inl bad ↦ absurd (none-ne-some (ts, end) (sym (rw (room, bad, lay_out) refl) ∙ e))
        | inr (next, e1) ↦ elim (Option-cases (lay_out quant next gts)) [
          | inl bad ↦ absurd (none-ne-some (ts, end) (sym (rw (room, e1, bad, lay_out) refl) ∙ e))
          | inr ((rest, last), e2) ↦
              let n = cursor-IsNext cursor gt.byte_size next pos room e1 in
              let t = entry_at quant cursor gt in
              let same =
                some-injective (t ∷ rest, last) (ts, end)
                  (sym (rw (room, e1, e2, lay_out) refl) ∙ e) in
              let more =
                lay_out-IsLaid quant low (cursor + gt.byte_size) next gts rest last
                  (omega (arith, pos, n.above)) n.multiple (omega (arith, above, n.above)) n.above
                  e2 in
              let first : not (ltb cursor previous) ≡ true = ground (arith, after) in
              let grown = more.grows in
              let whole : IsLaid low previous cursor (t ∷ rest) last = record {
                between = (
                  record {
                    after = above;
                    aligned = aligned;
                    before = omega (arith, n.above, grown);
                  },
                  more.between,
                );
                sorted =
                    ap (λ b. b && in_order (cursor + gt.byte_size) (map span rest)) first
                    ∙ more.sorted;
                grows = omega (arith, n.above, grown);
              } in
              subst (λ (x : List Tensor × ℕ). IsLaid low previous cursor x.0 x.1) same whole
        ]
      ]
    ]

lay_out-HasTraits :
    (quant cursor : ℕ) (gts : List Info) (ts : List Tensor) (end : ℕ)
    → lay_out quant cursor gts ≡ some (ts, end)
    → All HasTraits ts
unfolding lay_out
lay_out-HasTraits quant cursor [] ts end e =
    subst (λ (x : List Tensor × ℕ). All HasTraits x.0) (some-injective ([], cursor) (ts, end) e) tt
lay_out-HasTraits quant cursor (gt ∷ gts) ts end e =
    elim (Bool-cases (ltb (u64_max - gt.byte_size) cursor)) [
      | inl full ↦ absurd (none-ne-some (ts, end) (sym (rw (full, lay_out) refl) ∙ e))
      | inr room ↦ elim (Option-cases (align_u64_checked (cursor + gt.byte_size) align_bytes)) [
        | inl bad ↦ absurd (none-ne-some (ts, end) (sym (rw (room, bad, lay_out) refl) ∙ e))
        | inr (next, e1) ↦ elim (Option-cases (lay_out quant next gts)) [
          | inl bad ↦ absurd (none-ne-some (ts, end) (sym (rw (room, e1, bad, lay_out) refl) ∙ e))
          | inr ((rest, last), e2) ↦
              let same =
                some-injective (entry_at quant cursor gt ∷ rest, last) (ts, end)
                  (sym (rw (room, e1, e2, lay_out) refl) ∙ e) in
              subst (λ (x : List Tensor × ℕ). All HasTraits x.0) same
                (
                  traits_of quant cursor gt gt.ggml_type,
                  lay_out-HasTraits quant next gts rest last e2,
                )
        ]
      ]
    ]

planned : Result Error (Header × List Tensor) → Bool
planned (ok r) = true
planned (err x) = false

no_plan : (x : Error) (r : Header × List Tensor) → err x ≡ ok r → ⊥
unfolding planned
no_plan x r e = ground (arith, ap planned e)

-- What a layout has that is opened again.
pub record IsAccepted (h : Header) (ts : List Tensor) : Type 0 where
  pub header : check_header h h.file_size ≡ none
  pub between : All (IsBetween h.data_offset h.file_size) ts
  pub sorted : in_order h.data_offset (map span ts) ≡ true
  pub traits : All HasTraits ts

plan_or : Header × List Tensor → Result Error (Header × List Tensor) → Header × List Tensor
plan_or d (ok r) = r
plan_or d (err x) = d

plan_injective :
    (a b : Header × List Tensor)
    → ◌≡◌ {A = Result Error (Header × List Tensor)} (ok a) (ok b)
    → a ≡ b
unfolding plan_or
plan_injective a b e = ap (plan_or a) e

abbrev laid_header : ℕ → ℕ → ℕ → Header
laid_header count data_offset end = record {
  header_size = header_struct_size;
  dir_entry_size = entry_struct_size;
  tensor_count = count;
  dir_offset = 4096;
  data_offset = data_offset;
  file_size = end;
}

laid_header-check_header :
    (count data_offset end : ℕ)
    → 0 < count
    → count ≤ u32_max
    → 4096 + count * 208 ≤ data_offset
    → data_offset % align_bytes ≡ 0
    → data_offset ≤ end
    → check_header (laid_header count data_offset end) end ≡ none
unfolding check_header
laid_header-check_header count data_offset end some_tensors few above aligned grows =
    ground (arith, some_tensors, few, above, aligned, grows)

laid-IsAccepted :
    (quant count data_offset end : ℕ) (gts : List Info) (us : List Tensor)
    → 0 < count
    → count ≤ u32_max
    → align_u64_checked (4096 + mul64 count entry_struct_size) align_bytes ≡ some data_offset
    → lay_out quant data_offset gts ≡ some (us, end)
    → IsAccepted (laid_header count data_offset end) us
laid-IsAccepted quant count data_offset end gts us some_tensors few e1 e2 =
    let bytes : mul64 count entry_struct_size ≡ count * 208 = omega (arith, few) in
    let word : IsU64 (4096 + mul64 count entry_struct_size) = omega (arith, few, bytes) in
    let n =
      align_u64_checked-IsNext (4096 + mul64 count entry_struct_size) align_bytes word (omega arith)
        (omega arith) data_offset e1 in
    let laid =
      lay_out-IsLaid quant data_offset data_offset data_offset gts us end (omega (arith, n.above))
        n.multiple (omega arith) (omega arith) e2 in
    record {
      header =
          laid_header-check_header count data_offset end some_tensors few
            (omega (arith, n.above, bytes)) n.multiple laid.grows;
      between = laid.between;
      sorted = laid.sorted;
      traits = lay_out-HasTraits quant data_offset gts us end e2;
    }

-- A layout that is made passes the reader's checks on the header; its tensors are aligned, behind
-- the data offset, inside the file, and in order without overlap, and each one of a type whose
-- blocks the reader knows has the traits that it asks for.
pub plan_copy-IsAccepted :
    (quant : ℕ) (gts : List Info) (h : Header) (ts : List Tensor)
    → plan_copy quant gts ≡ ok (h, ts)
    → IsAccepted h ts
unfolding plan_copy
plan_copy-IsAccepted quant gts h ts e = elim (Bool-cases (length gts == 0)) [
  | inl bad ↦ absurd (no_plan empty_directory (h, ts) (sym (rw (bad, plan_copy) refl) ∙ e))
  | inr some_tensors ↦ elim (Bool-cases (ltb u32_max (length gts))) [
    | inl bad ↦
        absurd (no_plan too_many_tensors (h, ts) (sym (rw (some_tensors, bad, plan_copy) refl) ∙ e))
    | inr few ↦
        let directory_bytes = mul64 (length gts) entry_struct_size in
        elim (Bool-cases (ltb (u64_max - directory_bytes) 4096)) [
          | inl bad ↦ absurd (
              no_plan layout_overflow (h, ts)
                (sym (rw (some_tensors, few, bad, plan_copy) refl) ∙ e))
          | inr room ↦
              elim (Option-cases (align_u64_checked (4096 + directory_bytes) align_bytes)) [
                | inl bad ↦ absurd (
                    no_plan layout_overflow (h, ts)
                      (sym (rw (some_tensors, few, room, bad, plan_copy) refl) ∙ e))
                | inr (data_offset, e1) ↦ elim (Option-cases (lay_out quant data_offset gts)) [
                  | inl bad ↦ absurd (
                      no_plan tensor_layout_overflow (h, ts)
                        (sym (rw (some_tensors, few, room, e1, bad, plan_copy) refl) ∙ e))
                  | inr ((us, end), e2) ↦
                      let done : plan_copy quant gts
                          ≡ ok (laid_header (length gts) data_offset end, us) =
                        rw (some_tensors, few, room, e1, e2, plan_copy) refl in
                      let same =
                        plan_injective (laid_header (length gts) data_offset end, us) (h, ts)
                          (sym done ∙ e) in
                      subst (λ (x : Header × List Tensor). IsAccepted x.0 x.1) same
                        (laid-IsAccepted quant (length gts) data_offset end gts us
                          (ground (arith, some_tensors)) (ground (arith, few)) e1 e2)
                ]
              ]
        ]
  ]
]
