-- ===== src/Gguf/Sizes.antt =====
-- src/qx_gguf.c: the sizes that the loop over the sorted places gives.
use mathlib.Core.List.{
  Pairwise, Mem, mem-cons_self, mem-cons_of_mem, not-mem-nil, eq-or-mem_of_mem-cons,
}
use mathlib.Core.Logic.Or
use mathlib.Core.Option.{some-injective, none-ne-some}
use native.Mathlib.Bridge.{le_prop}
use mathlib.Core.Path.{subst}
use qx_mini_c.Gguf.{Info}
use qx_mini_c.Gguf.Table.{Place, no_info, next_offset, give_sizes}
use qx_mini_c.Prelude.{
  ℕ, ◌+◌, ◌-◌, ◌≤◌, ◌<◌, ◌≡◌, ◌≢◌, sym, ap, ◌∙◌, true, false, List, [], ◌∷◌, none, some, ltb, ◌==◌,
  if◌then◌else◌, length, get_or, set, get_or-set, length-set, arith, Bool-cases, inl, inr,
}

abbrev pub at : List Info → ℕ → Info
at ts i = get_or ts i no_info

-- The size of the tensor at a place is the distance to the next place; the places have their tensors' offsets.
abbrev pub Sized : ℕ → List Info → List Place → Type 0
Sized end ts [] = Unit
Sized end ts (p ∷ ps) =
    ((at ts p.index).offset ≡ p.offset)
    × ((p.offset + (at ts p.index).byte_size ≡ next_offset ps end) × Sized end ts ps)

abbrev pub IsPlaceOf : List Info → Place → Type 0
IsPlaceOf ts p = (p.index < length ts) × ((at ts p.index).offset ≡ p.offset)

abbrev pub IsDistinct : Place → Place → Type 0
IsDistinct p q = p.index ≢ q.index

-- What the loop has done: the sizes are those of the places, the other tensors are as they were.
pub record HasSized (end : ℕ) (ts us : List Info) (ps : List Place) : Type 0 where
  pub size : length us ≡ length ts
  pub others : (i : ℕ) → ((q : Place) → Mem q ps → q.index ≢ i) → i < length ts → at us i ≡ at ts i
  pub sized : Sized end us ps

abbrev sized_at : ℕ → List Info → Place → List Place → List Info
sized_at end ts p ps =
    let t = at ts p.index in set ts p.index (record t { byte_size = next_offset ps end - t.offset })

offset_kept :
    (end : ℕ) (ts : List Info) (p : Place) (ps : List Place) (j : ℕ)
    → j < length ts
    → (at (sized_at end ts p ps) j).offset ≡ (at ts j).offset
offset_kept end ts p ps j h =
    let t = at ts p.index in
    let put : Info = record t { byte_size = next_offset ps end - t.offset } in
    ap (λ (x : Info). x.offset) (get_or-set ts p.index j put no_info h)
    ∙ (elim (Bool-cases (p.index == j)) [
      | inl eq ↦
          let same : p.index ≡ j = ground (arith, eq) in
          ap (λ b. (if b then put else at ts j).offset) eq ∙ ap (λ k. (at ts k).offset) same
      | inr ne ↦ ap (λ b. (if b then put else at ts j).offset) ne
    ])

test_self : (i : ℕ) → (i == i) ≡ true
test_self i = ground arith

test_other : (i j : ℕ) → i ≢ j → (i == j) ≡ false
test_other i j h = ground (arith, h)

pub give_sizes-HasSized :
    (end : ℕ) (ts us : List Info) (ps : List Place)
    → give_sizes end ts ps ≡ some us
    → Pairwise IsDistinct ps
    → ((q : Place) → Mem q ps → IsPlaceOf ts q)
    → HasSized end ts us ps
unfolding give_sizes
give_sizes-HasSized end ts us [] e distinct place =
    let same = some-injective ts us e in
    record {
      size = ap length (sym same);
      others = λ i free h. ap (λ xs. at xs i) (sym same);
      sized = tt;
    }
give_sizes-HasSized end ts us (p ∷ ps) e (Pairwise.cons here distinct) place =
    elim (Bool-cases (ltb (next_offset ps end) (at ts p.index).offset)) [
      | inl bad ↦ absurd (
          none-ne-some us
            (sym (ap (λ b. if b then none else give_sizes end (sized_at end ts p ps) ps) bad) ∙ e))
      | inr good ↦
          let i = p.index in
          let t = at ts i in
          let put : Info = record t { byte_size = next_offset ps end - t.offset } in
          let ts1 = sized_at end ts p ps in
          let next : give_sizes end ts1 ps ≡ some us =
            sym (ap (λ b. if b then none else give_sizes end ts1 ps) good) ∙ e in
          let place1 : (q : Place) → Mem q ps → IsPlaceOf ts1 q = λ q m.
            let (inside, off) = place q (mem-cons_of_mem p m) in
            (
              omega (arith, inside, length-set ts i put),
              offset_kept end ts p ps q.index inside ∙ off,
            ) in
          let rest = give_sizes-HasSized end ts1 us ps next distinct place1 in
          let (inside, off) = place p mem-cons_self in
          let free : (q : Place) → Mem q ps → q.index ≢ i = λ q m eq. here q m (sym eq) in
          let there : at us i ≡ put =
            rest.others i free (omega (arith, inside, length-set ts i put))
            ∙ get_or-set ts i i put no_info inside
            ∙ ap (λ b. if b then put else t) (test_self i) in
          let size : (at us i).byte_size ≡ next_offset ps end - t.offset =
            ap (λ (x : Info). x.byte_size) there in
          let enough : t.offset ≤ next_offset ps end = ground (arith, good) in
          record {
            size = rest.size ∙ length-set ts i put;
            others = λ j unused h.
                rest.others j (λ q m. unused q (mem-cons_of_mem p m))
                  (omega (arith, h, length-set ts i put))
                ∙ get_or-set ts i j put no_info h
                ∙ ap (λ b. if b then put else at ts j) (test_other i j (unused p mem-cons_self));
            sized = (
              ap (λ (x : Info). x.offset) there ∙ off,
              (omega (arith, size, enough, off), rest.sized),
            );
          }
    ]

ap_le : (p q : Place) → q ≡ p → p.offset ≤ q.offset
ap_le p q same = omega (arith, ap (λ (x : Place). x.offset) same)

-- The places are in order and end with the file.
pub next_below :
    (end : ℕ) (us : List Info) (ps : List Place)
    → Sized end us ps
    → (next_offset ps end ≤ end) × ((q : Place) → Mem q ps → next_offset ps end ≤ q.offset)
next_below end us [] h = (omega arith, λ q m. absurd (not-mem-nil m))
next_below end us (p ∷ ps) (off, (size, h)) =
    let (below, before) = next_below end us ps h in
    (
      omega (arith, size, below),
      λ q m.
          Or.elim le_prop (eq-or-mem_of_mem-cons m) (λ same. ap_le p q same)
            (λ later. omega (arith, size, before q later)),
    )

-- Two tensors of a table have no byte in common.
abbrev pub IsApart : Info → Info → Type 0
IsApart a b = ¬ ((a.offset < b.offset + b.byte_size) × (b.offset < a.offset + a.byte_size))

-- The offset of the tensor at a place, from both sides.
Sized-offset :
    (end : ℕ) (us : List Info) (ps : List Place)
    → Sized end us ps
    → (q : Place) → Mem q ps
    → (at us q.index).offset ≤ q.offset
Sized-offset end us [] h q m = absurd (not-mem-nil m)
Sized-offset end us (p ∷ ps) (off, (size, h)) q m =
    Or.elim le_prop (eq-or-mem_of_mem-cons m)
      (λ same.
        subst (λ (x : Place). (at us x.index).offset ≤ x.offset) (sym same) (omega (arith, off)))
      (λ later. Sized-offset end us ps h q later)

offset-Sized :
    (end : ℕ) (us : List Info) (ps : List Place)
    → Sized end us ps
    → (q : Place) → Mem q ps
    → q.offset ≤ (at us q.index).offset
offset-Sized end us [] h q m = absurd (not-mem-nil m)
offset-Sized end us (p ∷ ps) (off, (size, h)) q m =
    Or.elim le_prop (eq-or-mem_of_mem-cons m)
      (λ same.
        subst (λ (x : Place). x.offset ≤ (at us x.index).offset) (sym same) (omega (arith, off)))
      (λ later. offset-Sized end us ps h q later)

pub Sized-Pairwise :
    (end : ℕ) (us : List Info) (ps : List Place)
    → Sized end us ps
    → Pairwise (λ (p q : Place). IsApart (at us p.index) (at us q.index)) ps
Sized-Pairwise end us [] h = Pairwise.nil
Sized-Pairwise end us (p ∷ ps) (off, (size, h)) =
    Pairwise.cons
      (λ q m.
        let (below, before) = next_below end us ps h in
        let after = before q m in
        let there = offset-Sized end us ps h q m in
        λ (low, high). omega (arith, off, size, after, there, high))
      (Sized-Pairwise end us ps h)

pub Sized-inside :
    (end : ℕ) (us : List Info) (ps : List Place)
    → Sized end us ps
    → (q : Place) → Mem q ps
    → (at us q.index).offset + (at us q.index).byte_size ≤ end
Sized-inside end us [] h q m = absurd (not-mem-nil m)
Sized-inside end us (p ∷ ps) (off, (size, h)) q m =
    let (below, before) = next_below end us ps h in
    Or.elim le_prop (eq-or-mem_of_mem-cons m)
      (λ same.
        subst (λ (x : Place). (at us x.index).offset + (at us x.index).byte_size ≤ end) (sym same)
          (omega (arith, off, size, below)))
      (λ later. Sized-inside end us ps h q later)
