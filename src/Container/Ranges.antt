-- ===== src/Container/Ranges.antt =====
-- src/qx_format.c: the loop over the sorted spans, as a check that no two of them overlap.
use mathlib.Core.List.{
  Pairwise, Mem, mem-cons_self, mem-cons_of_mem, Perm, not-mem-nil, eq-or-mem_of_mem-cons,
}
use mathlib.Core.List.Perm
use mathlib.Core.Path.{subst}
use mathlib.Core.Logic.Or
use mathlib.Core.HLevel.{¬_prop}
use native.Mathlib.Bridge.{le_prop}
use qx_mini_c.Prelude.{ℕ, ◌≤◌, ◌<◌, ◌≡◌, sym, List, [], ◌∷◌, true, arith, All}
use qx_mini_c.Container.{Span}
use qx_mini_c.Container.Directory.{in_order}

pub All-Mem {ℓ κ} :
    {A : Type ℓ} (P : A → Type κ) (xs : List A)
    → ((a : A) → IsProp (P a))
    → All P xs
    → (b : A) → Mem b xs
    → P b
All-Mem P [] p all b m = absurd (not-mem-nil m)
All-Mem P (x ∷ xs) p all b m =
    Or.elim (p b) (eq-or-mem_of_mem-cons m) (λ e. subst P (sym e) all.0) (All-Mem P xs p all.1 b)

All-of_Mem {ℓ κ} :
    {A : Type ℓ} (P : A → Type κ) (xs : List A) → ((b : A) → Mem b xs → P b) → All P xs
All-of_Mem P [] h = tt
All-of_Mem P (x ∷ xs) h = (h x mem-cons_self, All-of_Mem P xs (λ b m. h b (mem-cons_of_mem x m)))

-- Two ranges have no byte in common.
abbrev pub IsApart : Span → Span → Type 0
IsApart a b = ¬ ((a.offset < b.end) × (b.offset < a.end))

abbrev pub IsForward : Span → Type 0
IsForward s = s.offset ≤ s.end

-- Each span starts at or after a `low` that is not above `start`.
in_order_above :
    (low start : ℕ) (ss : List Span)
    → low ≤ start
    → All IsForward ss
    → in_order start ss ≡ true
    → All (λ b. low ≤ b.offset) ss
unfolding in_order
in_order_above low start [] le f h = tt
in_order_above low start (s ∷ ss) le f h =
    let here : low ≤ s.offset = ground (arith, h, le) in
    let tail : in_order s.end ss ≡ true = ground (arith, h) in
    (here, in_order_above low s.end ss (omega (arith, f.0, here)) f.1 tail)

pub in_order-Pairwise :
    (start : ℕ) (ss : List Span) → All IsForward ss → in_order start ss ≡ true → Pairwise IsApart ss
unfolding in_order
in_order-Pairwise start [] f h = Pairwise.nil
in_order-Pairwise start (s ∷ ss) f h =
    let above = in_order_above s.end s.end ss (omega arith) f.1 (ground (arith, h)) in
    Pairwise.cons
      (λ b m.
        let after = All-Mem (λ r. s.end ≤ r.offset) ss (λ r. le_prop) above b m in
        λ (low, high). omega (arith, after, high))
      (in_order-Pairwise s.end ss f.1 (ground (arith, h)))

-- A permutation of spans that passes the check: none of the spans themselves overlap.
pub Perm-Pairwise : (xs ys : List Span) → Perm ys xs → Pairwise IsApart ys → Pairwise IsApart xs
Perm-Pairwise xs ys p h = Perm.pairwise {R = IsApart} (λ a b. ¬_prop) (λ a b r (x, y). r (y, x)) p h

pub All-Perm {ℓ κ} :
    {A : Type ℓ} (P : A → Type κ) (xs ys : List A)
    → ((a : A) → IsProp (P a))
    → Perm xs ys
    → All P ys
    → All P xs
All-Perm P xs ys prop p all =
    All-of_Mem P xs (λ b m. All-Mem P ys prop all b ((Perm.mem_iff p).0 m))
