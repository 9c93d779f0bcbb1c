-- ===== src/Tokenizer/Bpe/Pieces.antt =====
-- src/qx_tokenizer.c: the bytes that the symbols of qx_tok_bpe_chunk spell, and those of the tokens
-- that it writes.
use mathlib.Core.Path.{ap₂}
use mathlib.Core.List.{append_assoc, append-nil}
use qx_mini_c.Prelude.{
  ℕ, zero, suc, ◌≡◌, refl, sym, ap, ◌∙◌, List, [], ◌∷◌, ◌++◌, map, Option, ◌==◌, arith, flatten,
  u32_max, Bool-cases, inl, inr,
}
use qx_mini_c.Prelude.Results.{Result, ok, Result-cases}
use qx_mini_c.Tokenizer.{Error}
use qx_mini_c.Tokenizer.Bytes.{byte_codepoint, write_utf8, byte_text}
use qx_mini_c.Tokenizer.Bpe.{scan_pairs, merge_at, merge_loop, byte_symbols}

byte_text-append : (p q : List ℕ) → byte_text (p ++ q) ≡ byte_text p ++ byte_text q
byte_text-append [] q = refl
byte_text-append (b ∷ p) q =
    ap (λ (t : List ℕ). write_utf8 (byte_codepoint b) ++ t) (byte_text-append p q)
    ∙ sym (append_assoc (write_utf8 (byte_codepoint b)) (byte_text p) (byte_text q))

merge_at-flatten : (i : ℕ) (ps : List (List ℕ)) → flatten (merge_at i ps) ≡ flatten ps
unfolding merge_at
merge_at-flatten i [] = refl
merge_at-flatten zero (p ∷ []) = refl
merge_at-flatten zero (p ∷ q ∷ ps) = append_assoc p q (flatten ps)
merge_at-flatten (suc i) (p ∷ ps) = ap (λ (t : List ℕ). p ++ t) (merge_at-flatten i ps)

merge_at-map :
    (i : ℕ) (ps : List (List ℕ)) → merge_at i (map byte_text ps) ≡ map byte_text (merge_at i ps)
unfolding merge_at
merge_at-map i [] = refl
merge_at-map zero (p ∷ []) = refl
merge_at-map zero (p ∷ q ∷ ps) =
    ap (λ (t : List ℕ). t ∷ map byte_text ps) (sym (byte_text-append p q))
merge_at-map (suc i) (p ∷ ps) = ap (◌∷◌ (byte_text p)) (merge_at-map i ps)

-- The rounds only join symbols: what is left spells the same bytes, in pieces.
pub merge_loop_pieces :
    (lookup : List ℕ → List ℕ → Result Error (Option ℕ)) (limit fuel work : ℕ) (ps : List (List ℕ))
    (ss' : List (List ℕ))
    → merge_loop lookup limit fuel work (map byte_text ps) ≡ ok ss'
    → (ps' : List (List ℕ)) × (ss' ≡ map byte_text ps') × (flatten ps' ≡ flatten ps)
unfolding merge_loop
merge_loop_pieces lookup limit zero work ps ss' h = ground (arith, h)
merge_loop_pieces lookup limit (suc fuel) work ps ss' h =
    elim (Result-cases (
      scan_pairs lookup limit 0 (map byte_text ps)
        (record { rank = u32_max; index = u32_max; work = work }))) [
          | inl (e, bad) ↦ ground (arith, h, bad)
          | inr (best, ran) ↦ elim (Bool-cases (best.index == u32_max)) [
            | inl stop ↦ (ps, sym (ground (arith, h, ran, stop)), refl)
            | inr go ↦
                let next : merge_loop lookup limit fuel best.work
                      (map byte_text (merge_at best.index ps))
                    ≡ ok ss' =
                  rw (← merge_at-map best.index ps) (ground (arith, h, ran, go)) in
                let (ps', same, whole) =
                  merge_loop_pieces lookup limit fuel best.work (merge_at best.index ps) ss' next in
                (ps', same, whole ∙ merge_at-flatten best.index ps)
          ]
        ]

pub singles : List ℕ → List (List ℕ)
singles [] = []
singles (b ∷ bs) = (b ∷ []) ∷ singles bs

pub singles-flatten : (bs : List ℕ) → flatten (singles bs) ≡ bs
unfolding singles
singles-flatten [] = refl
singles-flatten (b ∷ bs) = ap (◌∷◌ b) (singles-flatten bs)

pub byte_symbols-singles : (bs : List ℕ) → byte_symbols bs ≡ map byte_text (singles bs)
unfolding singles
byte_symbols-singles [] = refl
byte_symbols-singles (b ∷ bs) =
    ap₂ ◌∷◌ (sym (append-nil (write_utf8 (byte_codepoint b)))) (byte_symbols-singles bs)
