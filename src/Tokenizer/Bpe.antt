-- ===== src/Tokenizer/Bpe.antt =====
-- src/qx_tokenizer.c: qx_tok_bpe_chunk. A symbol is its bytes; running out of memory is not
-- modelled. `lookup` is qx_tok_find_merge on the merge index.
pub mod Lowest
pub mod Rounds
pub mod Pieces
use qx_mini_c.Prelude.{
  ℕ, zero, suc, ◌+◌, ◌-◌, ◌*◌, ◌/◌, not, List, [], ◌∷◌, ◌++◌, Option, none, some, map, ltb, ◌==◌,
  if◌then◌else◌, length, u32_max,
}
use qx_mini_c.Prelude.Results.{Result, ok, err}
use qx_mini_c.Tokenizer.{Tokenizer, Error, work_limit, missing_symbol, token_capacity, no_fuel}
use qx_mini_c.Tokenizer.Bytes.{byte_codepoint, write_utf8}
use qx_mini_c.Tokenizer.Index.{Index, find_token, find_merge}

-- `best_rank`, `best_index` and `work`; UINT32_MAX stands for no pair.
pub record Best : Type 0 where
  pub rank : ℕ
  pub index : ℕ
  pub work : ℕ

abbrev pub better : ℕ → Option ℕ → Best → Best
better i none best = best
better i (some rank) best =
    if ltb rank best.rank then record best { rank = rank; index = i } else best

-- The loop over the pairs of neighbours, from the pair `i` on.
unfoldable pub scan_pairs :
    (List ℕ → List ℕ → Result Error (Option ℕ)) → ℕ → ℕ → List (List ℕ) → Best → Result Error Best
scan_pairs lookup limit i [] best = ok best
scan_pairs lookup limit i (a ∷ []) best = ok best
scan_pairs lookup limit i (a ∷ b ∷ rest) best = elim (lookup a b) [
  | err e ↦ err e
  | ok rank ↦
      let more =
        scan_pairs lookup limit (suc i) (b ∷ rest)
          (record (better i rank best) { work = best.work + 1 }) in
      if ltb limit (best.work + 1) then err work_limit else more
]

-- The symbol at `i` takes in the one after it.
unfoldable pub merge_at : ℕ → List (List ℕ) → List (List ℕ)
merge_at i [] = []
merge_at zero (a ∷ []) = a ∷ []
merge_at zero (a ∷ b ∷ rest) = (a ++ b) ∷ rest
merge_at (suc i) (a ∷ rest) = a ∷ merge_at i rest

-- The `for (;;)`; each round but the last makes one symbol of two.
unfoldable pub merge_loop :
    (List ℕ → List ℕ → Result Error (Option ℕ))
    → ℕ
    → ℕ
    → ℕ
    → List (List ℕ)
    → Result Error (List (List ℕ))
merge_loop lookup limit zero work symbols = err no_fuel
merge_loop lookup limit (suc fuel) work symbols =
    elim (scan_pairs lookup limit 0 symbols
      (record { rank = u32_max; index = u32_max; work = work })) [
        | err e ↦ err e
        | ok best ↦
            let rest = merge_loop lookup limit fuel best.work (merge_at best.index symbols) in
            if best.index == u32_max then ok symbols else rest
      ]

-- The ids of the symbols that are left, after those written before.
unfoldable pub emit :
    (List ℕ → Result Error (Option ℕ)) → ℕ → List (List ℕ) → List ℕ → Result Error (List ℕ)
emit find capacity [] ids = ok ids
emit find capacity (s ∷ ss) ids = elim (find s) [
  | err e ↦ err e
  | ok none ↦ err missing_symbol
  | ok (some id) ↦
      let rest = emit find capacity ss (ids ++ id ∷ []) in
      if not (ltb (length ids) capacity) then err token_capacity else rest
]

abbrev pub byte_symbols : List ℕ → List (List ℕ)
byte_symbols chunk = map (λ b. write_utf8 (byte_codepoint b)) chunk

abbrev pub bpe_limit : ℕ → ℕ
bpe_limit n = n * (if n == 0 then 0 else n - 1) / 2

unfoldable pub bpe_chunk : Tokenizer → Index → Index → List ℕ → ℕ → List ℕ → Result Error (List ℕ)
unfolding scan_pairs merge_at merge_loop emit
bpe_chunk tok token_index merge_index chunk capacity ids =
    elim (merge_loop (find_merge tok.merges merge_index) (bpe_limit (length chunk))
      (length chunk + 1) 0 (byte_symbols chunk)) [
        | err e ↦ err e
        | ok symbols ↦ emit (find_token tok.tokens token_index) capacity symbols ids
      ]
