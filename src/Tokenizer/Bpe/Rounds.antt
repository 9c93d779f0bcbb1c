-- ===== src/Tokenizer/Bpe/Rounds.antt =====
-- src/qx_tokenizer.c: the rounds of qx_tok_bpe_chunk, and their work.
use native.Mathlib.Decide.{dec_lt}
use qx_mini_c.Prelude.{
  ℕ, zero, suc, ◌+◌, ◌-◌, ◌*◌, ◌≤◌, ◌<◌, ◌≡◌, true, false, refl, ap, ◌∙◌, Option, none, some, List,
  [], ◌∷◌, ltb, ◌==◌, if◌then◌else◌, arith, length, Option-cases, inl, inr, u32_max,
}
use qx_mini_c.Prelude.Results.{Result, ok}
use qx_mini_c.Tokenizer.{Error}
use qx_mini_c.Tokenizer.Bpe.Lowest.{
  Scanned, Merged, rank_at, rank_at_small, passed_pair, taken_pair, settled, merge, AtLeast,
}
use qx_mini_c.Tokenizer.Bpe.{Best, better, scan_pairs, merge_at, merge_loop, bpe_limit}

-- How many tests of a pair `n` symbols can take in all: n * (n - 1) / 2.
abbrev pub triangle : ℕ → ℕ
triangle zero = 0
triangle (suc n) = n + triangle n

merge_at-length :
    (i : ℕ) (ss : List (List ℕ)) → i + 1 < length ss → suc (length (merge_at i ss)) ≡ length ss
unfolding merge_at
merge_at-length i [] h = absurd (omega arith)
merge_at-length zero (a ∷ []) h = absurd (omega arith)
merge_at-length zero (a ∷ b ∷ rest) h = refl
merge_at-length (suc i) (a ∷ rest) h = omega (arith, merge_at-length i rest)

triangle_pairs : (n : ℕ) → triangle n ≡ (n - 1) + triangle (n - 1)
triangle_pairs zero = omega arith
triangle_pairs (suc n) = let same : suc n - 1 ≡ n = omega arith in rw same refl

module _ (lookup : List ℕ → List ℕ → Result Error (Option ℕ)) (answer : List ℕ → List ℕ → Option ℕ)
    (answers : (a b : List ℕ) → lookup a b ≡ ok (answer a b)) where
  scan_step :
      (limit i : ℕ) (a b : List ℕ) (rest : List (List ℕ)) (start : Best)
      → start.work + 1 ≤ limit
      → scan_pairs lookup limit i (a ∷ b ∷ rest) start
        ≡ scan_pairs lookup limit
            (suc i)
            (b ∷ rest)
            (record (better i (answer a b) start) { work = start.work + 1 })
  unfolding scan_pairs
  scan_step limit i a b rest start room =
      let within : ltb limit (start.work + 1) ≡ false = ground (arith, room) in
      rw (answers a b, within, scan_pairs) refl

  scan_pairs_total :
      (limit i : ℕ) (ss : List (List ℕ)) (start : Best)
      → start.work + (length ss - 1) ≤ limit
      → (best : Best) × (scan_pairs lookup limit i ss start ≡ ok best)
        × (best.work ≡ start.work + (length ss - 1))
        × Scanned answer i ss start best
  unfolding scan_pairs Scanned
  scan_pairs_total limit i [] start room = (start, refl, omega arith, inl (refl, refl, λ k. tt))
  scan_pairs_total limit i (a ∷ []) start room =
      (start, refl, omega arith, inl (refl, refl, λ k. tt))
  scan_pairs_total limit i (a ∷ b ∷ rest) start room =
      let start' : Best = record (better i (answer a b) start) { work = start.work + 1 } in
      let (best, ran, work, scanned) =
        scan_pairs_total limit (suc i) (b ∷ rest) start' (omega (arith, room)) in
      (
        best,
        scan_step limit i a b rest start (omega (arith, room)) ∙ ran,
        omega (arith, work),
        elim (Option-cases (answer a b)) [
          | inl nothing ↦
              passed_pair answer i a b rest start best start' (ground (arith, nothing))
                (ground (arith, nothing)) (rw nothing tt) scanned
          | inr (r, found) ↦ elim (dec_lt r start.rank) [
            | yes lower ↦
                taken_pair answer i a b rest start best start' r found lower
                  (ground (arith, found, lower)) (ground (arith, found, lower)) scanned
            | no higher ↦
                passed_pair answer i a b rest start best start' (ground (arith, found, higher))
                  (ground (arith, found, higher)) (rw found (omega (arith, higher))) scanned
          ]
        ],
      )

  module _ (limit fuel work : ℕ) (ss : List (List ℕ)) (best : Best)
      (ran : scan_pairs lookup limit 0 ss (record { rank = u32_max; index = u32_max; work = work })
        ≡ ok best) where
    merge_loop_step :
        (best.index == u32_max) ≡ false
        → merge_loop lookup limit (suc fuel) work ss
          ≡ merge_loop lookup limit fuel best.work (merge_at best.index ss)
    unfolding merge_loop
    merge_loop_step go = rw (ran, go, merge_loop) refl

    merge_loop_stop :
        (best.index == u32_max) ≡ true → merge_loop lookup limit (suc fuel) work ss ≡ ok ss
    unfolding merge_loop
    merge_loop_stop stop = rw (ran, stop, merge_loop) refl

  unsettled_pairs :
      ((a b : List ℕ) (r : ℕ) → answer a b ≡ some r → r < u32_max)
      → (ss : List (List ℕ)) → ((k : ℕ) → AtLeast u32_max (rank_at answer ss k))
      → (k : ℕ) → rank_at answer ss k ≡ none
  unsettled_pairs small ss all k = elim (Option-cases (rank_at answer ss k)) [
    | inl nothing ↦ nothing
    | inr (r, found) ↦
        let bound : AtLeast u32_max (some r) = rw found at (all k) in
        absurd (omega (arith, bound, rank_at_small answer small ss k r found))
  ]

  -- Where the ranks and the number of symbols are below UINT32_MAX, the fuel is more than the
  -- symbols and the limit leaves room for all their pairs: the rounds of qx_tok_bpe_chunk end
  -- without an error, and have merged each time the leftmost pair of lowest rank, until no pair has
  -- a merge.
  pub merge_loop-Merged :
      ((a b : List ℕ) (r : ℕ) → answer a b ≡ some r → r < u32_max)
      → (limit fuel work : ℕ) (ss : List (List ℕ)) → length ss < fuel
      → length ss < u32_max
      → work + triangle (length ss) ≤ limit
      → (ss' : List (List ℕ)) × (merge_loop lookup limit fuel work ss ≡ ok ss')
        × Merged answer ss ss'
  unfolding merge_loop Scanned
  merge_loop-Merged small limit zero work ss f u room = absurd (omega arith)
  merge_loop-Merged small limit (suc fuel) work ss f u room =
      let start : Best = record { rank = u32_max; index = u32_max; work = work } in
      let (best, ran, cost, scanned) =
        scan_pairs_total limit 0 ss start (omega (arith, room, triangle_pairs (length ss))) in
      elim scanned [
        | inl (index, rank, all) ↦
            let stop : (best.index == u32_max) ≡ true = ground (arith, index) in
            (
              ss,
              merge_loop_stop limit fuel work ss best ran stop,
              settled (unsettled_pairs small ss all),
            )
        | inr (j, index, lower, low) ↦
            let inside = low.inside in
            let same : best.index ≡ j = omega (arith, index) in
            let go : (best.index == u32_max) ≡ false = ground (arith, same, inside, u) in
            let size = merge_at-length j ss inside in
            let pairs = triangle_pairs (length ss) in
            let fewer : length ss - 1 ≡ length (merge_at j ss) = omega (arith, size) in
            let (ss', ran', merged) =
              merge_loop-Merged small limit fuel best.work (merge_at j ss) (omega (arith, f, size))
                (omega (arith, u, size)) (rw (← fewer) (omega (arith, room, cost, pairs))) in
            (
              ss',
              merge_loop_step limit fuel work ss best ran go
                  ∙ ap (λ (i : ℕ). merge_loop lookup limit fuel best.work (merge_at i ss)) same
                  ∙ ran',
              merge j best.rank low merged,
            )
      ]

triangle_double : (n : ℕ) → triangle n * 2 + n ≡ n * n
triangle_double zero = refl
triangle_double (suc n) = grind (arith, triangle_double n)

-- The limit on the work is enough for all the pairs of a chunk's symbols.
pub triangle_limit : (n : ℕ) → triangle n ≡ bpe_limit n
triangle_limit zero = refl
triangle_limit (suc n) =
    let double = triangle_double (suc n) in
    let value : suc n * n ≡ triangle (suc n) * 2 = grind (arith, double) in
    let same : (if suc n == 0 then 0 else suc n - 1) ≡ n = ground arith in
    rw (same, value) (omega arith)
