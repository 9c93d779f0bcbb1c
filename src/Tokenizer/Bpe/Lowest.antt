-- ===== src/Tokenizer/Bpe/Lowest.antt =====
-- src/qx_tokenizer.c: the pair that a round of qx_tok_bpe_chunk merges: leftmost, of lowest rank.
use qx_mini_c.Prelude.{
  ℕ, zero, suc, ◌+◌, ◌≤◌, ◌<◌, ◌≡◌, sym, ap, ◌∙◌, Option, none, some, List, [], ◌∷◌, arith, length,
  inl, inr, ◌⊎◌, u32_max,
}
use qx_mini_c.Tokenizer.Bpe.{Best, merge_at}

abbrev pub AtLeast : ℕ → Option ℕ → Type 0
AtLeast r none = Unit {0}
AtLeast r (some x) = r ≤ x

abbrev pub Above : ℕ → Option ℕ → Type 0
Above r none = Unit {0}
Above r (some x) = r < x

AtLeast-le : (r r' : ℕ) (o : Option ℕ) → r' ≤ r → AtLeast r o → AtLeast r' o
AtLeast-le r r' none le h = tt
AtLeast-le r r' (some x) le h = omega (arith, le, h)

AtLeast-Above : (r r' : ℕ) (o : Option ℕ) → r' < r → AtLeast r o → Above r' o
AtLeast-Above r r' none lt h = tt
AtLeast-Above r r' (some x) lt h = omega (arith, lt, h)

module _ (answer : List ℕ → List ℕ → Option ℕ) where
  -- The rank of the merge of the pair at a place, if there is one.
  abbrev pub rank_at : List (List ℕ) → ℕ → Option ℕ
  rank_at [] i = none
  rank_at (a ∷ []) i = none
  rank_at (a ∷ b ∷ rest) zero = answer a b
  rank_at (a ∷ b ∷ rest) (suc i) = rank_at (b ∷ rest) i

  -- The pair at `i` has the lowest rank, and the pairs before it have higher ones.
  pub record IsLowest (ss : List (List ℕ)) (i rank : ℕ) : Type 0 where
    pub inside : i + 1 < length ss
    pub here : rank_at ss i ≡ some rank
    pub lowest : (k : ℕ) → AtLeast rank (rank_at ss k)
    pub leftmost : (k : ℕ) → k < i → Above rank (rank_at ss k)

  -- A scan of the pairs from `i` on keeps what it started with, or finds the lowest.
  unfoldable pub Scanned : ℕ → List (List ℕ) → Best → Best → Type 0
  Scanned i ss start best =
      ((best.index ≡ start.index)
        × (best.rank ≡ start.rank)
        × ((k : ℕ) → AtLeast start.rank (rank_at ss k)))
      ⊎ ((j : ℕ) × (best.index ≡ i + j) × (best.rank < start.rank) × IsLowest ss j best.rank)

  -- One more pair in front.
  module _ (i : ℕ) (a b : List ℕ) (rest : List (List ℕ)) (start best : Best) where
    all_pairs :
        (P : Option ℕ → Type 0)
        → P (answer a b)
        → ((k : ℕ) → P (rank_at (b ∷ rest) k))
        → (k : ℕ) → P (rank_at (a ∷ b ∷ rest) k)
    all_pairs P h hs zero = h
    all_pairs P h hs (suc k) = hs k

    pairs_before :
        (P : Option ℕ → Type 0) (j : ℕ)
        → P (answer a b)
        → ((k : ℕ) → k < j → P (rank_at (b ∷ rest) k))
        → (k : ℕ) → k < suc j
        → P (rank_at (a ∷ b ∷ rest) k)
    pairs_before P j h hs zero lt = h
    pairs_before P j h hs (suc k) lt = hs k (omega (arith, lt))

    later_pair :
        AtLeast best.rank (answer a b)
        → Above best.rank (answer a b)
        → best.rank < start.rank
        → (j : ℕ) → best.index ≡ suc i + j
        → IsLowest (b ∷ rest) j best.rank
        → Scanned i (a ∷ b ∷ rest) start best
    unfolding Scanned
    later_pair least above lt j e l = inr (
      suc j,
      omega (arith, e),
      lt,
      record {
        inside = omega (arith, l.inside);
        here = l.here;
        lowest = all_pairs (AtLeast best.rank) least l.lowest;
        leftmost = pairs_before (Above best.rank) j above l.leftmost;
      },
    )

    -- A pair that takes no part: it has no merge, or a rank not below the one known.
    pub passed_pair :
        (start' : Best)
        → start'.rank ≡ start.rank
        → start'.index ≡ start.index
        → AtLeast start.rank (answer a b)
        → Scanned (suc i) (b ∷ rest) start' best
        → Scanned i (a ∷ b ∷ rest) start best
    unfolding Scanned
    passed_pair start' er ei least (inl (index, rank, all)) =
        let all' : (k : ℕ) → AtLeast start.rank (rank_at (b ∷ rest) k) = rw er at all in
        inl (index ∙ ei, rank ∙ er, all_pairs (AtLeast start.rank) least all')
    passed_pair start' er ei least (inr (j, e, lt, l)) =
        let lt' : best.rank < start.rank = omega (arith, lt, er) in
        later_pair (AtLeast-le start.rank best.rank (answer a b) (omega (arith, lt')) least)
          (AtLeast-Above start.rank best.rank (answer a b) lt' least) lt' j e l

    -- A pair with a rank below the one known.
    pub taken_pair :
        (start' : Best) (r : ℕ)
        → answer a b ≡ some r
        → r < start.rank
        → start'.rank ≡ r
        → start'.index ≡ i
        → Scanned (suc i) (b ∷ rest) start' best
        → Scanned i (a ∷ b ∷ rest) start best
    unfolding Scanned
    taken_pair start' r e lt er ei (inl (index, rank, all)) =
        let same : best.rank ≡ r = rank ∙ er in
        let all' : (k : ℕ) → AtLeast best.rank (rank_at (b ∷ rest) k) = rw (← rank) at all in
        inr (
          0,
          omega (arith, index, ei),
          omega (arith, same, lt),
          record {
            inside = omega arith;
            here = e ∙ ap some (sym same);
            lowest = all_pairs (AtLeast best.rank) (rw e (omega (arith, same))) all';
            leftmost = λ k none_before. absurd (omega (arith, none_before));
          },
        )
    taken_pair start' r e lt er ei (inr (j, ej, lower, l)) =
        later_pair (rw e (omega (arith, er, lower))) (rw e (omega (arith, er, lower)))
          (omega (arith, lower, er, lt)) j ej l

  -- The merges that lead from some symbols to others: each is that of the leftmost pair of lowest
  -- rank, until no pair has a merge.
  pub data Merged : List (List ℕ) → List (List ℕ) → Type 0 where
    settled : {ss : List (List ℕ)} → ((k : ℕ) → rank_at ss k ≡ none) → Merged ss ss
    merge :
        {ss ss' : List (List ℕ)} (i r : ℕ)
        → IsLowest ss i r
        → Merged (merge_at i ss) ss'
        → Merged ss ss'

  pub rank_at_small :
      ((a b : List ℕ) (r : ℕ) → answer a b ≡ some r → r < u32_max)
      → (ss : List (List ℕ)) (k r : ℕ) → rank_at ss k ≡ some r
      → r < u32_max
  rank_at_small small [] k r h = ground (arith, h)
  rank_at_small small (a ∷ []) k r h = ground (arith, h)
  rank_at_small small (a ∷ b ∷ rest) zero r h = small a b r h
  rank_at_small small (a ∷ b ∷ rest) (suc k) r h = rank_at_small small (b ∷ rest) k r h
