-- ===== src/Tokenizer/Index/Built.antt =====
-- src/qx_tokenizer.c: when qx_tok_build_token_index and qx_tok_build_merge_index fail.
use qx_mini_c.Prelude.Bytes.{same_text}
use qx_mini_c.Prelude.{
  ℕ, suc, ◌+◌, ◌^◌, ◌≤◌, ◌<◌, ◌≡◌, sym, ◌∙◌, List, [], ◌∷◌, ◌==◌, if◌then◌else◌, arith, length, inl,
  inr, ◌⊎◌,
}
use qx_mini_c.Prelude.Results.{err, Result-cases}
use qx_mini_c.Tokenizer.{Token, Merge, Error, duplicate_token, duplicate_merge, hash_size_overflow}
use qx_mini_c.Tokenizer.Index.{
  Index, fnv1a64, hash_pair, index_init, put, is_token, is_merge, add_tokens, add_merges,
  build_token_index, build_merge_index,
}
use qx_mini_c.Tokenizer.Index.Invariant.{put-IsIndexed, put_fails}
use qx_mini_c.Tokenizer.Index.Search.{
  token_test_iff, merge_test_iff, same_merge, merge_hash, TokenIndexed, MergeIndexed, StandsAt,
  stands_first, stands_rest, stands_all, index_init-IsIndexed, index_init_fails,
}

add_tokens_fails :
    (all : List Token) (n : ℕ) (ts : List Token) (index : Index) (e : Error)
    → StandsAt all n ts
    → n + length ts ≤ index.mask
    → TokenIndexed all n index
    → add_tokens all n ts index ≡ err e
    → e ≡ duplicate_token
unfolding add_tokens
add_tokens_fails all n [] index e from room inv h = ground (arith, h)
add_tokens_fails all n (t ∷ ts) index e from room inv h =
    elim (Result-cases (put duplicate_token (is_token all t.text) (fnv1a64 t.text) n index)) [
      | inl (e', bad) ↦
          let same : e' ≡ e = ground (arith, h, bad) in
          sym same
          ∙ put_fails (λ (t : Token). t.text) fnv1a64 (λ text t. same_text t.text text)
              token_test_iff all duplicate_token n t index e' inv (omega (arith, room)) bad
      | inr (mid, good) ↦
          let (inv', mask) =
            put-IsIndexed (λ (t : Token). t.text) fnv1a64 (λ text t. same_text t.text text)
              token_test_iff all duplicate_token n t index mid inv (stands_first all n t ts from)
              good in
          add_tokens_fails all (suc n) ts mid e (stands_rest all n t ts from)
            (omega (arith, room, mask)) inv' (ground (arith, h, good))
    ]

add_merges_fails :
    (all : List Merge) (n : ℕ) (ts : List Merge) (index : Index) (e : Error)
    → StandsAt all n ts
    → n + length ts ≤ index.mask
    → MergeIndexed all n index
    → add_merges all n ts index ≡ err e
    → e ≡ duplicate_merge
unfolding add_merges
add_merges_fails all n [] index e from room inv h = ground (arith, h)
add_merges_fails all n (t ∷ ts) index e from room inv h =
    elim (Result-cases
      (put duplicate_merge (is_merge all t.left t.right) (hash_pair t.left t.right) n index)) [
        | inl (e', bad) ↦
            let same : e' ≡ e = ground (arith, h, bad) in
            sym same
            ∙ put_fails (λ m. m) merge_hash same_merge merge_test_iff all duplicate_merge n t index
                e' inv (omega (arith, room)) bad
        | inr (mid, good) ↦
            let (inv', mask) =
              put-IsIndexed (λ m. m) merge_hash same_merge merge_test_iff all duplicate_merge n t
                index mid inv (stands_first all n t ts from) good in
            add_merges_fails all (suc n) ts mid e (stands_rest all n t ts from)
              (omega (arith, room, mask)) inv' (ground (arith, h, good))
      ]

-- With fewer than 2 ^ 31 tokens, an index of them is not built only if two have one text, or their
-- number is too large.
pub build_token_index_fails :
    (tokens : List Token) (e : Error)
    → length tokens < 2 ^ 31
    → build_token_index tokens ≡ err e
    → (e ≡ duplicate_token) ⊎ (e ≡ hash_size_overflow)
unfolding build_token_index
build_token_index_fails tokens e small h = elim (Result-cases (index_init (length tokens))) [
  | inl (e', bad) ↦
      let same : e' ≡ e = ground (arith, h, bad) in
      inr (sym same ∙ index_init_fails (length tokens) e' bad)
  | inr (start, good) ↦
      let (inv, room) =
        index_init-IsIndexed (λ (t : Token). t.text) fnv1a64 (λ text t. same_text t.text text)
          token_test_iff tokens (length tokens) start small good in
      inl (
        add_tokens_fails tokens 0 tokens start e (stands_all tokens) (omega (arith, room)) inv
          (ground (arith, h, good)))
]

pub build_merge_index_fails :
    (merges : List Merge) (e : Error)
    → length merges < 2 ^ 31
    → build_merge_index merges ≡ err e
    → (e ≡ duplicate_merge) ⊎ (e ≡ hash_size_overflow)
unfolding build_merge_index
build_merge_index_fails merges e small h =
    let count = if length merges == 0 then 1 else length merges in
    let count_small : count < 2 ^ 31 = ground (arith, small) in
    let count_ge : length merges ≤ count = ground arith in
    elim (Result-cases (index_init count)) [
      | inl (e', bad) ↦
          let same : e' ≡ e = ground (arith, h, bad) in
          inr (sym same ∙ index_init_fails count e' bad)
      | inr (start, good) ↦
          let (inv, room) =
            index_init-IsIndexed (λ m. m) merge_hash same_merge merge_test_iff merges count start
              count_small good in
          inl (
            add_merges_fails merges 0 merges start e (stands_all merges)
              (omega (arith, room, count_ge)) inv (ground (arith, h, good)))
    ]
