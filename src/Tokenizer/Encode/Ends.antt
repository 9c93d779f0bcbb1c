-- ===== src/Tokenizer/Encode/Ends.antt =====
-- src/qx_tokenizer.c: how a run of qx_tokenizer_encode ends.
use qx_mini_c.Prelude.{
  ℕ, zero, suc, ◌%◌, ◌/◌, ◌^◌, ◌≤◌, ◌<◌, ◌≡◌, refl, sym, ap, ◌∙◌, Bool, true, false, List, [], ◌∷◌,
  ◌++◌, none, some, ltb, ◌==◌, if◌then◌else◌, arith, length, length-drop, length-take, drop, take,
  Bool-cases, Option-cases, ◌⊎◌, inl, inr, u32_max,
}
use qx_mini_c.Prelude.Results.{ok, Result-cases}
use qx_mini_c.Tokenizer.{
  Tokenizer, Error, duplicate_token, duplicate_merge, hash_size_overflow, invalid_bos, invalid_eos,
}
use qx_mini_c.Tokenizer.Utf8.{valid_loop}
use qx_mini_c.Tokenizer.Index.{Index, build_token_index, build_merge_index}
use qx_mini_c.Tokenizer.Index.Built.{build_token_index_fails, build_merge_index_fails}
use qx_mini_c.Tokenizer.Bpe.{bpe_chunk}
use qx_mini_c.Tokenizer.Pretoken.{pretoken_length}
use qx_mini_c.Tokenizer.Pretoken.Bounds.{pretoken_length-IsChunk}
use qx_mini_c.Tokenizer.Special.{match_special}
use qx_mini_c.Tokenizer.Special.Found.{match_special-IsMatch}
use qx_mini_c.Tokenizer.Encode.{segment_end, encode_loop, add_marker, encode}
use qx_mini_c.Tokenizer.Encode.Total.{internal, ends, pretoken_length_ends, bpe_chunk_ends}

built_ends :
    (e e1 e2 : Error)
    → (e ≡ e1) ⊎ (e ≡ e2)
    → internal e1 ≡ false
    → internal e2 ≡ false
    → internal e ≡ false
built_ends e e1 e2 (inl same) h h' = ap internal same ∙ h
built_ends e e1 e2 (inr same) h h' = ap internal same ∙ h'

some_bytes_taken : (n : ℕ) → 0 < n → (n == 0) ≡ false
some_bytes_taken n h = ground (arith, h)

add_marker_ends :
    (wanted : Bool) (id : ℕ) (invalid : Error) (capacity : ℕ) (ids : List ℕ)
    → internal invalid ≡ false
    → ends (add_marker wanted id invalid capacity ids) ≡ true
unfolding add_marker
add_marker_ends wanted id invalid capacity ids h = ground (arith, h)

module _ (tok : Tokenizer) (ti mi : Index) (few : length tok.tokens < 2 ^ 31)
    (few' : length tok.merges < 2 ^ 31) (tokens_built : build_token_index tok.tokens ≡ ok ti)
    (merges_built : build_merge_index tok.merges ≡ ok mi) where
  encode_loop_ends :
      (parse_special : Bool) (capacity fuel : ℕ) (s ids : List ℕ)
      → length s ≤ fuel
      → length s < u32_max
      → ends (encode_loop tok ti mi parse_special capacity fuel s ids) ≡ true
  unfolding encode_loop
  encode_loop_ends parse_special capacity fuel [] ids enough short = refl
  encode_loop_ends parse_special capacity zero (a ∷ s) ids enough short =
      absurd (omega (arith, enough))
  encode_loop_ends parse_special capacity (suc fuel) (a ∷ s) ids enough short =
      elim (Option-cases (if parse_special then match_special tok.tokens (a ∷ s) else none)) [
        | inr (m, matched) ↦
            let there : match_special tok.tokens (a ∷ s) ≡ some m = ground (arith, matched) in
            let pos = (match_special-IsMatch tok.tokens (a ∷ s) m there).0 in
            let size = length-drop m.matched (a ∷ s) in
            let rest =
              encode_loop_ends parse_special capacity fuel (drop m.matched (a ∷ s))
                (ids ++ m.id ∷ []) (omega (arith, size, pos, enough))
                (omega (arith, size, short)) in
            ground (arith, matched, rest)
        | inl unmatched ↦
            let segment = take (segment_end tok parse_special (a ∷ s)) (a ∷ s) in
            elim (Result-cases (pretoken_length segment)) [
              | inl (e, bad) ↦
                  ground (arith, unmatched, bad, ap ends (sym bad) ∙ pretoken_length_ends segment)
              | inr (chunk, good) ↦
                  let (pos, inside) = pretoken_length-IsChunk segment chunk good in
                  let size = length-drop chunk (a ∷ s) in
                  let taken = length-take chunk (a ∷ s) in
                  let chunk_ends =
                    bpe_chunk_ends tok ti mi (take chunk (a ∷ s)) capacity ids few few' tokens_built
                      merges_built (omega (arith, taken, short)) in
                  elim (Result-cases (bpe_chunk tok ti mi (take chunk (a ∷ s)) capacity ids)) [
                    | inl (e, bad) ↦
                        ground (arith, unmatched, good, pos, bad, ap ends (sym bad) ∙ chunk_ends)
                    | inr (ids', ran) ↦
                        let rest =
                          encode_loop_ends parse_special capacity fuel (drop chunk (a ∷ s)) ids'
                            (omega (arith, size, pos, enough)) (omega (arith, size, short)) in
                        let some_bytes : (chunk == 0) ≡ false = some_bytes_taken chunk pos in
                        rw (unmatched, good, some_bytes, ran, encode_loop) rest
                  ]
            ]
      ]

-- With fewer than 2 ^ 31 tokens and merges, qx_tokenizer_encode returns on every input, and what it
-- reports is never that a chunk took no bytes, nor that the merges went over the limit on their work.
pub encode_ends :
    (tok : Tokenizer) (input : List ℕ) (parse_special : Bool) (capacity : ℕ)
    → length tok.tokens < 2 ^ 31
    → length tok.merges < 2 ^ 31
    → ends (encode tok input parse_special capacity) ≡ true
unfolding encode
encode_ends tok input parse_special capacity few few' =
    elim (Bool-cases (ltb 4096 (length input))) [
      | inl long ↦ ground (arith, long)
      | inr short ↦ elim (Bool-cases (valid_loop (length input) input)) [
        | inr invalid ↦ ground (arith, short, invalid)
        | inl valid ↦ elim (Result-cases (build_token_index tok.tokens)) [
          | inl (e, bad) ↦
              let last =
                built_ends e duplicate_token hash_size_overflow
                  (build_token_index_fails tok.tokens e few bad) refl refl in
              ground (arith, short, valid, bad, last)
          | inr (ti, tokens_built) ↦ elim (Result-cases (build_merge_index tok.merges)) [
            | inl (e, bad) ↦
                let last =
                  built_ends e duplicate_merge hash_size_overflow
                    (build_merge_index_fails tok.merges e few' bad) refl refl in
                ground (arith, short, valid, tokens_built, bad, last)
            | inr (mi, merges_built) ↦
                elim (Result-cases
                  (add_marker (tok.flags % 2 == 1) tok.bos_token_id invalid_bos capacity [])) [
                    | inl (e, bad) ↦
                        let last =
                          add_marker_ends (tok.flags % 2 == 1) tok.bos_token_id invalid_bos capacity
                            [] refl in
                        ground (
                          arith,
                          short,
                          valid,
                          tokens_built,
                          merges_built,
                          bad,
                          ap ends (sym bad) ∙ last,
                        )
                    | inr (ids, started) ↦
                        let loop =
                          encode_loop_ends tok ti mi few few' tokens_built merges_built
                            parse_special capacity (length input) input ids (omega arith)
                            (ground (arith, short)) in
                        elim (Result-cases
                          (encode_loop tok ti mi parse_special capacity (length input) input ids)) [
                            | inl (e, bad) ↦ ground (
                              arith,
                              short,
                              valid,
                              tokens_built,
                              merges_built,
                              started,
                              bad,
                              ap ends (sym bad) ∙ loop,
                            )
                            | inr (ids', ran) ↦
                                let last =
                                  add_marker_ends (tok.flags / 2 % 2 == 1) tok.eos_token_id
                                    invalid_eos capacity ids' refl in
                                ground (
                                  arith, short, valid, tokens_built, merges_built, started, ran,
                                  last,
                                )
                          ]
                  ]
          ]
        ]
      ]
    ]
