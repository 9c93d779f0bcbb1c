-- ===== src/Tokenizer/RoundTrip.antt =====
-- src/qx_tokenizer.c: qx_tokenizer_decode on the ids that qx_tokenizer_encode gives.
use mathlib.Core.Path.{subst}
use mathlib.Core.List.{append_assoc, append-nil}
use qx_mini_c.Prelude.Bytes.{IsByte}
use qx_mini_c.Prelude.{
  ℕ, zero, suc, ◌+◌, ◌≤◌, ◌≡◌, refl, sym, ◌∙◌, Bool, true, List, [], ◌∷◌, ◌++◌, map, Option, none,
  some, if◌then◌else◌, arith, length, take, drop, take-append-drop, flatten, All, All-take,
  All-drop, All-left, All-right, All-get_elem?, Option-cases, inl, inr,
}
use qx_mini_c.Prelude.Results.{ok, Result-cases}
use qx_mini_c.Tokenizer.{Tokenizer}
use qx_mini_c.Tokenizer.Utf8.{valid_utf8, valid_loop}
use qx_mini_c.Tokenizer.Bytes.{byte_text}
use qx_mini_c.Tokenizer.Decode.{decode, decode_ids}
use qx_mini_c.Tokenizer.Index.{Index, build_token_index, build_merge_index, find_token, find_merge}
use qx_mini_c.Tokenizer.Index.Found.{find_token_sound}
use qx_mini_c.Tokenizer.Bpe.{merge_loop, emit, byte_symbols, bpe_limit, bpe_chunk}
use qx_mini_c.Tokenizer.Bpe.Pieces.{
  merge_loop_pieces, singles, singles-flatten, byte_symbols-singles,
}
use qx_mini_c.Tokenizer.Pretoken.{pretoken_length}
use qx_mini_c.Tokenizer.Special.{Match, match_special}
use qx_mini_c.Tokenizer.Special.Found.{match_special-IsMatch}
use qx_mini_c.Tokenizer.Encode.{encode_loop, encode, add_marker, segment_end}
use qx_mini_c.Tokenizer.Meaning.{
  IsPlainSpecial, Means, nil-Means, Means-append, special-Means, piece-Means,
}

-- The special tokens of a vocabulary are visible ASCII.
abbrev pub IsPlainVocabulary : Tokenizer → Type 0
IsPlainVocabulary tok = All IsPlainSpecial tok.tokens

module _ (tok : Tokenizer) (plain : IsPlainVocabulary tok) where
  emit-Means :
      (ti : Index) (capacity : ℕ) (ps : List (List ℕ)) (ids ids' : List ℕ)
      → All IsByte (flatten ps)
      → emit (find_token tok.tokens ti) capacity (map byte_text ps) ids ≡ ok ids'
      → (new : List ℕ) × (ids' ≡ ids ++ new) × Means tok new (flatten ps)
  unfolding emit
  emit-Means ti capacity [] ids ids' byte h =
      ([], sym (ground (arith, h)) ∙ sym (append-nil ids), nil-Means tok)
  emit-Means ti capacity (p ∷ ps) ids ids' byte h =
      elim (Result-cases (find_token tok.tokens ti (byte_text p))) [
        | inl (e, bad) ↦ ground (arith, h, bad)
        | inr (none, missing) ↦ ground (arith, h, missing)
        | inr (some id, here) ↦
            let (t, there, text) = find_token_sound tok.tokens ti (byte_text p) id here in
            let rest : emit (find_token tok.tokens ti) capacity (map byte_text ps) (ids ++ id ∷ [])
                ≡ ok ids' =
              ground (arith, h, here) in
            let (new, same, means) =
              emit-Means ti capacity ps (ids ++ id ∷ []) ids' (All-right IsByte p (flatten ps) byte)
                rest in
            let one =
              piece-Means tok id t p there
                (All-get_elem? IsPlainSpecial tok.tokens id t plain there) text
                (All-left IsByte p (flatten ps) byte) in
            (
              id ∷ new,
              same ∙ append_assoc ids (id ∷ []) new,
              Means-append tok (id ∷ []) new p (flatten ps) one means,
            )
      ]

  bpe_chunk-Means :
      (ti mi : Index) (chunk : List ℕ) (capacity : ℕ) (ids ids' : List ℕ)
      → All IsByte chunk
      → bpe_chunk tok ti mi chunk capacity ids ≡ ok ids'
      → (new : List ℕ) × (ids' ≡ ids ++ new) × Means tok new chunk
  unfolding bpe_chunk
  bpe_chunk-Means ti mi chunk capacity ids ids' byte h =
      elim (Result-cases (
        merge_loop (find_merge tok.merges mi) (bpe_limit (length chunk)) (length chunk + 1) 0
          (byte_symbols chunk))) [
            | inl (e, bad) ↦ ground (arith, h, bad)
            | inr (ss, ran) ↦
                let (ps, same, whole) =
                  merge_loop_pieces (find_merge tok.merges mi) (bpe_limit (length chunk))
                    (length chunk + 1) 0 (singles chunk) ss
                    (rw (byte_symbols-singles chunk) at ran) in
                let spelled : flatten ps ≡ chunk = whole ∙ singles-flatten chunk in
                let left : emit (find_token tok.tokens ti) capacity ss ids ≡ ok ids' =
                  ground (arith, h, ran) in
                let emitted : emit (find_token tok.tokens ti) capacity (map byte_text ps) ids
                    ≡ ok ids' =
                  rw same at left in
                let (new, eq, means) =
                  emit-Means ti capacity ps ids ids' (rw spelled byte) emitted in
                (new, eq, rw spelled at means)
          ]

  -- Ids that stand for two parts of an input, one after the other.
  joined :
      (ids one new ids' input first rest : List ℕ)
      → Means tok one first
      → (ids' ≡ (ids ++ one) ++ new) × Means tok new rest
      → first ++ rest ≡ input
      → (new' : List ℕ) × (ids' ≡ ids ++ new') × Means tok new' input
  joined ids one new ids' input first rest m (e, n) whole = (
    one ++ new,
    e ∙ append_assoc ids one new,
    subst (Means tok (one ++ new)) whole (Means-append tok one new first rest m n),
  )

  module _ (ti mi : Index) (parse_special : Bool) (capacity : ℕ) where
    matched_at : List ℕ → Option Match
    matched_at input = if parse_special then match_special tok.tokens input else none

    matched_at-some :
        (input : List ℕ) (m : Match)
        → matched_at input ≡ some m
        → match_special tok.tokens input ≡ some m
    unfolding matched_at
    matched_at-some input m h = ground (arith, h)

    encode_loop-Means :
        (fuel : ℕ) (input ids ids' : List ℕ)
        → All IsByte input
        → encode_loop tok ti mi parse_special capacity fuel input ids ≡ ok ids'
        → (new : List ℕ) × (ids' ≡ ids ++ new) × Means tok new input
    unfolding encode_loop matched_at
    encode_loop-Means fuel [] ids ids' byte h =
        ([], sym (ground (arith, h)) ∙ sym (append-nil ids), nil-Means tok)
    encode_loop-Means zero (a ∷ s) ids ids' byte h = ground (arith, h)
    encode_loop-Means (suc fuel) (a ∷ s) ids ids' byte h =
        elim (Option-cases (matched_at (a ∷ s))) [
          | inr (m, found) ↦
              let (pos, match) =
                match_special-IsMatch tok.tokens (a ∷ s) m (matched_at-some (a ∷ s) m found) in
              let rest : encode_loop tok ti mi parse_special capacity fuel (drop m.matched (a ∷ s))
                    (ids ++ m.id ∷ [])
                  ≡ ok ids' =
                ground (arith, h, found) in
              let (new, e, means) =
                encode_loop-Means fuel (drop m.matched (a ∷ s)) (ids ++ m.id ∷ []) ids'
                  (All-drop IsByte m.matched (a ∷ s) byte) rest in
              let text : take m.matched (a ∷ s) ≡ match.token.text = rw match.size match.start in
              joined ids (m.id ∷ []) new ids' (a ∷ s) match.token.text (drop m.matched (a ∷ s))
                (special-Means tok m.id match.token match.there match.special) (e, means)
                (rw (← text) (take-append-drop m.matched (a ∷ s)))
          | inl nothing ↦
              elim (Result-cases
                (pretoken_length (take (segment_end tok parse_special (a ∷ s)) (a ∷ s)))) [
                  | inl (e, bad) ↦ ground (arith, h, nothing, bad)
                  | inr (n, chunk) ↦
                      elim (Result-cases (bpe_chunk tok ti mi (take n (a ∷ s)) capacity ids)) [
                        | inl (e, bad) ↦ ground (arith, h, nothing, chunk, bad)
                        | inr (mid, ran) ↦
                            let rest : encode_loop tok ti mi parse_special capacity fuel
                                  (drop n (a ∷ s)) mid
                                ≡ ok ids' =
                              ground (arith, h, nothing, chunk, ran) in
                            let (one, e, means) =
                              bpe_chunk-Means ti mi (take n (a ∷ s)) capacity ids mid
                                (All-take IsByte n (a ∷ s) byte) ran in
                            let (new, e', means') =
                              encode_loop-Means fuel (drop n (a ∷ s)) mid ids'
                                (All-drop IsByte n (a ∷ s) byte) rest in
                            joined ids one new ids' (a ∷ s) (take n (a ∷ s)) (drop n (a ∷ s)) means
                              (rw e at e', means') (take-append-drop n (a ∷ s))
                      ]
                ]
        ]

  -- For a tokenizer without the BOS and EOS flags whose special tokens are visible ASCII: when
  -- qx_tokenizer_encode succeeds on some bytes, whether or not it looks for special tokens,
  -- qx_tokenizer_decode with special tokens rendered and room for the bytes gives them back.
  pub decode-encode :
      (input : List ℕ) (parse_special : Bool) (capacity out_capacity : ℕ) (ids : List ℕ)
      → tok.flags ≡ 0
      → All IsByte input
      → length input ≤ out_capacity
      → encode tok input parse_special capacity ≡ ok ids
      → decode tok ids true out_capacity ≡ ok input
  unfolding encode add_marker decode valid_utf8
  decode-encode input parse_special capacity out_capacity ids flags byte room h =
      let valid : valid_loop (length input) input ≡ true = ground (arith, h) in
      elim (Result-cases (build_token_index tok.tokens)) [
        | inl (e, bad) ↦ ground (arith, h, bad)
        | inr (ti, tokens_built) ↦ elim (Result-cases (build_merge_index tok.merges)) [
          | inl (e, bad) ↦ ground (arith, h, tokens_built, bad)
          | inr (mi, merges_built) ↦
              elim (Result-cases
                (encode_loop tok ti mi parse_special capacity (length input) input [])) [
                  | inl (e, bad) ↦ ground (arith, h, tokens_built, merges_built, bad, flags)
                  | inr (out, ran) ↦
                      let same : out ≡ ids =
                        ground (arith, h, tokens_built, merges_built, ran, flags) in
                      let (new, e, means) =
                        encode_loop-Means ti mi parse_special capacity (length input) input [] out
                          byte ran in
                      let decoded : decode_ids tok ids true out_capacity [] ≡ ok input =
                        rw (← same, e) (means out_capacity [] (omega (arith, room))) in
                      rw (decoded, valid, decode) refl
                ]
        ]
      ]
