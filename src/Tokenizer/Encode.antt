-- ===== src/Tokenizer/Encode.antt =====
-- src/qx_tokenizer.c: qx_tokenizer_encode. The list of ids so far stands for the array and its count.
pub mod Total
pub mod Ends
use qx_mini_c.Prelude.{
  ℕ, zero, suc, ◌+◌, ◌-◌, ◌%◌, ◌/◌, ◌^◌, Bool, not, ◌||◌, List, [], ◌∷◌, ◌++◌, none, some, ltb, leb,
  ◌==◌, if◌then◌else◌, length, drop, take,
}
use qx_mini_c.Prelude.Results.{Result, ok, err}
use qx_mini_c.Tokenizer.{
  Tokenizer, Error, input_limit, input_utf8, invalid_bos, invalid_eos, token_capacity, no_progress,
  no_fuel,
}
use qx_mini_c.Tokenizer.Utf8.{valid_loop}
use qx_mini_c.Tokenizer.Index.{Index, build_token_index, build_merge_index}
use qx_mini_c.Tokenizer.Bpe.{bpe_chunk}
use qx_mini_c.Tokenizer.Pretoken.{pretoken_length}
use qx_mini_c.Tokenizer.Special.{match_special, next_special}

-- How far the segment at the start of `input` goes.
unfoldable pub segment_end : Tokenizer → Bool → List ℕ → ℕ
segment_end tok parse_special input =
    if parse_special
    then 1 + next_special tok.tokens (drop 1 input) (length input - 1)
    else length input

-- The loop over the input from `offset` on; a round takes at least one byte.
unfoldable pub encode_loop :
    Tokenizer → Index → Index → Bool → ℕ → ℕ → List ℕ → List ℕ → Result Error (List ℕ)
encode_loop tok ti mi parse_special capacity fuel [] ids = ok ids
encode_loop tok ti mi parse_special capacity zero (a ∷ s) ids = err no_fuel
encode_loop tok ti mi parse_special capacity (suc fuel) (a ∷ s) ids =
    elim (if parse_special then match_special tok.tokens (a ∷ s) else none) [
      | some m ↦
          let rest =
            encode_loop tok ti mi parse_special capacity fuel (drop m.matched (a ∷ s))
              (ids ++ m.id ∷ []) in
          if not (ltb (length ids) capacity) then err token_capacity else rest
      | none ↦ elim (pretoken_length (take (segment_end tok parse_special (a ∷ s)) (a ∷ s))) [
        | err e ↦ err e
        | ok chunk ↦
            let rest : Result Error (List ℕ) =
              elim (bpe_chunk tok ti mi (take chunk (a ∷ s)) capacity ids) [
                | err e ↦ err e
                | ok ids' ↦
                    encode_loop tok ti mi parse_special capacity fuel (drop chunk (a ∷ s)) ids'
              ] in
            if chunk == 0 then err no_progress else rest
      ]
    ]

-- `(int32_t)id < 0`.
abbrev pub is_negative : ℕ → Bool
is_negative id = leb (2 ^ 31) id

-- One id added at the start or the end, if its flag is set.
unfoldable pub add_marker : Bool → ℕ → Error → ℕ → List ℕ → Result Error (List ℕ)
add_marker wanted id invalid capacity ids =
    if not wanted
    then ok ids
    else if is_negative id || not (ltb (length ids) capacity)
    then err invalid
    else ok (ids ++ id ∷ [])

unfoldable pub encode : Tokenizer → List ℕ → Bool → ℕ → Result Error (List ℕ)
unfolding encode_loop add_marker
encode tok input parse_special capacity =
    if ltb 4096 (length input)
    then err input_limit
    else if not (valid_loop (length input) input)
    then err input_utf8
    else elim (build_token_index tok.tokens) [
      | err e ↦ err e
      | ok ti ↦ elim (build_merge_index tok.merges) [
        | err e ↦ err e
        | ok mi ↦ elim (add_marker (tok.flags % 2 == 1) tok.bos_token_id invalid_bos capacity []) [
          | err e ↦ err e
          | ok ids ↦ elim (encode_loop tok ti mi parse_special capacity (length input) input ids) [
            | err e ↦ err e
            | ok ids' ↦
                add_marker (tok.flags / 2 % 2 == 1) tok.eos_token_id invalid_eos capacity ids'
          ]
        ]
      ]
    ]
