-- ===== src/Tokenizer/Decode.antt =====
-- src/qx_tokenizer.c: qx_tokenizer_decode. The output is the list of the bytes written so far; what
-- a failed call leaves in the buffer is not kept.
pub mod Bytes
use qx_mini_c.Prelude.{
  ℕ, zero, suc, ◌-◌, Bool, true, false, not, ◌||◌, List, [], ◌∷◌, ◌++◌, Option, none, some, ltb,
  ◌==◌, if◌then◌else◌, length, drop, get_elem?,
}
use qx_mini_c.Prelude.Results.{Result, ok, err}
use qx_mini_c.Tokenizer.{
  Token, Tokenizer, Error, id_range, special_needs_flag, decoded_capacity, bad_piece, decoded_utf8,
  no_fuel,
}
use qx_mini_c.Tokenizer.Utf8.{utf8_next, valid_utf8}
use qx_mini_c.Tokenizer.Bytes.{codepoint_byte}

abbrev pub is_special : Token → Bool
is_special t = t.kind == 3 || t.kind == 4

-- The loop over the text of a token; a round takes at least one byte.
unfoldable pub decode_piece : ℕ → List ℕ → ℕ → List ℕ → Result Error (List ℕ)
decode_piece fuel [] capacity out = ok out
decode_piece zero (a ∷ s) capacity out = err no_fuel
decode_piece (suc fuel) (a ∷ s) capacity out = elim (utf8_next (a ∷ s)) [
  | none ↦ err bad_piece
  | some (cp, width) ↦ elim (codepoint_byte cp) [
    | none ↦ err bad_piece
    | some byte ↦
        let rest = decode_piece fuel (drop width (a ∷ s)) capacity (out ++ byte ∷ []) in
        if not (ltb (length out) capacity) then err decoded_capacity else rest
  ]
]

-- One round of the loop over the ids.
unfoldable pub decode_token : Token → Bool → ℕ → List ℕ → Result Error (List ℕ)
unfolding decode_piece
decode_token t render_special capacity out =
    if is_special t
    then if not render_special
      then err special_needs_flag
      else if ltb (capacity - length out) (length t.text)
      then err decoded_capacity
      else ok (out ++ t.text)
    else decode_piece (length t.text) t.text capacity out

unfoldable pub decode_ids : Tokenizer → List ℕ → Bool → ℕ → List ℕ → Result Error (List ℕ)
unfolding decode_token
decode_ids tok [] render_special capacity out = ok out
decode_ids tok (id ∷ ids) render_special capacity out = elim (get_elem? tok.tokens id) [
  | none ↦ err id_range
  | some t ↦ elim (decode_token t render_special capacity out) [
    | err e ↦ err e
    | ok out' ↦ decode_ids tok ids render_special capacity out'
  ]
]

unfoldable pub decode : Tokenizer → List ℕ → Bool → ℕ → Result Error (List ℕ)
unfolding decode_ids
decode tok ids render_special capacity = elim (decode_ids tok ids render_special capacity []) [
  | err e ↦ err e
  | ok out ↦ if not (valid_utf8 out) then err decoded_utf8 else ok out
]
