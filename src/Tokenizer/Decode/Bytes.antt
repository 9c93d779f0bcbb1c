-- ===== src/Tokenizer/Decode/Bytes.antt =====
-- src/qx_tokenizer.c: qx_tokenizer_decode on the texts that the byte table writes.
use qx_mini_c.Prelude.Bytes.{IsByte, drop-length-append}
use qx_mini_c.Prelude.{
  ℕ, zero, suc, ◌+◌, ◌≤◌, ◌<◌, ◌≡◌, refl, sym, ap, ◌∙◌, false, List, [], ◌∷◌, ◌++◌, some, ltb, not,
  length, drop, All, arith, length-append,
}
use mathlib.Core.List.{append_assoc, append-nil}
use qx_mini_c.Prelude.Results.{ok}
use qx_mini_c.Tokenizer.Utf8.{utf8_next}
use qx_mini_c.Tokenizer.Utf8.Codec.{length-encode_pos}
use qx_mini_c.Tokenizer.Bytes.{byte_codepoint, write_utf8, codepoint_byte, byte_text}
use qx_mini_c.Tokenizer.Bytes.Table.{
  utf8_next-byte, codepoint_byte-byte_codepoint, write_utf8-byte_codepoint,
}
use qx_mini_c.Tokenizer.Decode.{decode_piece}

decode_piece_step :
    (fuel : ℕ) (s : List ℕ) (cp w b capacity : ℕ) (out : List ℕ)
    → utf8_next s ≡ some (cp, w)
    → codepoint_byte cp ≡ some b
    → length out < capacity
    → decode_piece (suc fuel) s capacity out ≡ decode_piece fuel (drop w s) capacity (out ++ b ∷ [])
unfolding decode_piece utf8_next
decode_piece_step fuel [] cp w b capacity out h k room = ground (arith, h)
decode_piece_step fuel (a ∷ s) cp w b capacity out h k room =
    let space : not (ltb (length out) capacity) ≡ false = ground (arith, room) in
    rw (h, k, space, decode_piece) refl

write_utf8_pos : (b : ℕ) → b < 256 → 0 < length (write_utf8 (byte_codepoint b))
write_utf8_pos b h = rw (write_utf8-byte_codepoint b h) (length-encode_pos (byte_codepoint b))

-- The loop over a text that the table writes for some bytes appends these bytes, if they fit.
pub decode_piece-byte_text :
    (fuel : ℕ) (bs : List ℕ) (capacity : ℕ) (out : List ℕ)
    → All IsByte bs
    → length (byte_text bs) ≤ fuel
    → length out + length bs ≤ capacity
    → decode_piece fuel (byte_text bs) capacity out ≡ ok (out ++ bs)
decode_piece-byte_text fuel [] capacity out byte enough room =
    unfold decode_piece in ap ok (sym (append-nil out))
decode_piece-byte_text zero (b ∷ bs) capacity out byte enough room = absurd (
    omega (
      arith,
      write_utf8_pos b byte.0,
      length-append (write_utf8 (byte_codepoint b)) (byte_text bs),
    ))
decode_piece-byte_text (suc fuel) (b ∷ bs) capacity out byte enough room =
    let first = write_utf8 (byte_codepoint b) in
    let pos = write_utf8_pos b byte.0 in
    let size = length-append first (byte_text bs) in
    let grown = length-append out (b ∷ []) in
    decode_piece_step fuel (first ++ byte_text bs) (byte_codepoint b) (length first) b capacity out
      (utf8_next-byte b (byte_text bs) byte.0) (codepoint_byte-byte_codepoint b byte.0)
      (omega (arith, room))
    ∙ ap (λ (t : List ℕ). decode_piece fuel t capacity (out ++ b ∷ []))
        (drop-length-append first (byte_text bs))
    ∙ decode_piece-byte_text fuel bs capacity (out ++ b ∷ []) byte.1
        (omega (arith, enough, pos, size)) (omega (arith, room, grown))
    ∙ ap ok (append_assoc out (b ∷ []) bs)
