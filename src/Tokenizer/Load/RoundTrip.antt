-- ===== src/Tokenizer/Load/RoundTrip.antt =====
-- src/qx_tokenizer.c: qx_tokenizer_load on the printed file of a tokenizer.
use mathlib.Core.List.{append-nil}
use mathlib.Core.Path.{subst}
use qx_mini_c.Prelude.Bytes.{same_text_refl, take_bytes, drop-length-append, take_bytes-append}
use qx_mini_c.Prelude.{
  ℕ, ◌+◌, ◌^◌, ◌≤◌, ◌≡◌, refl, ap, ◌∙◌, true, false, List, [], ◌++◌, map, none, some, ltb, ◌==◌,
  ◌||◌, arith, length, length-append, flatten, drop,
}
use qx_mini_c.Prelude.Results.{ok}
use qx_mini_c.Tokenizer.{Tokenizer}
use qx_mini_c.Tokenizer.Index.{fnv1a64}
use qx_mini_c.Tokenizer.Load.{
  parse_token, parse_merge, parse_many, Header, check_header, parse_payload, load_with, load, magic,
  gpt2, qwen2,
}
use qx_mini_c.Tokenizer.Load.Print.{
  print_token, print_merge, print_payload, print_header, header_for, print_file, IsTokenizer,
}
use qx_mini_c.Tokenizer.Load.Parsed.{parse_token-print, parse_merge-print, parse_many-print}
use qx_mini_c.Tokenizer.Load.Accepted.{header_of-print, header_for-Fits, check_header-header_for}

-- The parts of a payload, as the reader takes them off.
record IsPayload (h : Header) (payload : List ℕ) (tok : Tokenizer) : Type 0 where
  after_model : List ℕ
  after_pre : List ℕ
  after_tokens : List ℕ
  model : take_bytes h.model_length payload ≡ some (gpt2, after_model)
  pre : take_bytes h.pre_length after_model ≡ some (qwen2, after_pre)
  tokens : parse_many parse_token h.vocab_count after_pre ≡ ok (tok.tokens, after_tokens)
  merges : parse_many parse_merge h.merge_count after_tokens ≡ ok (tok.merges, [])
  bos : h.bos_token_id ≡ tok.bos_token_id
  eos : h.eos_token_id ≡ tok.eos_token_id
  flags : h.flags ≡ tok.flags

parse_payload-IsPayload :
    (h : Header) (payload : List ℕ) (tok : Tokenizer)
    → IsPayload h payload tok
    → parse_payload h payload ≡ ok tok
unfolding parse_payload
parse_payload-IsPayload h payload tok p =
    rw
      (
        p.model,
        p.pre,
        same_text_refl gpt2,
        same_text_refl qwen2,
        p.tokens,
        p.merges,
        p.bos,
        p.eos,
        p.flags,
        parse_payload,
      )
      refl

print-IsPayload :
    (tok : Tokenizer)
    → IsTokenizer tok
    → IsPayload (header_for tok (print_payload tok)) (print_payload tok) tok
unfolding print_payload
print-IsPayload tok h =
    let tokens = flatten (map print_token tok.tokens) in
    let merges = flatten (map print_merge tok.merges) in
    let merges_read : parse_many parse_merge (length tok.merges) merges ≡ ok (tok.merges, []) =
      subst (λ s. parse_many parse_merge (length tok.merges) s ≡ ok (tok.merges, []))
        (append-nil merges)
        (parse_many-print parse_merge print_merge parse_merge-print tok.merges [] h.merges) in
    record {
      after_model = qwen2 ++ tokens ++ merges;
      after_pre = tokens ++ merges;
      after_tokens = merges;
      model = take_bytes-append gpt2 (qwen2 ++ tokens ++ merges);
      pre = take_bytes-append qwen2 (tokens ++ merges);
      tokens =
          parse_many-print parse_token print_token parse_token-print tok.tokens merges h.tokens;
      merges = merges_read;
      bos = refl;
      eos = refl;
      flags = refl;
    }

load_with-printed :
    (h : Header) (start payload : List ℕ) (tok : Tokenizer)
    → length start ≡ 44
    → length payload ≤ 2 ^ 28
    → check_header h (48 + length payload) ≡ none
    → (fnv1a64 payload == h.checksum) ≡ true
    → parse_payload h payload ≡ ok tok
    → load_with h (magic ++ start ++ payload) ≡ ok tok
unfolding load_with
load_with-printed h start payload tok size small checked sum parsed =
    let file = magic ++ start ++ payload in
    let total : length file ≡ 48 + length payload =
      ground (arith, length-append start payload, size) in
    let limits : (ltb (length file) 48 || ltb (48 + 2 ^ 28) (length file)) ≡ false =
      ground (arith, small, total) in
    let accepted : check_header h (length file) ≡ none = ap (check_header h) total ∙ checked in
    let behind : drop 44 (start ++ payload) ≡ payload =
      subst (λ n. drop n (start ++ payload) ≡ payload) size (drop-length-append start payload) in
    rw (limits, same_text_refl magic, accepted, behind, sum, parsed, load_with) refl

-- A tokenizer that qx_tokenizer_load could return, with a payload of at most 2 ^ 28 bytes, written
-- to a file, is what qx_tokenizer_load returns for the file.
pub load-print_file :
    (tok : Tokenizer)
    → IsTokenizer tok
    → length (print_payload tok) ≤ 2 ^ 28
    → load (print_file tok) ≡ ok tok
unfolding load
load-print_file tok h small =
    let payload = print_payload tok in
    let header = header_for tok payload in
    ap (λ read. load_with read (print_file tok))
      (header_of-print header payload (header_for-Fits tok payload h small))
    ∙ load_with-printed header (drop 4 (print_header header)) payload tok refl small
        (check_header-header_for tok payload h) (ground arith)
        (parse_payload-IsPayload header payload tok (print-IsPayload tok h))
