-- ===== src/Tokenizer/Load/Accepted.antt =====
-- src/qx_tokenizer.c: the header that qx_tokenizer_load reads from a printed file, and its guards.
use Prim.Native.Nat.{bit_xor}
use qx_mini_c.Prelude.Bytes.{u64_at-le64, u32_at-le32}
use qx_mini_c.Prelude.{
  ℕ, ◌+◌, ◌-◌, ◌^◌, ◌≤◌, ◌≡◌, refl, true, false, List, [], ◌∷◌, ◌++◌, none, ltb, leb, ◌==◌, ◌||◌,
  arith, length, IsU32, IsU64, mul64, inl, inr,
}
use qx_mini_c.Tokenizer.{Tokenizer}
use qx_mini_c.Tokenizer.Index.{fnv_prime, fnv_from, fnv1a64}
use qx_mini_c.Tokenizer.Load.{Header, header_of, bad_id, check_header}
use qx_mini_c.Tokenizer.Load.Print.{print_header, header_for, IsId, IsTokenizer}

-- The numbers of a header fit the fields they are printed in.
pub record Fits (h : Header) : Type 0 where
  pub version : IsU32 h.version
  pub vocab_count : IsU32 h.vocab_count
  pub merge_count : IsU32 h.merge_count
  pub model_length : IsU32 h.model_length
  pub pre_length : IsU32 h.pre_length
  pub bos_token_id : IsU32 h.bos_token_id
  pub eos_token_id : IsU32 h.eos_token_id
  pub flags : IsU32 h.flags
  pub payload_size : IsU32 h.payload_size
  pub checksum : IsU64 h.checksum

pub header_of-print : (h : Header) (s : List ℕ) → Fits h → header_of (print_header h ++ s) ≡ h
header_of-print h s fits = λ i. record {
  version = u32_at-le32 h.version [] fits.version i;
  vocab_count = u32_at-le32 h.vocab_count [] fits.vocab_count i;
  merge_count = u32_at-le32 h.merge_count [] fits.merge_count i;
  model_length = u32_at-le32 h.model_length [] fits.model_length i;
  pre_length = u32_at-le32 h.pre_length [] fits.pre_length i;
  bos_token_id = u32_at-le32 h.bos_token_id [] fits.bos_token_id i;
  eos_token_id = u32_at-le32 h.eos_token_id [] fits.eos_token_id i;
  flags = u32_at-le32 h.flags [] fits.flags i;
  payload_size = u32_at-le32 h.payload_size [] fits.payload_size i;
  checksum = u64_at-le64 h.checksum s fits.checksum i;
}

fnv_from-IsU64 : (bytes : List ℕ) (value : ℕ) → IsU64 value → IsU64 (fnv_from value bytes)
unfolding fnv_from
fnv_from-IsU64 [] value h = h
fnv_from-IsU64 (b ∷ bs) value h =
    fnv_from-IsU64 bs (mul64 (bit_xor value b) fnv_prime) (omega arith)

pub fnv1a64-IsU64 : (bytes : List ℕ) → IsU64 (fnv1a64 bytes)
unfolding fnv1a64
fnv1a64-IsU64 bytes = fnv_from-IsU64 bytes 1469598103934665603 (omega arith)

id_fits : (count id : ℕ) → count ≤ 1000000 → IsId count id → IsU32 id
id_fits count id le (inl h) = omega (arith, le, h)
id_fits count id le (inr h) = omega (arith, h)

id_good : (count id : ℕ) → count ≤ 1000000 → IsId count id → bad_id count id ≡ false
id_good count id le (inl h) = ground (arith, le, h)
id_good count id le (inr h) = ground (arith, h)

pub header_for-Fits :
    (tok : Tokenizer) (payload : List ℕ)
    → IsTokenizer tok
    → length payload ≤ 2 ^ 28
    → Fits (header_for tok payload)
header_for-Fits tok payload h small = record {
  version = omega arith;
  vocab_count = omega (arith, h.few_tokens);
  merge_count = omega (arith, h.few_merges);
  model_length = omega arith;
  pre_length = omega arith;
  bos_token_id = id_fits _ _ h.few_tokens h.bos;
  eos_token_id = id_fits _ _ h.few_tokens h.eos;
  flags = omega (arith, h.flags);
  payload_size = omega (arith, small);
  checksum = fnv1a64-IsU64 payload;
}

pub check_header-header_for :
    (tok : Tokenizer) (payload : List ℕ)
    → IsTokenizer tok
    → check_header (header_for tok payload) (48 + length payload) ≡ none
unfolding check_header
check_header-header_for tok payload h =
    let counts : (length tok.tokens == 0
          || ltb 1000000 (length tok.tokens)
          || ltb 1000000 (length tok.merges))
        ≡ false =
      ground (arith, h.some_tokens, h.few_tokens, h.few_merges) in
    let flags : leb tok.flags 3 ≡ true = ground (arith, h.flags) in
    let size : (length payload == 48 + length payload - 48) ≡ true = ground arith in
    rw (counts, flags, size, id_good _ _ h.few_tokens h.bos, id_good _ _ h.few_tokens h.eos) refl
