-- ===== src/Tokenizer/Load/Checked.antt =====
-- src/qx_tokenizer.c: what the checks of qx_tokenizer_load promise of the tokenizer it returns.
use mathlib.Core.Path.{subst}
use qx_mini_c.Prelude.Bytes.{IsByte, u32_at, take_bytes, u32_at-IsU32, take_bytes_sound}
use qx_mini_c.Prelude.{
  ℕ, zero, suc, ◌^◌, ◌≤◌, ◌<◌, ◌≡◌, refl, sym, ap, false, List, [], ◌∷◌, none, some, leb, arith,
  length, drop, All, All-drop, inl, inr, IsU32, Bool-cases, Option-cases,
}
use qx_mini_c.Prelude.Results.{Result, ok, Result-cases}
use qx_mini_c.Tokenizer.{Error, Token, Merge, Tokenizer}
use qx_mini_c.Tokenizer.Load.{
  parse_token, parse_merge, parse_many, Header, header_of, bad_id, check_header, parse_payload,
  load_with, load,
}
use qx_mini_c.Tokenizer.Load.Print.{IsToken, IsMerge, IsId, IsTokenizer}

take_bytes_size : (n : ℕ) (s x rest : List ℕ) → take_bytes n s ≡ some (x, rest) → length x ≡ n
take_bytes_size n s x rest e = (take_bytes_sound n s x rest e).1

parse_token-IsToken :
    (s : List ℕ) (t : Token) (rest : List ℕ) → parse_token s ≡ ok (t, rest) → IsToken t
unfolding parse_token
parse_token-IsToken s t rest e = elim (Option-cases (take_bytes (u32_at s) (drop 8 s))) [
  | inl bad ↦ ground (arith, e, bad)
  | inr ((text, rest'), taken) ↦
      let size = take_bytes_size (u32_at s) (drop 8 s) text rest' taken in
      record {
        text = record {
          short = ground (arith, e, taken, size);
          no_zero = ground (arith, e, taken);
          valid = ground (arith, e, taken);
        };
        kind_low = ground (arith, e, taken);
        kind_high = ground (arith, e, taken);
      }
]

parse_merge-IsMerge :
    (s : List ℕ) (m : Merge) (rest : List ℕ) → parse_merge s ≡ ok (m, rest) → IsMerge m
unfolding parse_merge
parse_merge-IsMerge s m rest e = elim (Option-cases (take_bytes (u32_at s) (drop 8 s))) [
  | inl bad ↦ ground (arith, e, bad)
  | inr ((left, middle), taken) ↦ elim (Option-cases (take_bytes (u32_at (drop 4 s)) middle)) [
    | inl bad ↦ ground (arith, e, taken, bad)
    | inr ((right, rest'), taken') ↦
        let size = take_bytes_size (u32_at s) (drop 8 s) left middle taken in
        let size' = take_bytes_size (u32_at (drop 4 s)) middle right rest' taken' in
        record {
          left = record {
            short = ground (arith, e, taken, taken', size);
            no_zero = ground (arith, e, taken, taken');
            valid = ground (arith, e, taken, taken');
          };
          right = record {
            short = ground (arith, e, taken, taken', size');
            no_zero = ground (arith, e, taken, taken');
            valid = ground (arith, e, taken, taken');
          };
          left_pos = ground (arith, e, taken, taken', size);
          right_pos = ground (arith, e, taken, taken', size');
        }
  ]
]

bad_id-IsId : (count id : ℕ) → IsU32 id → bad_id count id ≡ false → IsId count id
bad_id-IsId count id w e = elim (Bool-cases (leb (2 ^ 31) id)) [
  | inl large ↦ inr (ground (arith, e, large, w))
  | inr small ↦ inl (ground (arith, e, small))
]

check_header-IsId :
    (h : Header) (size : ℕ)
    → IsU32 h.bos_token_id
    → IsU32 h.eos_token_id
    → check_header h size ≡ none
    → (0 < h.vocab_count)
      × (h.vocab_count ≤ 1000000)
      × (h.merge_count ≤ 1000000)
      × (h.flags ≤ 3)
      × IsId h.vocab_count h.bos_token_id
      × IsId h.vocab_count h.eos_token_id
unfolding check_header
check_header-IsId h size w w' e = (
  ground (arith, e),
  ground (arith, e),
  ground (arith, e),
  ground (arith, e),
  bad_id-IsId h.vocab_count h.bos_token_id w (ground (arith, e)),
  bad_id-IsId h.vocab_count h.eos_token_id w' (ground (arith, e)),
)

parse_many-All {ℓ} :
    {A : Type ℓ} (parse : List ℕ → Result Error (A × List ℕ)) (P : A → Type 0)
    (checks : (s : List ℕ) (a : A) (rest : List ℕ) → parse s ≡ ok (a, rest) → P a) (n : ℕ)
    (s rest : List ℕ) (items : List A)
    → parse_many parse n s ≡ ok (items, rest)
    → (length items ≡ n) × All P items
unfolding parse_many
parse_many-All parse P checks zero s rest [] e = (refl, tt)
parse_many-All parse P checks zero s rest (a ∷ items) e = ground (arith, e)
parse_many-All parse P checks (suc n) s rest items e = elim (Result-cases (parse s)) [
  | inl (bad, fails) ↦ ground (arith, e, fails)
  | inr ((a, next), reads) ↦ elim (Result-cases (parse_many parse n next)) [
    | inl (bad, fails) ↦ ground (arith, e, reads, fails)
    | inr ((more, end'), reads') ↦
        let same : a ∷ more ≡ items = ground (arith, e, reads, reads') in
        let (count, all) = parse_many-All parse P checks n next end' more reads' in
        subst (λ xs. (length xs ≡ suc n) × All P xs) same
          (ap suc count, (checks s a next reads, all))
  ]
]

parse_payload-IsTokenizer :
    (h : Header) (payload : List ℕ) (tok : Tokenizer) (size : ℕ)
    → IsU32 h.bos_token_id
    → IsU32 h.eos_token_id
    → check_header h size ≡ none
    → parse_payload h payload ≡ ok tok
    → IsTokenizer tok
unfolding parse_payload
parse_payload-IsTokenizer h payload tok size w w' checked e =
    let (some_tokens, few_tokens, few_merges, flags, bos, eos) =
      check_header-IsId h size w w' checked in
    elim (Option-cases (take_bytes h.model_length payload)) [
      | inl bad ↦ ground (arith, e, bad)
      | inr ((model, s), model_read) ↦ elim (Option-cases (take_bytes h.pre_length s)) [
        | inl bad ↦ ground (arith, e, model_read, bad)
        | inr ((pre, s'), pre_read) ↦
            elim (Result-cases (parse_many parse_token h.vocab_count s')) [
              | inl (bad, fails) ↦ ground (arith, e, model_read, pre_read, fails)
              | inr ((tokens, s''), tokens_read) ↦
                  elim (Result-cases (parse_many parse_merge h.merge_count s'')) [
                    | inl (bad, fails) ↦ ground (arith, e, model_read, pre_read, tokens_read, fails)
                    | inr ((merges, rest), merges_read) ↦
                        let built : Tokenizer = record {
                          tokens = tokens;
                          merges = merges;
                          bos_token_id = h.bos_token_id;
                          eos_token_id = h.eos_token_id;
                          flags = h.flags;
                        } in
                        let same : built ≡ tok =
                          ground (arith, e, model_read, pre_read, tokens_read, merges_read) in
                        let (count, all) =
                          parse_many-All parse_token IsToken parse_token-IsToken h.vocab_count s'
                            s'' tokens tokens_read in
                        let (count', all') =
                          parse_many-All parse_merge IsMerge parse_merge-IsMerge h.merge_count s''
                            rest merges merges_read in
                        let counted : (n : ℕ)
                            → n ≡ h.vocab_count
                            → IsId n h.bos_token_id × IsId n h.eos_token_id =
                          λ n eq.
                            subst (λ k. IsId k h.bos_token_id × IsId k h.eos_token_id) (sym eq)
                              (bos, eos) in
                        subst IsTokenizer same (record {
                          tokens = all;
                          merges = all';
                          some_tokens = omega (arith, count, some_tokens);
                          few_tokens = omega (arith, count, few_tokens);
                          few_merges = omega (arith, count', few_merges);
                          bos = (counted (length tokens) count).0;
                          eos = (counted (length tokens) count).1;
                          flags = flags;
                        })
                  ]
            ]
      ]
    ]

load_with-IsTokenizer :
    (h : Header) (file : List ℕ) (tok : Tokenizer)
    → IsU32 h.bos_token_id
    → IsU32 h.eos_token_id
    → load_with h file ≡ ok tok
    → IsTokenizer tok
unfolding load_with
load_with-IsTokenizer h file tok w w' e = elim (Option-cases (check_header h (length file))) [
  | inl good ↦
      let parsed : parse_payload h (drop 48 file) ≡ ok tok = ground (arith, e, good) in
      parse_payload-IsTokenizer h (drop 48 file) tok (length file) w w' good parsed
  | inr (error, bad) ↦ ground (arith, e, bad)
]

-- The tokenizer that qx_tokenizer_load returns for a file of bytes has 1 to 1,000,000 tokens and at
-- most as many merges, whose texts are valid UTF-8 of at most 2 ^ 20 bytes without a zero, those of
-- the merges not empty; the kinds are 1 to 6, the flags at most 3, and each of the BOS and EOS ids is
-- one of the vocabulary or -1.
pub load-IsTokenizer :
    (file : List ℕ) (tok : Tokenizer) → All IsByte file → load file ≡ ok tok → IsTokenizer tok
unfolding load
load-IsTokenizer file tok bytes e =
    let h = header_of file in
    let w = u32_at-IsU32 (drop 24 file) (All-drop IsByte 24 file bytes) in
    let w' = u32_at-IsU32 (drop 28 file) (All-drop IsByte 28 file bytes) in
    load_with-IsTokenizer h file tok w w' e
