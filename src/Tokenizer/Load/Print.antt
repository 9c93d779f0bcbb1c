-- ===== src/Tokenizer/Load/Print.antt =====
-- src/qx_tokenizer.c: the QXT2 file of a tokenizer, as qx_tokenizer_load reads it, and the tokenizers
-- that have one.
use qx_mini_c.Prelude.Bytes.{le32, le64}
use qx_mini_c.Prelude.{
  ℕ, ◌-◌, ◌^◌, ◌≤◌, ◌<◌, ◌≡◌, true, false, List, ◌++◌, length, All, map, flatten, ◌⊎◌,
}
use qx_mini_c.Tokenizer.{Token, Merge, Tokenizer}
use qx_mini_c.Tokenizer.Utf8.{valid_utf8}
use qx_mini_c.Tokenizer.Index.{fnv1a64}
use qx_mini_c.Tokenizer.Load.{has_zero, Header, magic, gpt2, qwen2}

abbrev pub print_token : Token → List ℕ
print_token t = le32 (length t.text) ++ le32 t.kind ++ t.text

abbrev pub print_merge : Merge → List ℕ
print_merge m = le32 (length m.left) ++ le32 (length m.right) ++ m.left ++ m.right

unfoldable pub print_payload : Tokenizer → List ℕ
print_payload tok =
    gpt2 ++ qwen2 ++ flatten (map print_token tok.tokens) ++ flatten (map print_merge tok.merges)

abbrev pub print_header : Header → List ℕ
print_header h =
    magic
    ++ le32 h.version
    ++ le32 h.vocab_count
    ++ le32 h.merge_count
    ++ le32 h.model_length
    ++ le32 h.pre_length
    ++ le32 h.bos_token_id
    ++ le32 h.eos_token_id
    ++ le32 h.flags
    ++ le32 h.payload_size
    ++ le64 h.checksum

abbrev pub header_for : Tokenizer → List ℕ → Header
header_for tok payload = record {
  version = 2;
  vocab_count = length tok.tokens;
  merge_count = length tok.merges;
  model_length = 4;
  pre_length = 5;
  bos_token_id = tok.bos_token_id;
  eos_token_id = tok.eos_token_id;
  flags = tok.flags;
  payload_size = length payload;
  checksum = fnv1a64 payload;
}

abbrev pub print_file : Tokenizer → List ℕ
print_file tok = print_header (header_for tok (print_payload tok)) ++ print_payload tok

-- What qx_tokenizer_load promises of a text, a token, a merge, an id and a tokenizer.
pub record IsText (text : List ℕ) : Type 0 where
  pub short : length text ≤ 2 ^ 20
  pub no_zero : has_zero text ≡ false
  pub valid : valid_utf8 text ≡ true

pub record IsToken (t : Token) : Type 0 where
  pub text : IsText t.text
  pub kind_low : 1 ≤ t.kind
  pub kind_high : t.kind ≤ 6

pub record IsMerge (m : Merge) : Type 0 where
  pub left : IsText m.left
  pub right : IsText m.right
  pub left_pos : 0 < length m.left
  pub right_pos : 0 < length m.right

-- An id of the vocabulary, or -1.
abbrev pub IsId : ℕ → ℕ → Type 0
IsId count id = (id < count) ⊎ (id ≡ 2 ^ 32 - 1)

pub record IsTokenizer (tok : Tokenizer) : Type 0 where
  pub tokens : All IsToken tok.tokens
  pub merges : All IsMerge tok.merges
  pub some_tokens : 0 < length tok.tokens
  pub few_tokens : length tok.tokens ≤ 1000000
  pub few_merges : length tok.merges ≤ 1000000
  pub bos : IsId (length tok.tokens) tok.bos_token_id
  pub eos : IsId (length tok.tokens) tok.eos_token_id
  pub flags : tok.flags ≤ 3
