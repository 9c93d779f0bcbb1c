-- ===== src/Tokenizer/Tests.antt =====
-- src/qx_tokenizer.c: a small tokenizer run on concrete texts.
use qx_mini_c.Prelude.Bytes.{IsByte, same_text}
use qx_mini_c.Prelude.{
  ℕ, ◌<◌, ◌≡◌, ◌↔◌, refl, true, false, List, [], ◌∷◌, Option, none, some, arith, All, inl, inr,
  u32_max, Bool, ltb, ◌&&◌, if◌then◌else◌,
}
use qx_mini_c.Prelude.Results.{ok}
use qx_mini_c.Tokenizer.{Token, Tokenizer}
use qx_mini_c.Tokenizer.Utf8.{leads_two, leads_three, leads_four, utf8_next, valid_loop, valid_utf8}
use qx_mini_c.Tokenizer.Utf8.Codec.{IsScalar, Decodes, utf8_next_iff}
use qx_mini_c.Tokenizer.Utf8.Valid.{encode_all, valid_utf8_iff}
use qx_mini_c.Tokenizer.Bytes.{is_plain, byte_rank, write_utf8, byte_codepoint, codepoint_byte}
use qx_mini_c.Tokenizer.Bytes.Table.{codepoint_byte-byte_codepoint}
use qx_mini_c.Tokenizer.Bpe.{scan_pairs, merge_at, merge_loop, emit, bpe_chunk}
use qx_mini_c.Tokenizer.Bpe.Lowest.{Merged}
use qx_mini_c.Tokenizer.Bpe.Rounds.{merge_loop-Merged}
use qx_mini_c.Tokenizer.Pretoken.{
  is_letter, is_number, is_other, classify, char_at, starts_with, match_suffix, ascii_contract,
  run_of, newlines, blank_run, next_char, other_chunk, blank_chunk, chunk_rest, plain_length,
  pretoken_length,
}
use qx_mini_c.Tokenizer.Pretoken.Bounds.{IsChunk, pretoken_length-IsChunk}
use qx_mini_c.Tokenizer.Special.{is_prefix, match_from, match_special, first_at, next_special}
use qx_mini_c.Tokenizer.Special.Longest.{is_candidate, longest, match_special-longest}
use qx_mini_c.Tokenizer.Index.{
  Index, fnv_from, fnv1a64, hash_pair, index_size, index_init, probe, put, add_tokens, add_merges,
  build_token_index, build_merge_index, find_token, find_merge,
}
use qx_mini_c.Tokenizer.Encode.{segment_end, encode_loop, add_marker, encode}
use qx_mini_c.Tokenizer.Index.Invariant.{search}
use qx_mini_c.Tokenizer.Index.Search.{same_merge, find_token-search, find_merge-search}
use qx_mini_c.Tokenizer.Encode.Total.{ends}
use qx_mini_c.Tokenizer.Encode.Ends.{encode_ends}
use qx_mini_c.Tokenizer.Decode.{decode}
use qx_mini_c.Tokenizer.RoundTrip.{IsPlainVocabulary, decode-encode}
use qx_mini_c.Tokenizer.Chat.{Message, user, render_chat}
use qx_mini_c.Tokenizer.Chat.{render_messages, append_all, append, is_role, add_prompt}
use qx_mini_c.Tokenizer.Chat.Template.{IsChat, render_chat_iff}
use qx_mini_c.Tokenizer.Load.{
  has_zero, parse_token, parse_merge, parse_many, check_header, parse_payload, load_with, load,
}
use qx_mini_c.Tokenizer.Load.Print.{IsText, IsTokenizer, print_payload, print_file}
use qx_mini_c.Tokenizer.Load.RoundTrip.{load-print_file}
use qx_mini_c.Tokenizer.Load.Checked.{load-IsTokenizer}

-- A Boolean test that all the numbers of a list are bytes.
all_bytes : List ℕ → Bool
all_bytes [] = true
all_bytes (b ∷ bs) = ltb b 256 && all_bytes bs

all_bytes_sound : (bs : List ℕ) → all_bytes bs ≡ true → All IsByte bs
unfolding all_bytes
all_bytes_sound [] h = tt
all_bytes_sound (b ∷ bs) h = (ground (arith, h), all_bytes_sound bs (ground (arith, h)))

-- "a", "b", "ab" and the special token "<e>".
abbrev entry_a : Token
entry_a = record { text = b'a' ∷ []; kind = 1 }

abbrev entry_b : Token
entry_b = record { text = b'b' ∷ []; kind = 1 }

abbrev entry_ab : Token
entry_ab = record { text = b'a' ∷ b'b' ∷ []; kind = 1 }

abbrev entry_end : Token
entry_end = record { text = b'<' ∷ b'e' ∷ b'>' ∷ []; kind = 3 }

abbrev small : Tokenizer
small = record {
  tokens = entry_a ∷ entry_b ∷ entry_ab ∷ entry_end ∷ [];
  merges = record { left = b'a' ∷ []; right = b'b' ∷ [] } ∷ [];
  bos_token_id = 4294967295;
  eos_token_id = 3;
  flags = 0;
}

-- "abb<e>a".
abbrev input : List ℕ
input = b'a' ∷ b'b' ∷ b'b' ∷ b'<' ∷ b'e' ∷ b'>' ∷ b'a' ∷ []

encoded : encode small input true 16 ≡ ok (2 ∷ 1 ∷ 3 ∷ 0 ∷ [])
unfolding encode build_token_index build_merge_index put add_tokens add_merges index_init index_size
    probe fnv1a64 fnv_from hash_pair same_text add_marker encode_loop segment_end match_special
    match_from is_prefix next_special first_at pretoken_length plain_length char_at classify
    chunk_rest next_char other_chunk blank_chunk blank_run run_of newlines ascii_contract
    match_suffix starts_with is_letter is_number is_other utf8_next valid_loop leads_two leads_three
    leads_four bpe_chunk scan_pairs merge_at merge_loop emit find_token find_merge byte_rank
    byte_codepoint write_utf8 is_plain
encoded = refl

-- The euro sign and a letter.
utf8_next_iff_example :
    (utf8_next (0xE2 ∷ 0x82 ∷ 0xAC ∷ b'a' ∷ []) ≡ some (0x20AC, 3))
    ↔ Decodes (0xE2 ∷ 0x82 ∷ 0xAC ∷ b'a' ∷ []) 0x20AC 3
utf8_next_iff_example = utf8_next_iff (0xE2 ∷ 0x82 ∷ 0xAC ∷ b'a' ∷ []) 0x20AC 3

valid_utf8_iff_example :
    (valid_utf8 (0xC0 ∷ 0x80 ∷ []) ≡ true)
    ↔ ((cps : List ℕ) × All IsScalar cps × (0xC0 ∷ 0x80 ∷ [] ≡ encode_all cps))
valid_utf8_iff_example = valid_utf8_iff (0xC0 ∷ 0x80 ∷ [])

codepoint_byte-byte_codepoint_example : codepoint_byte (byte_codepoint 10) ≡ some 10
codepoint_byte-byte_codepoint_example = codepoint_byte-byte_codepoint 10 (omega arith)

chunk_found : pretoken_length (b' ' ∷ b'a' ∷ b'b' ∷ b'!' ∷ []) ≡ ok 3
unfolding pretoken_length plain_length char_at classify chunk_rest next_char other_chunk blank_chunk
    blank_run run_of newlines ascii_contract match_suffix starts_with is_letter is_number is_other
    utf8_next leads_two leads_three leads_four
chunk_found = refl

pretoken_length-IsChunk_example : IsChunk (b' ' ∷ b'a' ∷ b'b' ∷ b'!' ∷ []) 3
pretoken_length-IsChunk_example =
    pretoken_length-IsChunk (b' ' ∷ b'a' ∷ b'b' ∷ b'!' ∷ []) 3 chunk_found

special_found :
    match_special small.tokens (b'<' ∷ b'e' ∷ b'>' ∷ b'a' ∷ [])
    ≡ some (record { id = 3; matched = 3 })
unfolding match_special match_from is_prefix
special_found = refl

-- Two special tokens that the input starts with, the longer one first, and one that is not special.
abbrev nested : List Token
nested =
    record { text = b'<' ∷ b'e' ∷ b'>' ∷ []; kind = 3 }
    ∷ record { text = b'<' ∷ []; kind = 4 }
    ∷ record { text = b'<' ∷ b'e' ∷ b'>' ∷ b'a' ∷ []; kind = 1 }
    ∷ []

match_special-longest_example :
    match_special nested (b'<' ∷ b'e' ∷ b'>' ∷ b'a' ∷ []) ≡ some (record { id = 0; matched = 3 })
unfolding longest is_candidate same_text
match_special-longest_example = match_special-longest nested (b'<' ∷ b'e' ∷ b'>' ∷ b'a' ∷ [])

input_bytes : All IsByte input
unfolding all_bytes
input_bytes = all_bytes_sound input refl

plain : IsPlainVocabulary small
plain = (
  inl refl,
  (
    inl refl,
    (
      inl refl,
      (
        inr (
          (omega arith, omega arith),
          ((omega arith, omega arith), ((omega arith, omega arith), tt)),
        ),
        tt,
      ),
    ),
  ),
)

decode-encode_example : decode small (2 ∷ 1 ∷ 3 ∷ 0 ∷ []) true 7 ≡ ok input
decode-encode_example =
    decode-encode small plain input true 16 7 (2 ∷ 1 ∷ 3 ∷ 0 ∷ []) refl input_bytes (omega arith)
      encoded

abbrev greeting : List Message
greeting = record { role = user; content = b'H' ∷ b'i' ∷ [] } ∷ []

abbrev greeting_text : List ℕ
greeting_text =
    b'<' ∷ b'|' ∷ b'i' ∷ b'm' ∷ b'_' ∷ b's' ∷ b't' ∷ b'a' ∷ b'r' ∷ b't' ∷ b'|' ∷ b'>' ∷ b'u' ∷ b's'
    ∷ b'e' ∷ b'r' ∷ 10 ∷ b'H' ∷ b'i' ∷ b'<' ∷ b'|' ∷ b'i' ∷ b'm' ∷ b'_' ∷ b'e' ∷ b'n' ∷ b'd' ∷ b'|'
    ∷ b'>' ∷ 10 ∷ []

greeting_rendered : render_chat greeting false 500 ≡ ok greeting_text
unfolding render_chat render_messages append_all append is_role same_text valid_utf8 valid_loop
    utf8_next add_prompt
greeting_rendered = refl

render_chat_iff_example :
    (render_chat greeting false 500 ≡ ok greeting_text) ↔ IsChat greeting false 500 greeting_text
render_chat_iff_example = render_chat_iff greeting false 500 greeting_text

valid_a : IsText (b'a' ∷ [])
unfolding valid_utf8 valid_loop utf8_next has_zero
valid_a = record { short = omega arith; no_zero = refl; valid = refl }

valid_b : IsText (b'b' ∷ [])
unfolding valid_utf8 valid_loop utf8_next has_zero
valid_b = record { short = omega arith; no_zero = refl; valid = refl }

valid_ab : IsText (b'a' ∷ b'b' ∷ [])
unfolding valid_utf8 valid_loop utf8_next has_zero
valid_ab = record { short = omega arith; no_zero = refl; valid = refl }

valid_end : IsText entry_end.text
unfolding valid_utf8 valid_loop utf8_next has_zero
valid_end = record { short = omega arith; no_zero = refl; valid = refl }

small-IsTokenizer : IsTokenizer small
small-IsTokenizer = record {
  tokens = (
    record { text = valid_a; kind_low = omega arith; kind_high = omega arith },
    (
      record { text = valid_b; kind_low = omega arith; kind_high = omega arith },
      (
        record { text = valid_ab; kind_low = omega arith; kind_high = omega arith },
        (record { text = valid_end; kind_low = omega arith; kind_high = omega arith }, tt),
      ),
    ),
  );
  merges = (
    record { left = valid_a; right = valid_b; left_pos = omega arith; right_pos = omega arith },
    tt,
  );
  some_tokens = omega arith;
  few_tokens = omega arith;
  few_merges = omega arith;
  bos = inr refl;
  eos = inl (omega arith);
  flags = omega arith;
}

load-print_file_example : load (print_file small) ≡ ok small
unfolding print_payload
load-print_file_example = load-print_file small small-IsTokenizer (omega arith)

file_bytes : All IsByte (print_file small)
unfolding print_payload fnv1a64 fnv_from all_bytes
file_bytes = all_bytes_sound (print_file small) refl

loaded : load (print_file small) ≡ ok small
unfolding load load_with check_header parse_payload parse_many parse_token parse_merge same_text
    has_zero print_payload fnv1a64 fnv_from valid_utf8 valid_loop utf8_next
loaded = refl

load-IsTokenizer_example : IsTokenizer small
load-IsTokenizer_example = load-IsTokenizer (print_file small) small file_bytes loaded

-- One merge, of "a" and "b".
abbrev answer : List ℕ → List ℕ → Option ℕ
answer a b = if same_text a (b'a' ∷ []) && same_text b (b'b' ∷ []) then some 0 else none

answer_small : (a b : List ℕ) (r : ℕ) → answer a b ≡ some r → r < u32_max
answer_small a b r h = ground (arith, h)

abbrev symbols : List (List ℕ)
symbols = (b'b' ∷ []) ∷ (b'a' ∷ []) ∷ (b'b' ∷ []) ∷ []

merge_loop-Merged_example :
    (ss : List (List ℕ)) × (merge_loop (λ a b. ok (answer a b)) 3 4 0 symbols ≡ ok ss)
    × Merged answer symbols ss
merge_loop-Merged_example =
    merge_loop-Merged (λ a b. ok (answer a b)) answer (λ a b. refl) answer_small 3 4 0 symbols
      (omega arith) (omega arith) (omega arith)

-- The special tokens "cd" and "bcd" in "abcd": the one that stands first is passed over.
abbrev overlapping : List Token
overlapping =
    record { text = b'c' ∷ b'd' ∷ []; kind = 3 }
    ∷ record { text = b'b' ∷ b'c' ∷ b'd' ∷ []; kind = 3 }
    ∷ []

passed_over : next_special overlapping (b'a' ∷ b'b' ∷ b'c' ∷ b'd' ∷ []) 4 ≡ 2
unfolding next_special first_at is_prefix
passed_over = refl

encode_ends_example : ends (encode small input true 2) ≡ true
encode_ends_example = encode_ends small input true 2 (omega arith) (omega arith)

abbrev ab_index : Index
ab_index = record { slots = 0 ∷ 0 ∷ 4 ∷ 2 ∷ 3 ∷ 0 ∷ 1 ∷ 0 ∷ []; mask = 7 }

built : build_token_index small.tokens ≡ ok ab_index
unfolding build_token_index index_init index_size put add_tokens probe fnv1a64 fnv_from same_text
built = refl

find_token-search_example :
    find_token small.tokens ab_index (b'a' ∷ b'b' ∷ [])
    ≡ ok (search (λ t. same_text t.text (b'a' ∷ b'b' ∷ [])) 0 small.tokens)
find_token-search_example =
    find_token-search small.tokens ab_index (b'a' ∷ b'b' ∷ []) (omega arith) built

abbrev merge_index : Index
merge_index = record { slots = 1 ∷ 0 ∷ []; mask = 1 }

merges_built : build_merge_index small.merges ≡ ok merge_index
unfolding build_merge_index index_init index_size put add_merges probe hash_pair fnv1a64 fnv_from
    same_text
merges_built = refl

find_merge-search_example :
    find_merge small.merges merge_index (b'a' ∷ []) (b'b' ∷ [])
    ≡ ok (search (same_merge (record { left = b'a' ∷ []; right = b'b' ∷ [] })) 0 small.merges)
find_merge-search_example =
    find_merge-search small.merges merge_index (b'a' ∷ []) (b'b' ∷ []) (omega arith) merges_built
