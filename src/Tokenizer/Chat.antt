-- ===== src/Tokenizer/Chat.antt =====
-- src/qx_tokenizer.c: qx_tokenizer_render_qwen3_chat. A role is its C string, and the output the list
-- of the bytes written so far. The tests for null pointers are not modelled.
pub mod Rendered
pub mod Template
use qx_mini_c.Prelude.Bytes.{same_text}
use qx_mini_c.Prelude.{
  ℕ, ◌+◌, ◌-◌, ◌*◌, Bool, true, false, not, ◌||◌, List, [], ◌∷◌, ◌++◌, Option, none, some, ltb,
  ◌==◌, if◌then◌else◌, length,
}
use qx_mini_c.Prelude.Results.{Result, ok, err}
use qx_mini_c.Tokenizer.{Error, invalid_messages, unsupported_role, content_utf8, render_limit}
use qx_mini_c.Tokenizer.Utf8.{valid_utf8}

pub record Message : Type 0 where
  pub role : List ℕ
  pub content : List ℕ

-- "system", "user", "assistant", and the texts around a message.
abbrev pub system : List ℕ
system = b's' ∷ b'y' ∷ b's' ∷ b't' ∷ b'e' ∷ b'm' ∷ []

abbrev pub user : List ℕ
user = b'u' ∷ b's' ∷ b'e' ∷ b'r' ∷ []

abbrev pub assistant : List ℕ
assistant = b'a' ∷ b's' ∷ b's' ∷ b'i' ∷ b's' ∷ b't' ∷ b'a' ∷ b'n' ∷ b't' ∷ []

abbrev pub im_start : List ℕ
im_start = b'<' ∷ b'|' ∷ b'i' ∷ b'm' ∷ b'_' ∷ b's' ∷ b't' ∷ b'a' ∷ b'r' ∷ b't' ∷ b'|' ∷ b'>' ∷ []

abbrev pub im_end : List ℕ
im_end = b'<' ∷ b'|' ∷ b'i' ∷ b'm' ∷ b'_' ∷ b'e' ∷ b'n' ∷ b'd' ∷ b'|' ∷ b'>' ∷ 10 ∷ []

unfoldable pub is_role : List ℕ → Bool
unfolding same_text
is_role role = same_text role system || same_text role user || same_text role assistant

-- qx_tok_append.
unfoldable pub append : ℕ → List ℕ → List ℕ → Option (List ℕ)
append capacity out bytes =
    if ltb capacity (length out) || ltb (capacity - length out) (length bytes)
    then none
    else some (out ++ bytes)

-- A list of texts, one call of qx_tok_append after the other.
unfoldable pub append_all : ℕ → List ℕ → List (List ℕ) → Option (List ℕ)
unfolding append
append_all capacity out [] = some out
append_all capacity out (x ∷ xs) = elim (append capacity out x) [
  | none ↦ none
  | some out' ↦ append_all capacity out' xs
]

abbrev pub message_parts : Message → List (List ℕ)
message_parts m = im_start ∷ m.role ∷ (10 ∷ []) ∷ m.content ∷ im_end ∷ []

unfoldable pub render_messages : ℕ → List Message → List ℕ → Result Error (List ℕ)
unfolding append_all is_role
render_messages capacity [] out = ok out
render_messages capacity (m ∷ ms) out =
    let rest : Result Error (List ℕ) = elim (append_all capacity out (message_parts m)) [
      | none ↦ err render_limit
      | some out' ↦ render_messages capacity ms out'
    ] in
    if not (is_role m.role)
    then err unsupported_role
    else if not (valid_utf8 m.content)
    then err content_utf8
    else rest

-- QX_CHAT_MAX_OUTPUT.
abbrev pub max_output : ℕ
max_output = 64 * 1024

-- The tail of the generation prompt.
unfoldable pub add_prompt : ℕ → Bool → List ℕ → Result Error (List ℕ)
unfolding append
add_prompt capacity add_generation_prompt out =
    if add_generation_prompt
    then elim (append capacity out (im_start ++ assistant ++ 10 ∷ [])) [
      | none ↦ err render_limit
      | some out' ↦ ok out'
    ]
    else ok out

unfoldable pub render_chat : List Message → Bool → ℕ → Result Error (List ℕ)
unfolding render_messages add_prompt
render_chat messages add_generation_prompt output_capacity =
    let capacity = if ltb max_output output_capacity then max_output else output_capacity in
    if length messages == 0 || ltb 64 (length messages)
    then err invalid_messages
    else elim (render_messages capacity messages []) [
      | err e ↦ err e
      | ok out ↦ add_prompt capacity add_generation_prompt out
    ]
