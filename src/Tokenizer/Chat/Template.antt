-- ===== src/Tokenizer/Chat/Template.antt =====
-- src/qx_tokenizer.c: the template of a Qwen3 chat, against qx_tokenizer_render_qwen3_chat.
use mathlib.Core.List.{append_assoc}
use qx_mini_c.Prelude.Bytes.{same_text, same_text_sound, same_text_refl}
use qx_mini_c.Prelude.{
  ℕ, ◌≤◌, ◌<◌, ◌≡◌, ◌↔◌, ◌⊎◌, refl, sym, ap, ◌∙◌, Bool, true, false, List, [], ◌∷◌, ◌++◌, length,
  flatten, All, arith, Bool-cases, inl, inr,
}
use qx_mini_c.Prelude.Results.{ok}
use qx_mini_c.Tokenizer.Chat.{Message, system, user, assistant, is_role, message_parts, render_chat}
use qx_mini_c.Tokenizer.Chat.Rendered.{
  IsAllowed, messages_text, prompt, render_chat-IsRendered, render_chat_of_IsRendered,
}
use qx_mini_c.Tokenizer.Utf8.Codec.{IsScalar}
use qx_mini_c.Tokenizer.Utf8.Valid.{encode_all, valid_utf8_iff}

-- "<|im_start|>", "<|im_end|>" and a newline, and "<|im_start|>assistant" and a newline.
abbrev start_tag : List ℕ
start_tag = b'<' ∷ b'|' ∷ b'i' ∷ b'm' ∷ b'_' ∷ b's' ∷ b't' ∷ b'a' ∷ b'r' ∷ b't' ∷ b'|' ∷ b'>' ∷ []

abbrev end_line : List ℕ
end_line = b'<' ∷ b'|' ∷ b'i' ∷ b'm' ∷ b'_' ∷ b'e' ∷ b'n' ∷ b'd' ∷ b'|' ∷ b'>' ∷ 10 ∷ []

abbrev prompt_line : List ℕ
prompt_line =
    b'<' ∷ b'|' ∷ b'i' ∷ b'm' ∷ b'_' ∷ b's' ∷ b't' ∷ b'a' ∷ b'r' ∷ b't' ∷ b'|' ∷ b'>' ∷ b'a' ∷ b's'
    ∷ b's' ∷ b'i' ∷ b's' ∷ b't' ∷ b'a' ∷ b'n' ∷ b't' ∷ 10 ∷ []

-- The role is "system", "user" or "assistant".
abbrev pub IsRole : List ℕ → Type 0
IsRole role =
    (role ≡ b's' ∷ b'y' ∷ b's' ∷ b't' ∷ b'e' ∷ b'm' ∷ [])
    ⊎ (role ≡ b'u' ∷ b's' ∷ b'e' ∷ b'r' ∷ [])
    ⊎ (role ≡ b'a' ∷ b's' ∷ b's' ∷ b'i' ∷ b's' ∷ b't' ∷ b'a' ∷ b'n' ∷ b't' ∷ [])

-- The content is the UTF-8 of Unicode scalar values.
abbrev pub IsUtf8 : List ℕ → Type 0
IsUtf8 text = (cps : List ℕ) × All IsScalar cps × (text ≡ encode_all cps)

abbrev pub IsMessage : Message → Type 0
IsMessage m = IsRole m.role × IsUtf8 m.content

-- A message is its start tag with the role, a line of its own, and the content with the end tag.
abbrev pub template : List Message → Bool → List ℕ
template [] true = prompt_line
template [] false = []
template (m ∷ ms) add = (start_tag ++ (m.role ++ (10 ∷ (m.content ++ end_line)))) ++ template ms add

-- What a successful rendering is.
pub record IsChat (ms : List Message) (add : Bool) (output_capacity : ℕ) (out : List ℕ)
    : Type 0 where
  pub some_messages : 0 < length ms
  pub few_messages : length ms ≤ 64
  pub messages : All IsMessage ms
  pub text : out ≡ template ms add
  pub fits : length out ≤ output_capacity
  pub in_limit : length out ≤ 65536

roles : (role : List ℕ) → (is_role role ≡ true) ↔ IsRole role
unfolding is_role
roles role = (
  λ h. elim (Bool-cases (same_text role system)) [
    | inl good ↦ inl (same_text_sound role system good)
    | inr no1 ↦ elim (Bool-cases (same_text role user)) [
      | inl good ↦ inr (inl (same_text_sound role user good))
      | inr no2 ↦ inr (inr (same_text_sound role assistant (ground (arith, h, no1, no2))))
    ]
  ],
  λ h. elim h [
    | inl e ↦ ground (arith, ap (λ r. same_text r system) e ∙ same_text_refl system)
    | inr (inl e) ↦ ground (arith, ap (λ r. same_text r user) e ∙ same_text_refl user)
    | inr (inr e) ↦ ground (arith, ap (λ r. same_text r assistant) e ∙ same_text_refl assistant)
  ],
)

IsAllowed-IsMessage : (ms : List Message) → All IsAllowed ms ↔ All IsMessage ms
IsAllowed-IsMessage [] = (λ h. tt, λ h. tt)
IsAllowed-IsMessage (m ∷ ms) = (
  λ ((r, u), h).
      (((roles m.role).0 r, (valid_utf8_iff m.content).0 u), (IsAllowed-IsMessage ms).0 h),
  λ ((r, u), h).
      (((roles m.role).1 r, (valid_utf8_iff m.content).1 u), (IsAllowed-IsMessage ms).1 h),
)

template_text : (ms : List Message) (add : Bool) → messages_text ms ++ prompt add ≡ template ms add
template_text [] true = refl
template_text [] false = refl
template_text (m ∷ ms) add =
    let part = flatten (message_parts m) in
    append_assoc part (messages_text ms) (prompt add) ∙ ap (λ t. part ++ t) (template_text ms add)

-- qx_tokenizer_render_qwen3_chat succeeds with an output exactly when there are 1 to 64 messages,
-- each with the role "system", "user" or "assistant" and a content that is the UTF-8 of Unicode scalar
-- values; the output is the template of the messages in their order, with the assistant's start
-- if it is asked for; and it fits both the capacity and 64 KiB.
pub render_chat_iff :
    (ms : List Message) (add : Bool) (output_capacity : ℕ) (out : List ℕ)
    → (render_chat ms add output_capacity ≡ ok out) ↔ IsChat ms add output_capacity out
render_chat_iff ms add output_capacity out = (
  λ h.
      let r = render_chat-IsRendered ms add output_capacity out h in
      let fits = r.fits in
      record {
        some_messages = r.some_messages;
        few_messages = r.few_messages;
        messages = (IsAllowed-IsMessage ms).0 r.allowed;
        text = r.text ∙ template_text ms add;
        fits = ground (arith, fits);
        in_limit = ground (arith, fits);
      },
  λ c.
      let fits = c.fits in
      let limit = c.in_limit in
      render_chat_of_IsRendered ms add output_capacity out (record {
        some_messages = c.some_messages;
        few_messages = c.few_messages;
        allowed = (IsAllowed-IsMessage ms).1 c.messages;
        text = c.text ∙ sym (template_text ms add);
        fits = ground (arith, fits, limit);
      }),
)
