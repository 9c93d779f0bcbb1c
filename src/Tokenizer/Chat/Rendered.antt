-- ===== src/Tokenizer/Chat/Rendered.antt =====
-- src/qx_tokenizer.c: what qx_tokenizer_render_qwen3_chat writes, and when.
use mathlib.Core.List.{append_assoc, append-nil}
use qx_mini_c.Prelude.{
  ℕ, ◌+◌, ◌≤◌, ◌<◌, ◌≡◌, ◌↔◌, refl, sym, ap, ◌∙◌, Bool, true, false, ◌||◌, List, [], ◌∷◌, ◌++◌,
  some, ltb, ◌==◌, if◌then◌else◌, arith, length, length-append, flatten, All, Option-cases, inl,
  inr,
}
use qx_mini_c.Prelude.Results.{ok, Result-cases}
use qx_mini_c.Tokenizer.Utf8.{valid_utf8}
use qx_mini_c.Tokenizer.Chat.{
  Message, assistant, im_start, is_role, append, append_all, message_parts, render_messages,
  max_output, add_prompt, render_chat,
}

append_iff :
    (capacity : ℕ) (out bytes out' : List ℕ)
    → (append capacity out bytes ≡ some out')
      ↔ ((out' ≡ out ++ bytes) × (length out + length bytes ≤ capacity))
unfolding append
append_iff capacity out bytes out' =
    (λ h. (sym (ground (arith, h)), ground (arith, h)), λ (e, room). ground (arith, e, room))

append_all_sound :
    (capacity : ℕ) (xs : List (List ℕ)) (out out' : List ℕ)
    → length out ≤ capacity
    → append_all capacity out xs ≡ some out'
    → (out' ≡ out ++ flatten xs) × (length out' ≤ capacity)
unfolding append_all
append_all_sound capacity [] out out' low h =
    let same : out ≡ out' = ground (arith, h) in (sym same ∙ sym (append-nil out), rw same at low)
append_all_sound capacity (x ∷ xs) out out' low h = elim (Option-cases (append capacity out x)) [
  | inl full ↦ ground (arith, h, full)
  | inr (mid, good) ↦
      let (e, room) = (append_iff capacity out x mid).0 good in
      let size = ap length e ∙ length-append out x in
      let rest : append_all capacity mid xs ≡ some out' = ground (arith, h, good) in
      let (e', room') = append_all_sound capacity xs mid out' (omega (arith, size, room)) rest in
      (e' ∙ ap (λ (t : List ℕ). t ++ flatten xs) e ∙ append_assoc out x (flatten xs), room')
]

append_all_complete :
    (capacity : ℕ) (xs : List (List ℕ)) (out : List ℕ)
    → length out + length (flatten xs) ≤ capacity
    → append_all capacity out xs ≡ some (out ++ flatten xs)
unfolding append_all
append_all_complete capacity [] out room = ap some (sym (append-nil out))
append_all_complete capacity (x ∷ xs) out room =
    let size = length-append x (flatten xs) in
    let size' = length-append out x in
    let good = (append_iff capacity out x (out ++ x)).1 (refl, omega (arith, room, size)) in
    rw (good, append_all)
      (append_all_complete capacity xs (out ++ x) (omega (arith, room, size, size'))
        ∙ ap some (append_assoc out x (flatten xs)))

-- A message that can be rendered, as the code tests it.
abbrev pub IsAllowed : Message → Type 0
IsAllowed m = (is_role m.role ≡ true) × (valid_utf8 m.content ≡ true)

abbrev pub messages_text : List Message → List ℕ
messages_text [] = []
messages_text (m ∷ ms) = flatten (message_parts m) ++ messages_text ms

render_messages_sound :
    (capacity : ℕ) (ms : List Message) (out out' : List ℕ)
    → length out ≤ capacity
    → render_messages capacity ms out ≡ ok out'
    → All IsAllowed ms × (out' ≡ out ++ messages_text ms) × (length out' ≤ capacity)
unfolding render_messages
render_messages_sound capacity [] out out' low h =
    let same : out ≡ out' = ground (arith, h) in
    (tt, sym same ∙ sym (append-nil out), rw same at low)
render_messages_sound capacity (m ∷ ms) out out' low h =
    elim (Option-cases (append_all capacity out (message_parts m))) [
      | inl full ↦ ground (arith, h, full)
      | inr (mid, good) ↦
          let allowed : IsAllowed m = (ground (arith, h), ground (arith, h)) in
          let rest : render_messages capacity ms mid ≡ ok out' = ground (arith, h, good) in
          let (e, room) = append_all_sound capacity (message_parts m) out mid low good in
          let (all, e', room') = render_messages_sound capacity ms mid out' room rest in
          (
            (allowed, all),
            e'
                ∙ ap (λ (t : List ℕ). t ++ messages_text ms) e
                ∙ append_assoc out (flatten (message_parts m)) (messages_text ms),
            room',
          )
    ]

render_messages_complete :
    (capacity : ℕ) (ms : List Message) (out : List ℕ)
    → All IsAllowed ms
    → length out + length (messages_text ms) ≤ capacity
    → render_messages capacity ms out ≡ ok (out ++ messages_text ms)
unfolding render_messages
render_messages_complete capacity [] out all room = ap ok (sym (append-nil out))
render_messages_complete capacity (m ∷ ms) out all room =
    let part = flatten (message_parts m) in
    let size = length-append part (messages_text ms) in
    let size' = length-append out part in
    let good = append_all_complete capacity (message_parts m) out (omega (arith, room, size)) in
    rw (all.0.0, all.0.1, good, render_messages)
      (render_messages_complete capacity ms (out ++ part) all.1 (omega (arith, room, size, size'))
        ∙ ap ok (append_assoc out part (messages_text ms)))

abbrev pub prompt : Bool → List ℕ
prompt true = im_start ++ assistant ++ 10 ∷ []
prompt false = []

abbrev pub room_for : ℕ → ℕ
room_for output_capacity = if ltb max_output output_capacity then max_output else output_capacity

-- What a successful rendering is, in the code's terms.
pub record IsRendered (ms : List Message) (add : Bool) (output_capacity : ℕ) (out : List ℕ)
    : Type 0 where
  pub some_messages : 0 < length ms
  pub few_messages : length ms ≤ 64
  pub allowed : All IsAllowed ms
  pub text : out ≡ messages_text ms ++ prompt add
  pub fits : length out ≤ room_for output_capacity

add_prompt_iff :
    (capacity : ℕ) (add : Bool) (mid out : List ℕ)
    → length mid ≤ capacity
    → (add_prompt capacity add mid ≡ ok out) ↔ ((out ≡ mid ++ prompt add) × (length out ≤ capacity))
unfolding add_prompt
add_prompt_iff capacity false mid out low = (
  λ h.
      let same : mid ≡ out = ground (arith, h) in (sym same ∙ sym (append-nil mid), rw same at low),
  λ (e, room). ap ok (sym (e ∙ append-nil mid)),
)
add_prompt_iff capacity true mid out low = elim (Option-cases (append capacity mid (prompt true))) [
  | inl full ↦ (
    λ h. ground (arith, h, full),
    λ (e, room).
        let size = ap length e ∙ length-append mid (prompt true) in
        let fits = (append_iff capacity mid (prompt true) out).1 (e, omega (arith, size, room)) in
        ground (arith, full, fits),
  )
  | inr (out', good) ↦
      let (e', room') = (append_iff capacity mid (prompt true) out').0 good in
      let size = ap length e' ∙ length-append mid (prompt true) in
      (
        λ h.
            let same : out' ≡ out = ground (arith, h, good) in
            let low' : length out' ≤ capacity = omega (arith, size, room') in
            (sym same ∙ e', rw same at low'),
        λ (e, room). rw good (ap ok (e' ∙ sym e)),
      )
]

pub render_chat-IsRendered :
    (ms : List Message) (add : Bool) (output_capacity : ℕ) (out : List ℕ)
    → render_chat ms add output_capacity ≡ ok out
    → IsRendered ms add output_capacity out
unfolding render_chat
render_chat-IsRendered ms add output_capacity out h =
    elim (Result-cases (render_messages (room_for output_capacity) ms [])) [
      | inl (e, bad) ↦ ground (arith, h, bad)
      | inr (mid, good) ↦
          let (all, e, room) =
            render_messages_sound (room_for output_capacity) ms [] mid (omega arith) good in
          let last : add_prompt (room_for output_capacity) add mid ≡ ok out =
            ground (arith, h, good) in
          let (text, fits) = (add_prompt_iff (room_for output_capacity) add mid out room).0 last in
          record {
            some_messages = ground (arith, h);
            few_messages = ground (arith, h);
            allowed = all;
            text = text ∙ ap (λ (t : List ℕ). t ++ prompt add) e;
            fits = fits;
          }
    ]

pub render_chat_of_IsRendered :
    (ms : List Message) (add : Bool) (output_capacity : ℕ) (out : List ℕ)
    → IsRendered ms add output_capacity out
    → render_chat ms add output_capacity ≡ ok out
unfolding render_chat
render_chat_of_IsRendered ms add output_capacity out r =
    let size = ap length r.text ∙ length-append (messages_text ms) (prompt add) in
    let fits = r.fits in
    let low : length (messages_text ms) ≤ room_for output_capacity = omega (arith, size, fits) in
    let good =
      render_messages_complete (room_for output_capacity) ms [] r.allowed (omega (arith, low)) in
    let last =
      (add_prompt_iff (room_for output_capacity) add (messages_text ms) out low).1 (r.text, fits) in
    let count : (length ms == 0 || ltb 64 (length ms)) ≡ false = ground (arith, r) in
    rw (count, good) last
