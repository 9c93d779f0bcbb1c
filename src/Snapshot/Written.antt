-- ===== src/Snapshot/Written.antt =====
-- src/qx_format.c: what qx_write_accumulated_kv_snapshot writes.
use mathlib.Core.List.{append_assoc, append-nil}
use mathlib.Core.Path.{ap₂}
use qx_mini_c.Prelude.Bytes.{le32}
use qx_mini_c.Prelude.{
  ℕ, suc, ◌≤◌, ◌<◌, ◌≡◌, ◌≢◌, refl, sym, ap, ◌∙◌, false, ◌||◌, List, [], ◌∷◌, ◌++◌, map, length,
  get_or, ltb, ◌==◌, u32_max, arith,
}
use qx_mini_c.Prelude.Results.{ok}
use qx_mini_c.Snapshot.{
  Config, Slot, Writer, format_id, slot_order, header_bytes, blank, emit, write_slot, write_slots,
  write_snapshot,
}
use qx_mini_c.Snapshot.Print.{slot_bytes, slots_bytes, print_snapshot}
use qx_mini_c.Snapshot.Sha256.{sha_init}
use qx_mini_c.Snapshot.Sha256.Fips.{sha256}
use qx_mini_c.Snapshot.Sha256.Standard.{HasTaken, init-HasTaken, update-HasTaken, final-sha256}

-- The slots that are written, in their order.
abbrev pub written_slots : List Slot → List ℕ → List Slot
written_slots cache slots = map (λ slot. get_or cache slot blank) slots

pub length-written_slots :
    (cache : List Slot) (slots : List ℕ) → length (written_slots cache slots) ≡ length slots
length-written_slots cache [] = refl
length-written_slots cache (slot ∷ slots) = ap suc (length-written_slots cache slots)

-- The hash of a writer has taken in its file.
abbrev InStep : Writer → Type 0
InStep w = HasTaken w.hash w.file

emit-InStep : (bytes : List ℕ) (w : Writer) → InStep w → InStep (emit bytes w)
emit-InStep bytes w h = update-HasTaken w.hash w.file bytes h

write_slot-file : (s : Slot) (w : Writer) → (write_slot s w).file ≡ w.file ++ slot_bytes s
write_slot-file s w =
    let ks = le32 s.k_scale in
    let vs = le32 s.v_scale in
    append_assoc ((w.file ++ s.k) ++ s.v) ks vs
    ∙ append_assoc (w.file ++ s.k) s.v (ks ++ vs)
    ∙ append_assoc w.file s.k (s.v ++ (ks ++ vs))

write_slots-file :
    (cache : List Slot) (slots : List ℕ) (w : Writer)
    → InStep w
    → ((write_slots cache slots w).file ≡ w.file ++ slots_bytes (written_slots cache slots))
      × InStep (write_slots cache slots w)
unfolding write_slots
write_slots-file cache [] w h = (sym (append-nil w.file), h)
write_slots-file cache (slot ∷ slots) w h =
    let s = get_or cache slot blank in
    let h4 = emit-InStep (le32 s.v_scale) (emit (le32 s.k_scale) (emit s.v (emit s.k w))) (
      emit-InStep (le32 s.k_scale) (emit s.v (emit s.k w))
        (emit-InStep s.v (emit s.k w) (emit-InStep s.k w h))) in
    let (file, in_step) = write_slots-file cache slots (write_slot s w) h4 in
    let more = slots_bytes (written_slots cache slots) in
    (
      file ∙ ap (λ f. f ++ more) (write_slot-file s w) ∙ append_assoc w.file (slot_bytes s) more,
      in_step,
    )

pub write_snapshot-print :
    (cfg : Config) (positions next_token : ℕ) (cache : List Slot)
    → 0 < positions
    → positions ≤ cfg.ctx_tokens
    → cfg.bytes_per_k_or_v ≤ u32_max
    → format_id cfg.kv_format ≢ 0
    → write_snapshot cfg positions next_token cache
      ≡ ok
          (print_snapshot cfg positions next_token (written_slots cache (slot_order cfg positions)))
unfolding write_snapshot
write_snapshot-print cfg positions next_token cache pos fits small known =
    let guard : (positions == 0 || ltb cfg.ctx_tokens positions || ltb u32_max cfg.bytes_per_k_or_v)
        ≡ false =
      ground (arith, pos, fits, small) in
    let known' : (format_id cfg.kv_format == 0) ≡ false = ground (arith, known) in
    let ss = written_slots cache (slot_order cfg positions) in
    let head = header_bytes cfg positions next_token in
    let started = emit head (record { file = []; hash = sha_init }) in
    let first = emit-InStep head (record { file = []; hash = sha_init }) init-HasTaken in
    let (file, in_step) = write_slots-file cache (slot_order cfg positions) started first in
    let digest =
      final-sha256 (write_slots cache (slot_order cfg positions) started).hash
        (write_slots cache (slot_order cfg positions) started).file in_step in
    rw (guard, known', write_snapshot) (ap ok (ap₂ ◌++◌ file (digest ∙ ap sha256 file)))
