-- ===== src/Snapshot/RoundTrip.antt =====
-- src/qx_format.c: a snapshot that is written and read.
use qx_mini_c.Prelude.{
  ℕ, ◌/◌, ◌%◌, ◌≤◌, ◌<◌, ◌≡◌, ◌≢◌, refl, ap, ◌∙◌, Bool, ◌&&◌, List, length, get_or, All, IsU32, ltb,
  if◌then◌else◌, u32_max, arith,
}
use qx_mini_c.Prelude.Results.{ok}
use qx_mini_c.Snapshot.{
  Config, Slot, Restored, blank, format_id, slot_order, write_snapshot, read_snapshot,
}
use qx_mini_c.Snapshot.Order.{has-slot_order, store-written}
use qx_mini_c.Snapshot.Print.{print_snapshot, IsConfig, IsStored, store}
use qx_mini_c.Snapshot.Read.{read_snapshot-print}
use qx_mini_c.Snapshot.Written.{written_slots, length-written_slots, write_snapshot-print}

-- When a cache can be written.
pub record IsWritable (cfg : Config) (positions next_token : ℕ) (cache : List Slot) : Type 0 where
  pub config : IsConfig cfg
  pub some_positions : 0 < positions
  pub fits : positions ≤ cfg.ctx_tokens
  pub known_format : format_id cfg.kv_format ≢ 0
  pub token : IsU32 next_token
  pub stored : All (IsStored cfg) (written_slots cache (slot_order cfg positions))

-- Whether a slot belongs to one of the layers and to one of the positions that are written.
abbrev pub is_written : Config → ℕ → ℕ → Bool
is_written cfg positions slot =
    ltb (slot / cfg.ctx_tokens) cfg.layers && ltb (slot % cfg.ctx_tokens) positions

-- With numbers of 32 bits, 1 to ctx_tokens positions, a known format, and slots to write that have
-- the right sizes and good scales: the write succeeds, and the file is read into any other cache.
-- The positions and the next token come back, and a slot of that cache has the value that was
-- written if it belongs to the layers and positions written, and else the one it had.
pub read_snapshot-write_snapshot :
    (cfg : Config) (positions next_token : ℕ) (cache old : List Slot) (slot : ℕ)
    → IsWritable cfg positions next_token cache
    → slot < length old
    → (file : List ℕ) × (restored : Restored) × (write_snapshot cfg positions next_token cache
        ≡ ok file)
      × (read_snapshot cfg old file ≡ ok restored)
      × (restored.positions ≡ positions)
      × (restored.next_token ≡ next_token)
      × (get_or restored.cache slot blank ≡ (
          if is_written cfg positions slot then get_or cache slot blank else get_or old slot blank))
read_snapshot-write_snapshot cfg positions next_token cache old slot h inside =
    let slots = slot_order cfg positions in
    let word = h.config.bytes in
    let bytes : cfg.bytes_per_k_or_v ≤ u32_max = omega (arith, word) in
    let ss = written_slots cache slots in
    let file = print_snapshot cfg positions next_token ss in
    let restored : Restored = record {
      cache = store slots ss old;
      positions = positions;
      next_token = next_token;
    } in
    (
      file,
      restored,
      write_snapshot-print cfg positions next_token cache h.some_positions h.fits bytes
          h.known_format,
      read_snapshot-print cfg old positions next_token ss h.config (record {
        some_positions = h.some_positions;
        fits = h.fits;
        token = h.token;
        size = length-written_slots cache slots;
        stored = h.stored;
      }),
      refl,
      refl,
      store-written cache old slots slot inside
          ∙ ap (λ b. if b then get_or cache slot blank else get_or old slot blank)
              (has-slot_order cfg positions slot h.some_positions h.fits),
    )
