-- ===== src/Cache.antt =====
-- src/qx_expert_cache.c and src/qx_expert_cache.h: the budget-capped LRU of packed expert bytes.
-- This file has the structs, the functions on the LRU list, and the operations.
--
-- A pointer is a number, 0 for NULL. The doubly linked list from `lru` to `mru` is the list of
-- its entries in that order. The caller's allocator and
-- reader are the parameter `Ops`, over a context of a type that the cache does not know.
pub mod Operations
pub mod Entries
pub mod Memory
pub mod Invariant
pub mod Hits
pub mod Eviction
pub mod Misses
pub mod Acquire
pub mod History
pub mod Contents
pub mod Grants
pub mod Lending
pub mod Pins
pub mod Lru
mod Tests
use qx_mini_c.Prelude.{
  ℕ, ◌-◌, Bool, true, false, not, ◌&&◌, ◌||◌, List, [], ◌∷◌, ◌++◌, Option, none, some, ltb, ◌==◌,
  if◌then◌else◌, length, u64_max, add64,
}

pub record Key : Type 0 where
  pub tensor_offset : ℕ
  pub slice_offset : ℕ
  pub slice_bytes : ℕ
  pub expert : ℕ
  pub reserved : ℕ

-- `struct qx_expert_cache_entry` at the address `addr`; `buf` is its pointer `data`, and `bytes`
-- what the buffer there holds.
pub record Entry : Type 0 where
  pub addr : ℕ
  pub key : Key
  pub buf : ℕ
  pub bytes : List ℕ
  pub pin_count : ℕ

pub record Counters : Type 0 where
  pub requests : ℕ
  pub hits : ℕ
  pub misses : ℕ
  pub loads : ℕ
  pub evictions : ℕ
  pub current_resident_packed_bytes : ℕ
  pub peak_resident_packed_bytes : ℕ
  pub buffered_bytes_read : ℕ
  pub buffered_bytes_avoided : ℕ

-- `self` is the address of the object; `entries` runs from `lru` to `mru`.
pub record Cache : Type 0 where
  pub self : ℕ
  pub budget_bytes : ℕ
  pub counters : Counters
  pub entries : List Entry
  pub initialized : Bool

pub record Borrow : Type 0 where
  pub buf : ℕ
  pub size : ℕ
  pub entry : ℕ
  pub owner : ℕ

-- What `read_exact` returns, reports and writes.
pub record ReadResult : Type 0 where
  pub read_ok : Bool
  pub actual_read : ℕ
  pub bytes : List ℕ

-- `qx_expert_cache_ops` with its context: `alloc` takes a size and returns an address, `read_exact`
-- takes an offset, a destination and a size.
pub record Ops (C : Type 0) : Type 0 where
  pub alloc : C → ℕ → ℕ × C
  pub free : C → ℕ → C
  pub read_exact : C → ℕ → ℕ → ℕ → ReadResult × C

-- One constructor for each message.
pub data Error : Type 0 where
  budget_not_positive invalid_operations not_initialized invalid_borrow invalid_key : Error
  offset_overflow exceeds_address_space counter_overflow pin_count_overflow : Error
  exceeds_budget blocked_by_pinned metadata_allocation packed_allocation : Error
  read_failed truncated_read : Error

-- `stuck` is no value of the C function: a loop of the model ran out of fuel.
pub data Outcome : Type 0 where
  ok : Borrow → Outcome
  fail : Error → Outcome
  stuck : Outcome

pub record World (C : Type 0) : Type 0 where
  pub cache : Cache
  pub ctx : C

abbrev pub zero_counters : Counters
zero_counters = record {
  requests = 0;
  hits = 0;
  misses = 0;
  loads = 0;
  evictions = 0;
  current_resident_packed_bytes = 0;
  peak_resident_packed_bytes = 0;
  buffered_bytes_read = 0;
  buffered_bytes_avoided = 0;
}

-- The object after `memset`.
abbrev pub zero_cache : ℕ → Cache
zero_cache self = record {
  self = self;
  budget_bytes = 0;
  counters = zero_counters;
  entries = [];
  initialized = false;
}

abbrev pub zero_borrow : Borrow
zero_borrow = record { buf = 0; size = 0; entry = 0; owner = 0 }

-- `qx_expert_cache_add`.
unfoldable pub checked_add : ℕ → ℕ → Option ℕ
checked_add left right = if ltb (u64_max - right) left then none else some (add64 left right)

unfoldable pub key_equal : Key → Key → Bool
key_equal left right =
    left.tensor_offset == right.tensor_offset
    && left.slice_offset == right.slice_offset
    && left.slice_bytes == right.slice_bytes
    && left.expert == right.expert

-- The walk from `lru` for a key.
unfoldable pub find : Key → List Entry → Option Entry
find k [] = none
find k (e ∷ es) = if key_equal e.key k then some e else find k es

-- The walk from `lru` past the pinned entries.
unfoldable pub victim : List Entry → Option Entry
victim [] = none
victim (e ∷ es) = if e.pin_count == 0 then some e else victim es

-- `qx_expert_cache_unlink`.
unfoldable pub unlink : ℕ → List Entry → List Entry
unlink a [] = []
unlink a (e ∷ es) = if e.addr == a then es else e ∷ unlink a es

unfoldable pub append_mru : Entry → List Entry → List Entry
append_mru e es = es ++ (e ∷ [])

-- The pointer `mru`.
unfoldable pub mru : List Entry → ℕ
mru [] = 0
mru (e ∷ []) = e.addr
mru (e ∷ f ∷ es) = mru (f ∷ es)

unfoldable pub promote : Entry → List Entry → List Entry
unfolding unlink append_mru mru
promote e es = if mru es == e.addr then es else append_mru e (unlink e.addr es)

-- The entry at an address gets another pin count.
unfoldable pub set_pin_count : ℕ → ℕ → List Entry → List Entry
set_pin_count a n [] = []
set_pin_count a n (e ∷ es) =
    if e.addr == a then record e { pin_count = n } ∷ es else e ∷ set_pin_count a n es

-- The walk of `qx_expert_cache_release`.
unfoldable pub unpin : ℕ → List Entry → List Entry
unpin a [] = []
unpin a (e ∷ es) =
    if e.addr == a
    then (if e.pin_count == 0 then e else record e { pin_count = e.pin_count - 1 }) ∷ es
    else e ∷ unpin a es

abbrev pub borrow_of : Cache → Entry → Borrow
borrow_of c e = record { buf = e.buf; size = e.key.slice_bytes; entry = e.addr; owner = c.self }

-- The guards of `qx_expert_cache_acquire` above its first loop; `given` says that the caller's
-- pointer `borrow` is not NULL.
unfoldable pub check_request : Cache → Key → Bool → Option Error
unfolding checked_add
check_request c key given =
    if not c.initialized
    then some not_initialized
    else if not given
    then some invalid_borrow
    else if not (key.reserved == 0) || key.slice_bytes == 0
    then some invalid_key
    else elim (checked_add key.tensor_offset key.slice_offset) [
      | none ↦ some offset_overflow
      | some absolute ↦ elim (checked_add absolute key.slice_bytes) [
        | none ↦ some offset_overflow
        | some _ ↦ if ltb u64_max key.slice_bytes then some exceeds_address_space else none
      ]
    ]

-- The body of the first loop, at the entry that it finds.
unfoldable pub hit : Cache → Key → Entry → Cache × Outcome
unfolding checked_add set_pin_count promote
hit c key e =
    if c.counters.requests == u64_max || c.counters.hits == u64_max
    then (c, fail counter_overflow)
    else elim (checked_add c.counters.buffered_bytes_avoided key.slice_bytes) [
      | none ↦ (c, fail counter_overflow)
      | some next_value ↦
          let counted : Cache = record c {
            counters = record (c.counters) {
              requests = add64 c.counters.requests 1;
              hits = add64 c.counters.hits 1;
              buffered_bytes_avoided = next_value;
            };
          } in
          if e.pin_count == u64_max then (counted, fail pin_count_overflow) else (
            record counted {
              entries =
                  promote (record e { pin_count = add64 e.pin_count 1 })
                    (set_pin_count e.addr (add64 e.pin_count 1) c.entries);
            },
            ok (borrow_of c e),
          )
    ]
