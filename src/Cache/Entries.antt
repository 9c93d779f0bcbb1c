-- ===== src/Cache/Entries.antt =====
-- src/qx_expert_cache.c: the functions on the LRU list, through a split of the list at one entry.
use mathlib.Core.List.{append_assoc}
use qx_mini_c.Prelude.{
  ℕ, ◌+◌, ◌≤◌, ◌≡◌, refl, ap, ◌≢◌, inl, inr, true, false, List, [], ◌∷◌, ◌++◌, none, some, ◌==◌,
  bit, Bool-cases, All, arith, length, suc,
}
use qx_mini_c.Cache.{Key, Entry, key_equal, find, victim, unlink, mru, promote, set_pin_count}

-- The bytes that the entries hold.
abbrev pub resident : List Entry → ℕ
resident [] = 0
resident (e ∷ es) = e.key.slice_bytes + resident es

-- How often an address is that of an entry or of its buffer.
abbrev pub held_by : Entry → ℕ → ℕ
held_by e p = bit (e.addr == p) + bit (e.buf == p)

abbrev pub held : List Entry → ℕ → ℕ
held [] p = 0
held (e ∷ es) p = held_by e p + held es p

abbrev pub IsPinned : Entry → Type 0
IsPinned e = e.pin_count ≢ 0

pub resident-append : (xs ys : List Entry) → resident (xs ++ ys) ≡ resident xs + resident ys
resident-append [] ys = omega arith
resident-append (x ∷ xs) ys = omega (arith, resident-append xs ys)

pub held-append : (xs ys : List Entry) (p : ℕ) → held (xs ++ ys) p ≡ held xs p + held ys p
held-append [] ys p = omega arith
held-append (x ∷ xs) ys p = omega (arith, held-append xs ys p)

-- `e` stands in `es`, behind `pre` and before `post`.
pub record Split (es : List Entry) (e : Entry) : Type 0 where
  pub pre : List Entry
  pub post : List Entry
  pub split : es ≡ pre ++ (e ∷ post)

pub find-Split :
    (k : Key) (es : List Entry) {e : Entry}
    → find k es ≡ some e
    → Split es e × (key_equal e.key k ≡ true)
unfolding find
find-Split k [] h = cc
find-Split k (x ∷ es) h = elim (Bool-cases (key_equal x.key k)) [
  | inl same ↦ (record { pre = []; post = es; split = ground arith }, ground arith)
  | inr other ↦
      let (s, t) = find-Split k es (ground arith) in
      (record { pre = x ∷ s.pre; post = s.post; split = ap (◌∷◌ x) s.split }, t)
]

-- The victim is the first entry that is not pinned.
pub victim-Split :
    (es : List Entry) {e : Entry}
    → victim es ≡ some e
    → (s : Split es e) × All IsPinned s.pre × (e.pin_count ≡ 0)
unfolding victim
victim-Split [] h = cc
victim-Split (x ∷ es) h = elim (Bool-cases (x.pin_count == 0)) [
  | inl free ↦ (record { pre = []; post = es; split = ground arith }, tt, ground arith)
  | inr pinned ↦
      let (s, before, idle) = victim-Split es (ground arith) in
      (
        record { pre = x ∷ s.pre; post = s.post; split = ap (◌∷◌ x) s.split },
        (ground arith, before),
        idle,
      )
]

-- There is none only if all are pinned.
pub victim-none : (es : List Entry) → victim es ≡ none → All IsPinned es
unfolding victim
victim-none [] h = tt
victim-none (x ∷ es) h = (ground arith, victim-none es (ground arith))

-- To unlink the victim shortens the list.
pub length-unlink-victim :
    (es : List Entry) (e : Entry) → victim es ≡ some e → suc (length (unlink e.addr es)) ≡ length es
unfolding victim unlink
length-unlink-victim [] e h = cc
length-unlink-victim (x ∷ es) e h = ground (arith, length-unlink-victim es e)

addr_held : (pre post : List Entry) (e : Entry) → 1 ≤ held (pre ++ (e ∷ post)) e.addr
addr_held pre post e = ground (arith, held-append pre (e ∷ post) e.addr)

-- At an address that is held once, `unlink` takes out the entry that stands there.
pub unlink_split :
    (pre post : List Entry) (e : Entry)
    → held (pre ++ (e ∷ post)) e.addr ≤ 1
    → unlink e.addr (pre ++ (e ∷ post)) ≡ pre ++ post
unfolding unlink
unlink_split [] post e h = ground arith
unlink_split (x ∷ pre) post e h = ground (arith, addr_held pre post e, unlink_split pre post e)

pub unlinked :
    {es : List Entry} {e : Entry} (s : Split es e)
    → ((p : ℕ) → held es p ≤ 1)
    → unlink e.addr es ≡ s.pre ++ s.post
unlinked {es} {e} s h = rw s.split (unlink_split s.pre s.post e (rw s.split at (h e.addr)))

pub set_pin_count_split :
    (pre post : List Entry) (e : Entry) (n : ℕ)
    → held (pre ++ (e ∷ post)) e.addr ≤ 1
    → set_pin_count e.addr n (pre ++ (e ∷ post)) ≡ pre ++ (record e { pin_count = n } ∷ post)
unfolding set_pin_count
set_pin_count_split [] post e n h = ground arith
set_pin_count_split (x ∷ pre) post e n h =
    ground (arith, addr_held pre post e, set_pin_count_split pre post e n)

mru-append : (ys es : List Entry) (x : Entry) → mru (ys ++ (x ∷ es)) ≡ mru (x ∷ es)
unfolding mru
mru-append [] es x = refl
mru-append (y ∷ []) es x = refl
mru-append (y ∷ z ∷ ys) es x = mru-append (z ∷ ys) es x

held-mru : (es : List Entry) (x : Entry) → 1 ≤ held (x ∷ es) (mru (x ∷ es))
unfolding mru
held-mru [] x = ground arith
held-mru (y ∷ es) x = omega (arith, held-mru es y)

-- An entry that others follow is not at the end.
mru_of_split :
    (pre post : List Entry) (e x : Entry)
    → ((p : ℕ) → held (pre ++ (e ∷ x ∷ post)) p ≤ 1)
    → (mru (pre ++ (e ∷ x ∷ post)) == e.addr) ≡ false
mru_of_split pre post e x h = ground (
  arith,
  mru-append pre (x ∷ post) e,
  mru-append (e ∷ []) post x,
  held-mru post x,
  held-append pre (e ∷ x ∷ post) e.addr,
  h e.addr,
)

-- `promote` moves an entry to the end of the list, whether or not it stands there.
pub promote_split :
    (pre post : List Entry) (e : Entry)
    → ((p : ℕ) → held (pre ++ (e ∷ post)) p ≤ 1)
    → promote e (pre ++ (e ∷ post)) ≡ pre ++ (post ++ (e ∷ []))
unfolding promote
promote_split pre [] e h = ground (arith, mru-append pre [] e)
promote_split pre (x ∷ post) e h =
    rw (mru_of_split pre post e x h, unlink_split pre (x ∷ post) e (h e.addr))
      (append_assoc pre (x ∷ post) (e ∷ []))

-- A pinned and promoted entry stands at the end, with its new pin count.
pub promoted :
    {es : List Entry} {e : Entry} (s : Split es e) (n : ℕ)
    → ((p : ℕ) → held es p ≤ 1)
    → promote (record e { pin_count = n }) (set_pin_count e.addr n es)
      ≡ s.pre ++ (s.post ++ (record e { pin_count = n } ∷ []))
promoted {es} {e} s n h =
    let e' : Entry = record e { pin_count = n } in
    rw (s.split, set_pin_count_split s.pre s.post e n (rw s.split at (h e.addr)))
      (promote_split s.pre s.post e' (λ p. omega (
        arith,
        held-append s.pre (e ∷ s.post) p,
        held-append s.pre (e' ∷ s.post) p,
        rw s.split at (h p),
      )))
