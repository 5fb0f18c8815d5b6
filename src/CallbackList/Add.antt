-- ===== src/CallbackList/Add.antt =====
-- kernel/sys/callback-list.c: adding and removing callbacks.
use libyaul.Base.{
  ℕ, zero, suc, ◌+◌, ◌≤◌, ◌<◌, ◌≡◌, ◌≢◌, ◌↔◌, refl, ap, ◌∙◌, inl, inr, true, false, Option, some,
  arith, get_elem?, set, length, length-set, get_elem?-lt, set-set, lt→ltb, Bool-cases,
}
use native.Mathlib.Decide.{dec_lt}
use libyaul.CallbackList.{
  Handler, Callback, CallbackList, unset, callback_set, store, is_default, add_from, add, remove,
}

-- A table as `callback_list_alloc` makes it: its array has `count` slots.
pub record IsValid (l : CallbackList) : Type 0 where
  pub slots : length l.callbacks ≡ l.count
  pub some_slots : 0 < l.count
  pub id_range : l.count ≤ 255

-- Slot `j` holds a function of the caller.
abbrev pub Used : CallbackList → ℕ → Type 0
Used l j = (c : Callback) × (get_elem? l.callbacks j ≡ some c) × (is_default c.handler ≡ false)

-- Slot `j` is free.
abbrev pub Unused : CallbackList → ℕ → Type 0
Unused l j = (c : Callback) × (get_elem? l.callbacks j ≡ some c) × (is_default c.handler ≡ true)

-- The table with `c` in slot `i`.
abbrev pub placed_at : CallbackList → ℕ → Callback → CallbackList
placed_at l i c = record l { callbacks = set l.callbacks i c }

-- The two outcomes of a search for a free slot among `id .. top - 1`.
pub data Added (l : CallbackList) (h : Option Handler) (work id top : ℕ)
    (r : Option (ℕ × CallbackList)) : Type 0 where
  placed :
      (i : ℕ)
      → id ≤ i
      → i < top
      → Unused l i
      → ((j : ℕ) → id ≤ j → j < i → Used l j)
      → r ≡ some (i, placed_at l i (callback_set h work))
      → Added l h work id top r
  full : ((j : ℕ) → id ≤ j → j < top → Used l j) → r ≡ some (255, l) → Added l h work id top r

pub store_lem :
    (l : CallbackList) (i : ℕ) (c : Callback)
    → i < length l.callbacks
    → store l i c ≡ some (placed_at l i c)
unfolding store
store_lem l i c h = rw (lt→ltb i (length l.callbacks) h)

module _ (l : CallbackList) (h : Option Handler) (work top : ℕ)
    (within : top ≤ length l.callbacks) where
  -- A slot in use is passed over.
  pass :
      (id : ℕ)
      → Used l id
      → {r : Option (ℕ × CallbackList)} → Added l h work (id + 1) top r
      → Added l h work id top r
  pass id u (placed i a b free below e) =
      placed i (omega arith) b free
        (λ j p q. elim (dec_lt id j) [
          | yes more ↦ below j (omega arith) q
          | no not ↦ let same : j ≡ id = omega arith in rw same u
        ])
        e
  pass id u (full all e) =
      full
        (λ j p q. elim (dec_lt id j) [
          | yes more ↦ all j (omega arith) q
          | no not ↦ let same : j ≡ id = omega arith in rw same u
        ])
        e

  add_from-Added : (n id : ℕ) → id + n ≡ top → Added l h work id top (add_from n id l h work)
  unfolding add_from
  add_from-Added zero id e = full (λ j p q. absurd (omega arith)) refl
  add_from-Added (suc n) id e =
      go (add_from-Added n (id + 1) (omega arith)) (get_elem?-lt l.callbacks id (omega arith))
    where
      go :
          Added l h work (id + 1) top (add_from n (id + 1) l h work)
          → (c : Callback) × (get_elem? l.callbacks id ≡ some c)
          → Added l h work id top (add_from (suc n) id l h work)
      go ih (c, g) = elim (Bool-cases (is_default c.handler)) [
        | inl free ↦
            placed id (omega arith) (omega arith) (c, g, free) (λ j p q. absurd (omega arith))
              (rw (g, add_from) (rw free (rw (store_lem l id (callback_set h work) (omega arith)))))
        | inr used ↦ rw (g, add_from) (rw used (pass id (c, g, used) ih))
      ]

-- `callback_list_callback_add` of a valid table takes the first free slot and returns its id; if
-- every slot is in use it returns 255 and changes nothing.
pub add-Added :
    (l : CallbackList) (h : Option Handler) (work : ℕ)
    → IsValid l
    → Added l h work 0 l.count (add l h work)
unfolding add
add-Added l h work v =
    add_from-Added l h work l.count (omega (arith, v.slots)) l.count 0 (omega arith)

-- `callback_list_callback_add` of a valid table returns 255, which is its -1, exactly if every slot
-- is in use; the table is then unchanged.
pub add-full_iff :
    (l : CallbackList) (h : Option Handler) (work : ℕ)
    → IsValid l
    → (add l h work ≡ some (255, l)) ↔ ((j : ℕ) → j < l.count → Used l j)
add-full_iff l h work v = elim (add-Added l h work v) [
  | placed i a b free below e ↦ (
    λ q. absurd (omega (arith, v.id_range, ids_differ i e q)),
    λ all. absurd (clash i free (all i b)),
  )
  | full all e ↦ (λ q j p. all j (omega arith) p, λ q. e)
]
  where
    ids_differ :
        (i : ℕ)
        → add l h work ≡ some (i, placed_at l i (callback_set h work))
        → add l h work ≡ some (255, l)
        → i ≡ 255
    ids_differ i e q = ground arith

    clash : (i : ℕ) → Unused l i → Used l i → ⊥
    clash i (c, g, f) (d, k, u) = ground arith

-- Removing at the id that `callback_list_callback_add` of a valid table returned, unless that was
-- 255, empties that slot and leaves every other slot as it was before the addition.
pub remove-add :
    (l l' : CallbackList) (h : Option Handler) (work i : ℕ)
    → IsValid l
    → add l h work ≡ some (i, l')
    → i ≢ 255
    → remove l' i ≡ some (placed_at l i unset)
unfolding remove
remove-add l l' h work i v e ne = elim (add-Added l h work v) [
  | placed j a b free below q ↦
      let id : i ≡ j = ground arith in
      let table : l' ≡ placed_at l j (callback_set h work) = ground arith in
      rw (id, table)
        (store_lem (placed_at l j (callback_set h work)) j unset
            (omega (arith, length-set l.callbacks j (callback_set h work), v.slots))
          ∙ ap (λ cs. some (record l { callbacks = cs }))
              (set-set l.callbacks j (callback_set h work) unset))
  | full all q ↦ absurd (ne (ground arith))
]
