-- ===== src/CallbackList/Clear.antt =====
-- kernel/sys/callback-list.c: making, clearing and freeing a table.
use libyaul.Base.{
  ℕ, zero, suc, ◌+◌, ◌≤◌, ◌<◌, ◌≡◌, refl, ap, ◌∙◌, Bool, true, false, List, [], ◌∷◌, ◌++◌,
  length-append, length-replicate, Option, none, some, arith, set, length, replicate, lt→ltb,
}
use libyaul.CallbackList.{Callback, CallbackList, unset, init, clear_from, clear, alloc}
use mathlib.Core.List.{append-nil}
use native.Mathlib.Nat.{add-zero, zero-add}
use native.Mathlib.Numerals.{add-one}
use libyaul.CallbackList.Add.{IsValid, store_lem, placed_at}

set-replicate {ℓ} :
    {A : Type ℓ} (a x : A) (i : ℕ) (r : List A)
    → set (replicate i a ++ (x ∷ r)) i a ≡ replicate (suc i) a ++ r
set-replicate a x zero r = refl
set-replicate a x (suc i) r = ap (◌∷◌ a) (set-replicate a x i r)

-- After `i` rounds of the clearing loop the first `i` slots are empty.
clear_from_lem :
    (n i : ℕ) (rest : List Callback) (l : CallbackList)
    → length rest ≡ n
    → l.callbacks ≡ replicate i unset ++ rest
    → clear_from n i l ≡ some (record l { callbacks = replicate (i + n) unset })
unfolding clear_from
clear_from_lem zero i [] l e q = rw (add-zero, q, append-nil)
clear_from_lem zero i (x ∷ r) l e q = absurd (omega arith)
clear_from_lem (suc n) i [] l e q = absurd (omega arith)
clear_from_lem (suc n) i (x ∷ r) l e q =
    let room : i < length l.callbacks =
      omega
        (arith, ap length q, length-append (replicate i unset) (x ∷ r), length-replicate i unset) in
    let next : set l.callbacks i unset ≡ replicate (suc i) unset ++ r =
      rw q (set-replicate unset x i r) in
    let more : i + suc n ≡ suc i + n = omega arith in
    rw (store_lem l i unset room, clear_from)
      (rw (add-one, more) (clear_from_lem n (suc i) r (placed_at l i unset) (omega arith) next))

-- `callback_list_clear` empties each slot of a valid table.
pub clear_lem :
    (l : CallbackList)
    → IsValid l
    → clear l ≡ some (record l { callbacks = replicate l.count unset })
unfolding clear
clear_lem l v =
    rw (lt→ltb 0 l.count v.some_slots)
      (clear_from_lem l.count 0 l.callbacks l v.slots refl ∙ rw zero-add)

-- A table of `count` empty slots.
abbrev pub empty_table : ℕ → CallbackList
empty_table count = record { callbacks = replicate count unset; count = count }

pub empty_table-IsValid : (count : ℕ) → 0 < count → count ≤ 255 → IsValid (empty_table count)
empty_table-IsValid count p h = record {
  slots = length-replicate count unset;
  some_slots = p;
  id_range = h;
}

-- `callback_list_alloc`, given memory for the list and for `count` callbacks, returns a valid table
-- of empty slots, whatever the memory held; it aborts if the count is 0 or memory is refused.
pub alloc_lem :
    (count : ℕ) (cells : List Callback)
    → length cells ≡ count
    → count ≤ 255
    → ((0 < count)
        → (alloc count true (some cells) ≡ some (empty_table count)) × IsValid (empty_table count))
      × ((room : Bool) → alloc count room none ≡ none)
      × ((memory : Option (List Callback)) → alloc count false memory ≡ none)
      × ((room : Bool) (memory : Option (List Callback)) → alloc 0 room memory ≡ none)
unfolding alloc init
alloc_lem count cells e h = (
  λ p. (
    rw (lt→ltb 0 count p) (
        (clear_lem (record { callbacks = cells; count = count })
          (record { slots = e; some_slots = p; id_range = h }))),
    empty_table-IsValid count p h,
  ),
  λ room. ground arith,
  λ memory. ground arith,
  λ room memory. refl,
)
