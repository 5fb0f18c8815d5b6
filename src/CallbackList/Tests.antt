-- ===== src/CallbackList/Tests.antt =====
-- kernel/sys/callback-list.c at small tables.
use libyaul.Base.{
  ℕ, ◌<◌, ◌≡◌, ◌↔◌, refl, List, [], ◌∷◌, Bool, Option, none, some, true, false, arith, length,
}
use libyaul.CallbackList.{
  default_handler, user, Callback, CallbackList, unset, Invocation, callback_set, store, is_default,
  add_from, add, remove, process_from, process, invoke, alloc,
}
use libyaul.CallbackList.Add.{IsValid, Added, Used, placed_at, add-Added, add-full_iff, remove-add}
use libyaul.CallbackList.Clear.{empty_table, alloc_lem}
use libyaul.CallbackList.Process.{Visited, inert, process-inert, process_total}

-- Slot 0 calls function 5 with 9; slot 1 is free.
abbrev half_used : CallbackList
half_used = record { callbacks = record { handler = user 5; work = 9 } ∷ unset ∷ []; count = 2 }

abbrev seven : Callback
seven = record { handler = user 7; work = 1 }

half_used-IsValid : IsValid half_used
half_used-IsValid = ground arith

add_takes_slot_1 : add half_used (some (user 7)) 1 ≡ some (1, placed_at half_used 1 seven)
unfolding add add_from is_default store callback_set
add_takes_slot_1 = refl

add-Added_example : Added half_used (some (user 7)) 1 0 2 (add half_used (some (user 7)) 1)
add-Added_example = add-Added half_used (some (user 7)) 1 half_used-IsValid

add-full_iff_example :
    (add half_used (some (user 7)) 1 ≡ some (255, half_used)) ↔ ((j : ℕ) → j < 2 → Used half_used j)
add-full_iff_example = add-full_iff half_used (some (user 7)) 1 half_used-IsValid

remove-add_example : remove (placed_at half_used 1 seven) 1 ≡ some (placed_at half_used 1 unset)
remove-add_example =
    remove-add half_used (placed_at half_used 1 seven) (some (user 7)) 1 1 half_used-IsValid
      add_takes_slot_1 (omega arith)

alloc_lem_example :
    ((0 < 2)
      → (alloc 2 true (some (seven ∷ seven ∷ [])) ≡ some (empty_table 2)) × IsValid (empty_table 2))
    × ((room : Bool) → alloc 2 room none ≡ none)
    × ((memory : Option (List Callback)) → alloc 2 false memory ≡ none)
    × ((room : Bool) (memory : Option (List Callback)) → alloc 0 room memory ≡ none)
alloc_lem_example = alloc_lem 2 (seven ∷ seven ∷ []) refl (omega arith)

-- A function that takes its neighbour's slot when it is called.
abbrev takes_slot_1 : ℕ → ℕ → CallbackList → CallbackList
takes_slot_1 h work l = elim l.callbacks [
  | [] ↦ l
  | x ∷ [] ↦ l
  | x ∷ y ∷ r ↦ record l { callbacks = x ∷ seven ∷ r }
]

takes_slot_1-keeps :
    (h work : ℕ) (l : CallbackList)
    → ((takes_slot_1 h work l).count ≡ l.count)
      × (length (takes_slot_1 h work l).callbacks ≡ length l.callbacks)
takes_slot_1-keeps h work l = ground arith

process_total_example :
    (calls : List Invocation) × (l' : CallbackList) × (process takes_slot_1 half_used true
      ≡ some (calls, l'))
    × (length calls ≡ 2)
    × IsValid l'
    × Visited takes_slot_1 true 0 half_used calls l'
process_total_example =
    process_total takes_slot_1 takes_slot_1-keeps half_used true half_used-IsValid

process-inert_example :
    process inert half_used true
    ≡ some (
      record { handler = user 5; work = 9 } ∷ record { handler = default_handler; work = 0 } ∷ [],
      record { callbacks = unset ∷ unset ∷ []; count = 2 },
    )
process-inert_example = process-inert half_used true half_used-IsValid

-- A function called early may fill a later slot, which the same pass then calls.
filled_during_pass :
    process takes_slot_1 half_used false
    ≡ some (
      record { handler = user 5; work = 9 } ∷ record { handler = user 7; work = 1 } ∷ [],
      placed_at half_used 1 seven,
    )
unfolding process process_from invoke
filled_during_pass = refl
