-- ===== src/CallbackList.antt =====
-- kernel/sys/callback-list.{h,c}: tables of callbacks, in a build without DEBUG. An `assert` that
-- fails, and an access outside the table, are `none`.
pub mod Add
pub mod Clear
pub mod Process
mod Tests
use libyaul.Base.{
  ℕ, zero, suc, ◌+◌, ◌%◌, ◌≡◌, Bool, true, false, List, [], ◌∷◌, Option, none, some, ltb, ◌==◌,
  if◌then◌else◌, get_elem?, set, length,
}

-- `callback_handler`: the file's own `_default_handler`, or a function of the caller.
pub data Handler : Type 0 where
  default_handler : Handler
  user : ℕ → Handler

-- `callback_t`; `work` is an address, 0 for NULL.
pub record Callback : Type 0 where
  pub handler : Handler
  pub work : ℕ

-- `callback_list_t`
pub record CallbackList : Type 0 where
  pub callbacks : List Callback
  pub count : ℕ

-- `callback_init`, as the value that it stores.
abbrev pub unset : Callback
unset = record { handler = default_handler; work = 0 }

-- `callback_set`, as the value that it stores; no handler stands for NULL.
pub callback_set : Option Handler → ℕ → Callback
callback_set none work = record { handler = default_handler; work = work }
callback_set (some h) work = record { handler = h; work = work }

-- A write to `callbacks[id]`.
pub store : CallbackList → ℕ → Callback → Option CallbackList
store l id c =
    if ltb id (length l.callbacks)
    then some (record l { callbacks = set l.callbacks id c })
    else none

-- `callback_list_init`, over the array at `callbacks`, if that is not NULL.
pub init : Option (List Callback) → ℕ → Option CallbackList
init none count = none
init (some cs) count = if ltb 0 count then some (record { callbacks = cs; count = count }) else none

-- The loop of `callback_list_clear`, for the `n` slots from `i` on.
pub clear_from : ℕ → ℕ → CallbackList → Option CallbackList
clear_from zero i l = some l
clear_from (suc n) i l = elim (store l i unset) [ none ↦ none | some l' ↦ clear_from n (i + 1) l' ]

-- `callback_list_clear`
pub clear : CallbackList → Option CallbackList
clear l = if ltb 0 l.count then clear_from l.count 0 l else none

-- `callback_list_alloc`. What the two calls of `_internal_malloc` return comes as arguments: whether
-- there is room for the list, and the memory for the array.
pub alloc : ℕ → Bool → Option (List Callback) → Option CallbackList
alloc count room cells =
    if ltb 0 count
    then (if room then elim (init cells count) [ none ↦ none | some l ↦ clear l ] else none)
    else none

-- `callback_list_free`, up to the two calls of `_internal_free`.
pub free : CallbackList → CallbackList
free l = record l { count = 0 }

-- A slot that `callback_list_callback_add` may use.
pub is_default : Handler → Bool
is_default default_handler = true
is_default (user h) = false

-- The loop of `callback_list_callback_add`, at `id` with `n` slots to go. The result is the id, and
-- 255, which is -1 as a `callback_id_t`, if no slot is free.
pub add_from : ℕ → ℕ → CallbackList → Option Handler → ℕ → Option (ℕ × CallbackList)
unfolding is_default callback_set store
add_from zero id l h work = some (255, l)
add_from (suc n) id l h work =
    let rest = add_from n (id + 1) l h work in
    elim (get_elem? l.callbacks id) [
      | none ↦ none
      | some c ↦
          if is_default c.handler
          then elim (store l id (callback_set h work)) [ none ↦ none | some l' ↦ some (id, l') ]
          else rest
    ]

-- `callback_list_callback_add`
pub add : CallbackList → Option Handler → ℕ → Option (ℕ × CallbackList)
add l h work = add_from l.count 0 l h work

-- `callback_list_callback_remove`
pub remove : CallbackList → ℕ → Option CallbackList
unfolding store
remove l id = store l id unset

-- What `callback_call` passes on: a handler and its argument.
pub record Invocation : Type 0 where
  pub handler : Handler
  pub work : ℕ

-- `act h work l` is the list after the caller's function `h` ran: it may add and remove callbacks.
module _ (act : ℕ → ℕ → CallbackList → CallbackList) where
  -- `_default_handler` does nothing.
  pub invoke : Handler → ℕ → CallbackList → CallbackList
  invoke default_handler work l = l
  invoke (user h) work l = act h work l

  -- The loop of `callback_list_process` at `id`, for at most `fuel` rounds: the calls made, in order,
  -- and the list after them.
  pub process_from : ℕ → ℕ → Bool → CallbackList → Option (List Invocation × CallbackList)
  unfolding invoke
  process_from zero id clear l = if ltb id l.count then none else some ([], l)
  process_from (suc fuel) id clear l =
      if ltb id l.count
      then elim (get_elem? l.callbacks id) [
        | none ↦ none
        | some c ↦
            elim (process_from fuel (id + 1) clear (
              invoke c.handler c.work
                (if clear then record l { callbacks = set l.callbacks id unset } else l))) [
                  | none ↦ none
                  | some (calls, l') ↦
                      some (record { handler = c.handler; work = c.work } ∷ calls, l')
                ]
      ]
      else some ([], l)

  -- `callback_list_process`. An id is a `uint8_t` and a count is at most 255, so 255 rounds do.
  pub process : CallbackList → Bool → Option (List Invocation × CallbackList)
  process l clear = if ltb 0 l.count then process_from 255 0 clear l else none
