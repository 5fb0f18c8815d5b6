-- ===== src/CallbackList/Process.antt =====
-- kernel/sys/callback-list.c: `callback_list_process`.
use libyaul.Base.{
  ℕ, zero, suc, ◌+◌, ◌≤◌, ◌<◌, ◌≡◌, refl, ap, sym, length-append, ◌∙◌, Bool, true, false, List, [],
  ◌∷◌, ◌++◌, map, some, arith, ltb, if◌then◌else◌, get_elem?, set, length, length-set, replicate,
  get_elem?-lt, lt→ltb, le→not-ltb, Bool-cases, inl, inr,
}
use mathlib.Core.List.{append-nil, append_assoc}
use libyaul.CallbackList.{
  Handler, default_handler, user, Callback, CallbackList, unset, Invocation, invoke, process_from,
  process,
}
use libyaul.CallbackList.Add.{IsValid}

-- What a slot asks for.
abbrev pub to_invocation : Callback → Invocation
to_invocation c = record { handler = c.handler; work = c.work }

-- The callers' functions may change the slots of the table, and not its size.
abbrev pub KeepsSize : (ℕ → ℕ → CallbackList → CallbackList) → Type 0
KeepsSize act =
    (h work : ℕ) (l : CallbackList)
    → ((act h work l).count ≡ l.count) × (length (act h work l).callbacks ≡ length l.callbacks)

-- The table as a callback finds it.
abbrev before_call : Bool → CallbackList → ℕ → CallbackList
before_call clear l id = if clear then record l { callbacks = set l.callbacks id unset } else l

before_call_keeps :
    (clear : Bool) (l : CallbackList) (id : ℕ)
    → ((before_call clear l id).count ≡ l.count)
      × (length (before_call clear l id).callbacks ≡ length l.callbacks)
before_call_keeps true l id = (refl, length-set l.callbacks id unset)
before_call_keeps false l id = (refl, refl)

-- The table after the call of what a slot held.
abbrev after_call :
    (ℕ → ℕ → CallbackList → CallbackList) → Bool → CallbackList → ℕ → Callback → CallbackList
after_call act clear l id c = invoke act c.handler c.work (before_call clear l id)

-- The calls of the slots from `id` on, each of what its slot holds when its turn comes; between
-- two calls the table changes by the call, and before each by the emptying of the slot if it is
-- asked for. The tables are that before the calls and that after them.
pub data Visited (act : ℕ → ℕ → CallbackList → CallbackList) (clear : Bool)
    : ℕ → CallbackList → List Invocation → CallbackList → Type 0 where
  all_visited : {id : ℕ} {l : CallbackList} → l.count ≤ id → Visited act clear id l [] l
  visit :
      {id : ℕ} {l l' : CallbackList} {c : Callback} {calls : List Invocation}
      → id < l.count
      → get_elem? l.callbacks id ≡ some c
      → Visited act clear (id + 1) (after_call act clear l id c) calls l'
      → Visited act clear id l (to_invocation c ∷ calls) l'

module _ (act : ℕ → ℕ → CallbackList → CallbackList) (keeps : KeepsSize act) where
  invoke_keeps :
      (h : Handler) (work : ℕ) (l : CallbackList)
      → ((invoke act h work l).count ≡ l.count)
        × (length (invoke act h work l).callbacks ≡ length l.callbacks)
  unfolding invoke
  invoke_keeps default_handler work l = (refl, refl)
  invoke_keeps (user h) work l = keeps h work l

  process_from_total :
      (fuel id : ℕ) (clear : Bool) (l : CallbackList)
      → l.count ≡ length l.callbacks
      → id ≤ l.count
      → l.count ≤ id + fuel
      → (calls : List Invocation) × (l' : CallbackList) × (process_from act fuel id clear l
          ≡ some (calls, l'))
        × (id + length calls ≡ l.count)
        × (l'.count ≡ l.count)
        × (length l'.callbacks ≡ length l.callbacks)
        × Visited act clear id l calls l'
  unfolding process_from
  process_from_total zero id clear l e a b = (
    [],
    l,
    rw (le→not-ltb id l.count (omega arith)),
    omega arith,
    refl,
    refl,
    Visited.all_visited (omega arith),
  )
  process_from_total (suc fuel) id clear l e a b = elim (Bool-cases (ltb id l.count)) [
    | inr over ↦ ([], l, rw over, ground arith, refl, refl, Visited.all_visited (ground arith))
    | inl more ↦
        let (c, g) = get_elem?-lt l.callbacks id (ground arith) in
        let (k, s) = before_call_keeps clear l id in
        let (k', s') = invoke_keeps c.handler c.work (before_call clear l id) in
        let (calls, l', q, n, m, w, x) =
          process_from_total fuel (id + 1) clear
            (invoke act c.handler c.work (before_call clear l id)) (omega arith) (ground arith)
            (omega arith) in
        (
          to_invocation c ∷ calls,
          l',
          rw more (rw (g, process_from) (rw q)),
          omega arith,
          omega arith,
          omega arith,
          Visited.visit {calls = calls} (ground arith) g x,
        )
  ]

  -- Whatever functions of the callers `callback_list_process` calls on a valid table, if they keep
  -- its size it returns, after one call for each slot, from the first to the last: that of the
  -- function and the argument that the slot holds when its turn comes, with the slot emptied before
  -- the call if it is told to clear. The table is then as these calls leave it, and of the same
  -- size.
  pub process_total :
      (l : CallbackList) (clear : Bool)
      → IsValid l
      → (calls : List Invocation) × (l' : CallbackList) × (process act l clear ≡ some (calls, l'))
        × (length calls ≡ l.count)
        × IsValid l'
        × Visited act clear 0 l calls l'
  unfolding process
  process_total l clear v =
      let (calls, l', q, n, m, w, x) =
        process_from_total 255 0 clear l (omega (arith, v.slots)) (omega arith)
          (omega (arith, v.id_range)) in
      (
        calls,
        l',
        rw (lt→ltb 0 l.count v.some_slots) q,
        omega arith,
        record {
          slots = omega (arith, v.slots);
          some_slots = omega (arith, v.some_slots);
          id_range = omega (arith, v.id_range);
        },
        x,
      )

-- Functions that leave the table alone.
abbrev pub inert : ℕ → ℕ → CallbackList → CallbackList
inert h work l = l

invoke-inert : (h : Handler) (work : ℕ) (l : CallbackList) → invoke inert h work l ≡ l
unfolding invoke
invoke-inert default_handler work l = refl
invoke-inert (user h) work l = refl

-- The slots behind those already processed.
abbrev left_behind : Bool → List Callback → List Callback
left_behind true cs = replicate (length cs) unset
left_behind false cs = cs

left_behind-nil : (clear : Bool) → left_behind clear [] ≡ []
left_behind-nil true = refl
left_behind-nil false = refl

get_elem?-middle {ℓ} :
    {A : Type ℓ} (xs : List A) (x : A) (ys : List A) (i : ℕ)
    → length xs ≡ i
    → get_elem? (xs ++ (x ∷ ys)) i ≡ some x
get_elem?-middle [] x ys zero e = refl
get_elem?-middle [] x ys (suc i) e = absurd (omega arith)
get_elem?-middle (y ∷ xs) x ys zero e = absurd (omega arith)
get_elem?-middle (y ∷ xs) x ys (suc i) e = get_elem?-middle xs x ys i (omega arith)

set-middle {ℓ} :
    {A : Type ℓ} (xs : List A) (x a : A) (ys : List A) (i : ℕ)
    → length xs ≡ i
    → set (xs ++ (x ∷ ys)) i a ≡ xs ++ (a ∷ ys)
set-middle [] x a ys zero e = refl
set-middle [] x a ys (suc i) e = absurd (omega arith)
set-middle (y ∷ xs) x a ys zero e = absurd (omega arith)
set-middle (y ∷ xs) x a ys (suc i) e = ap (◌∷◌ y) (set-middle xs x a ys i (omega arith))

-- One round moves a slot to those processed.
before_call-middle :
    (clear : Bool) (l : CallbackList) (done : List Callback) (c : Callback) (cs : List Callback)
    (id : ℕ)
    → l.callbacks ≡ done ++ (c ∷ cs)
    → length done ≡ id
    → (x : Callback) × ((before_call clear l id).callbacks ≡ (done ++ (x ∷ [])) ++ cs)
      × (record (before_call clear l id) { callbacks = (done ++ (x ∷ [])) ++ left_behind clear cs }
          ≡ record l { callbacks = done ++ left_behind clear (c ∷ cs) })
before_call-middle true l done c cs id e d = (
  unset,
  rw e (set-middle done c unset cs id d) ∙ sym (append_assoc done (unset ∷ []) cs),
  ap (λ (z : List Callback). record l { callbacks = z })
      (append_assoc done (unset ∷ []) (left_behind true cs)),
)
before_call-middle false l done c cs id e d = (
  c,
  e ∙ sym (append_assoc done (c ∷ []) cs),
  ap (λ (z : List Callback). record l { callbacks = z }) (append_assoc done (c ∷ []) cs),
)

process_from-inert :
    (fuel id : ℕ) (clear : Bool) (done rest : List Callback) (l : CallbackList)
    → l.callbacks ≡ done ++ rest
    → length done ≡ id
    → l.count ≡ length l.callbacks
    → length rest ≤ fuel
    → process_from inert fuel id clear l
      ≡ some (map to_invocation rest, record l { callbacks = done ++ left_behind clear rest })
unfolding process_from
process_from-inert zero id clear done [] l e d n f =
    rw (le→not-ltb id l.count (omega (arith, ap length e, ap length (append-nil done))))
      (rw left_behind-nil (rw (← e)))
process_from-inert zero id clear done (c ∷ cs) l e d n f = absurd (omega arith)
process_from-inert (suc fuel) id clear done [] l e d n f =
    rw (le→not-ltb id l.count (omega (arith, ap length e, ap length (append-nil done))))
      (rw left_behind-nil (rw (← e)))
process_from-inert (suc fuel) id clear done (c ∷ cs) l e d n f =
    let (x, q, w) = before_call-middle clear l done c cs id e d in
    let (k, s) = before_call_keeps clear l id in
    let more : ltb id l.count ≡ true =
      lt→ltb id l.count (omega (arith, ap length e, length-append done (c ∷ cs))) in
    let slot : get_elem? l.callbacks id ≡ some c = rw e (get_elem?-middle done c cs id d) in
    rw more (
      rw (slot, process_from)
        (rw (invoke-inert c.handler c.work (before_call clear l id)) (
          rw
            (process_from-inert fuel (id + 1) clear (done ++ (x ∷ [])) cs (before_call clear l id) q
              (omega (arith, length-append done (x ∷ []))) (omega arith) (omega arith))
            (ap (λ (z : CallbackList). some (to_invocation c ∷ map to_invocation cs, z)) w))))

-- If no function that it calls touches the table, `callback_list_process` of a valid table calls
-- each slot's function with its argument, in order; it empties each slot if it is told to clear,
-- and changes nothing otherwise.
pub process-inert :
    (l : CallbackList) (clear : Bool)
    → IsValid l
    → process inert l clear
      ≡ some (map to_invocation l.callbacks, record l { callbacks = left_behind clear l.callbacks })
unfolding process
process-inert l clear v = rw (lt→ltb 0 l.count v.some_slots) (
    process_from-inert 255 0 clear [] l.callbacks l refl refl (sym v.slots)
      (omega (arith, v.slots, v.id_range)))
