-- ===== src/Sega3d/Matrix/Overflow.antt =====
-- libsega3d/matrix_stack.c: programs with more open pushes than the stack has room for.
use libyaul.Base.{
  ℕ, ◌+◌, ◌-◌, ◌≤◌, ◌<◌, ◌≡◌, refl, none, ltb, arith, Bool-cases, inl, inr, ltb→lt, not-ltb→le,
  le→not-ltb, ◌⊎◌, get_elem?-some,
}
use libyaul.Sega3d.Matrix.{
  Matrix, State, MatrixType, push, load, apply, change, copy, matrix_stack_max,
}
use libyaul.Sega3d.Matrix.Scene.{
  Scene, height, run, final, HasTop, load-HasTop, pushed, push-pushed, pushed-HasTop, run-Ran,
  pop-lem, popped-HasTop,
}

push-full : (s : State) → matrix_stack_max ≤ s.top_matrix + 1 → push MatrixType.type_push s ≡ none
unfolding push
push-full s h = rw (push, le→not-ltb s.top_matrix (matrix_stack_max - 1) (omega arith)) refl

-- Where the room ends: at the push, in the calls after it, or after its pop.
height-cases :
    (body rest : Scene) (t : ℕ)
    → matrix_stack_max ≤ t + height (Scene.nested_then body rest)
    → (matrix_stack_max ≤ t + 1)
      ⊎ ((t + 1 < matrix_stack_max)
          × ((matrix_stack_max ≤ t + 1 + height body)
              ⊎ ((t + 1 + height body < matrix_stack_max) × (matrix_stack_max ≤ t + height rest))))
unfolding height
height-cases body rest t h = elim (Bool-cases (ltb (t + 1) matrix_stack_max)) [
  | inr e ↦ inl (not-ltb→le (t + 1) matrix_stack_max e)
  | inl e ↦
      let k = ltb→lt (t + 1) matrix_stack_max e in
      inr (
        k,
        elim (Bool-cases (ltb (t + 1 + height body) matrix_stack_max)) [
          | inl d ↦ let l = ltb→lt (t + 1 + height body) matrix_stack_max d in inr (l, ground arith)
          | inr d ↦ inl (not-ltb→le (t + 1 + height body) matrix_stack_max d)
        ],
      )
]

-- A scene that has more pushes open at once than the stack has room for ends in a failed assert.
pub run-aborts :
    (x : Scene) (s : State) (m : Matrix)
    → HasTop s m
    → matrix_stack_max ≤ s.top_matrix + height x
    → run x s ≡ none
unfolding run height change copy
run-aborts Scene.done s m h l =
    let b = get_elem?-some s.matrices s.top_matrix m h.on_top in
    let k = h.size in absurd (omega (arith, b, k))
run-aborts (Scene.change_then c rest) s m h l =
    rw (run, h.on_top)
      (run-aborts rest (load (apply c m) s) (apply c m) (load-HasTop (apply c m) m s h) l)
run-aborts (Scene.copy_then rest) s m h l = rw (run, h.on_top, run-aborts rest s m h l) refl
run-aborts (Scene.nested_then body rest) s m h l = elim (height-cases body rest s.top_matrix l) [
  | inl k ↦ rw (run, push-full s k) refl
  | inr (k, inl j) ↦
      rw (run, push-pushed m s h k, run-aborts body (pushed m s) m (pushed-HasTop m s h k) j) refl
  | inr (k, inr (i, j)) ↦
      let b = run-Ran body (pushed m s) m (pushed-HasTop m s h k) i in
      let r =
        run-aborts rest (record (b.s') { top_matrix = s.top_matrix }) m
          (popped-HasTop m s b.s' (final body m) h b.same_below b.has_top) j in
      rw (run, push-pushed m s h k, b.ran, pop-lem m s b.s' b.same_below, r) refl
]
