-- ===== src/Sega3d/Matrix/Tests.antt =====
-- Scenes on the stack.
use libyaul.Base.{◌≡◌, refl, [], ◌∷◌, none, arith}
use libyaul.Sega3d.Matrix.{Matrix, State, Change, init, identity, apply, trans, transpose_in}
use libyaul.Sega3d.Matrix.Scene.{Scene, HasTop, Ran, run, run-Ran, height, copies}
use libyaul.Sega3d.Matrix.Overflow.{run-aborts}

init-HasTop : HasTop init identity
unfolding init
init-HasTop = record { size = refl; on_top = refl }

-- A body moved within a copy of the matrix, and the matrix after it.
abbrev scene : Scene
scene =
    Scene.nested_then (Scene.change_then (Change.trans_by 1 2 3) (Scene.copy_then Scene.done))
      (Scene.copy_then Scene.done)

run-Ran_example : Ran scene init identity
unfolding height init
run-Ran_example = run-Ran scene init identity init-HasTop (omega arith)

-- The first copy has the translation, the second has not.
copies_example :
    copies scene identity ≡ record identity { m03 = 1; m13 = 2; m23 = 3 } ∷ identity ∷ []
unfolding copies apply trans identity
copies_example = refl

-- The last matrix of the stack is on top, and one more is pushed.
abbrev last : State
last = record init { top_matrix = 31 }

last-HasTop : HasTop last identity
unfolding init
last-HasTop = record { size = refl; on_top = refl }

run-aborts_example : run (Scene.nested_then Scene.done Scene.done) last ≡ none
unfolding height init
run-aborts_example =
    run-aborts (Scene.nested_then Scene.done Scene.done) last identity last-HasTop (omega arith)

-- Two transpositions of the rotation.
transpose_in_twice : (m : Matrix) → transpose_in (transpose_in m) ≡ m
unfolding transpose_in
transpose_in_twice m = refl
