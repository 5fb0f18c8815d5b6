-- ===== src/Sega3d/Matrix/Scene.antt =====
-- libsega3d/matrix_stack.c: programs whose pushes and pops match.
use libyaul.Base.{
  ℕ, suc, ◌+◌, ◌-◌, ◌≤◌, ◌<◌, ◌≡◌, refl, ◌∙◌, List, [], ◌∷◌, ◌++◌, Option, none, some, ltb,
  if◌then◌else◌, get_elem?, set, length, arith, get_elem?-set_self, get_elem?-set_ne, length-set,
  lt→ltb, ne→not-==, get_elem?-some,
}
use libyaul.Sega3d.Matrix.{
  Matrix, State, MatrixType, Change, push, pop, load, copy, apply, change, matrix_stack_max,
}

-- Calls on the stack, in order: a change, a copy of the matrix on top, or a push with a copy, the
-- calls that follow it, and its pop.
pub data Scene : Type 0 where
  done : Scene
  change_then : Change → Scene → Scene
  copy_then : Scene → Scene
  nested_then : Scene → Scene → Scene

-- The most pushes that are open at once.
unfoldable pub height : Scene → ℕ
height Scene.done = 0
height (Scene.change_then c rest) = height rest
height (Scene.copy_then rest) = height rest
height (Scene.nested_then body rest) =
    let b = suc (height body) in let r = height rest in if ltb b r then r else b

-- What is copied, and the state at the end.
unfoldable pub run : Scene → State → Option (List Matrix × State)
unfolding push pop copy change
run Scene.done s = some ([], s)
run (Scene.change_then c rest) s = elim (change c s) [ none ↦ none | some s' ↦ run rest s' ]
run (Scene.copy_then rest) s = elim (copy s) [
  | none ↦ none
  | some m ↦ elim (run rest s) [ none ↦ none | some (ms, s') ↦ some (m ∷ ms, s') ]
]
run (Scene.nested_then body rest) s = elim (push MatrixType.type_push s) [
  | none ↦ none
  | some s₁ ↦ elim (run body s₁) [
    | none ↦ none
    | some (ms, s₂) ↦ elim (run rest (pop s₂)) [ none ↦ none | some (ns, s₃) ↦ some (ms ++ ns, s₃) ]
  ]
]

-- The same with a matrix in place of the stack: what is nested leaves it as it is.
unfoldable pub final : Scene → Matrix → Matrix
unfolding apply
final Scene.done m = m
final (Scene.change_then c rest) m = final rest (apply c m)
final (Scene.copy_then rest) m = final rest m
final (Scene.nested_then body rest) m = final rest m

unfoldable pub copies : Scene → Matrix → List Matrix
unfolding apply
copies Scene.done m = []
copies (Scene.change_then c rest) m = copies rest (apply c m)
copies (Scene.copy_then rest) m = m ∷ copies rest m
copies (Scene.nested_then body rest) m = copies body m ++ copies rest m

-- A stack of the size declared, with a matrix on top.
pub record HasTop (s : State) (m : Matrix) : Type 0 where
  pub size : length s.matrices ≡ matrix_stack_max
  pub on_top : get_elem? s.matrices s.top_matrix ≡ some m

-- The matrices below the top, and the top's place, are the same.
pub record SameBelow (s s' : State) : Type 0 where
  pub place : s'.top_matrix ≡ s.top_matrix
  pub below : (i : ℕ) → i < s.top_matrix → get_elem? s'.matrices i ≡ get_elem? s.matrices i

pub load-HasTop : (n m : Matrix) (s : State) → HasTop s m → HasTop (load n s) n
unfolding load
load-HasTop n m s h =
    let b = get_elem?-some s.matrices s.top_matrix m h.on_top in
    record {
      size = length-set s.matrices s.top_matrix n ∙ h.size;
      on_top = get_elem?-set_self s.matrices s.top_matrix n b;
    }

load-SameBelow : (n : Matrix) (s : State) → SameBelow s (load n s)
unfolding load
load-SameBelow n s = record {
  place = refl;
  below = λ i h. get_elem?-set_ne s.matrices s.top_matrix i n (λ e. omega arith);
}

SameBelow-trans : (r s t : State) → SameBelow r s → SameBelow s t → SameBelow r t
SameBelow-trans r s t a b = record {
  place = b.place ∙ a.place;
  below = λ i h. b.below i (let p = a.place in omega (arith, p)) ∙ a.below i h;
}

abbrev pub pushed : Matrix → State → State
pushed m s = record {
  top_matrix = s.top_matrix + 1;
  matrices = set s.matrices (s.top_matrix + 1) m;
}

pub push-pushed :
    (m : Matrix) (s : State)
    → HasTop s m
    → s.top_matrix + 1 < matrix_stack_max
    → push MatrixType.type_push s ≡ some (pushed m s)
unfolding push
push-pushed m s h b =
    rw (push, lt→ltb s.top_matrix (matrix_stack_max - 1) (omega arith), h.on_top) refl

pub pushed-HasTop :
    (m : Matrix) (s : State)
    → HasTop s m
    → s.top_matrix + 1 < matrix_stack_max
    → HasTop (pushed m s) m
pushed-HasTop m s h b = record {
  size = length-set s.matrices (s.top_matrix + 1) m ∙ h.size;
  on_top = get_elem?-set_self s.matrices (s.top_matrix + 1) m (let l = h.size in omega (arith, l));
}

-- After the pop of what was pushed and changed above.
pub pop-lem :
    (m : Matrix) (s s' : State)
    → SameBelow (pushed m s) s'
    → pop s' ≡ record s' { top_matrix = s.top_matrix }
unfolding pop
pop-lem m s s' w =
    let p = w.place in
    let e : s'.top_matrix - 1 ≡ s.top_matrix = omega (arith, p) in
    rw (pop, ne→not-== s'.top_matrix 0 (λ q. omega (arith, p, q)), e) refl

pub popped-HasTop :
    (m : Matrix) (s s' : State) (n : Matrix)
    → HasTop s m
    → SameBelow (pushed m s) s'
    → HasTop s' n
    → HasTop (record s' { top_matrix = s.top_matrix }) m
popped-HasTop m s s' n h w g = record {
  size = g.size;
  on_top =
      w.below s.top_matrix (omega arith)
      ∙ get_elem?-set_ne s.matrices (s.top_matrix + 1) s.top_matrix m (λ e. omega arith)
      ∙ h.on_top;
}

popped-SameBelow :
    (m : Matrix) (s s' : State)
    → SameBelow (pushed m s) s'
    → SameBelow s (record s' { top_matrix = s.top_matrix })
popped-SameBelow m s s' w = record {
  place = refl;
  below = λ i h.
      w.below i (omega arith)
      ∙ get_elem?-set_ne s.matrices (s.top_matrix + 1) i m (λ e. omega arith);
}

-- How a scene ends.
pub record Ran (x : Scene) (s : State) (m : Matrix) : Type 0 where
  pub s' : State
  pub ran : run x s ≡ some (copies x m, s')
  pub has_top : HasTop s' (final x m)
  pub same_below : SameBelow s s'

height-body : (body rest : Scene) → suc (height body) ≤ height (Scene.nested_then body rest)
unfolding height
height-body body rest = ground arith

height-rest : (body rest : Scene) → height rest ≤ height (Scene.nested_then body rest)
unfolding height
height-rest body rest = ground arith

Ran-nested :
    (body rest : Scene) (s : State) (m : Matrix)
    → HasTop s m
    → s.top_matrix + 1 < matrix_stack_max
    → (b : Ran body (pushed m s) m) → Ran rest (record (b.s') { top_matrix = s.top_matrix }) m
    → Ran (Scene.nested_then body rest) s m
unfolding run copies final
Ran-nested body rest s m h l b r = record {
  s' = r.s';
  ran = rw (run, push-pushed m s h l, b.ran, pop-lem m s b.s' b.same_below, r.ran) refl;
  has_top = r.has_top;
  same_below =
      SameBelow-trans s (record (b.s') { top_matrix = s.top_matrix }) r.s'
        (popped-SameBelow m s b.s' b.same_below) r.same_below;
}

-- A scene that the stack has room for ends; the matrices copied, and the one on top at the end,
-- are those of the same scene without a stack, and all below the top is as before.
pub run-Ran :
    (x : Scene) (s : State) (m : Matrix)
    → HasTop s m
    → s.top_matrix + height x < matrix_stack_max
    → Ran x s m
unfolding run copies final height change copy
run-Ran Scene.done s m h l = record {
  s' = s;
  ran = refl;
  has_top = h;
  same_below = record { place = refl; below = λ i b. refl };
}
run-Ran (Scene.change_then c rest) s m h l =
    let s₁ : State = load (apply c m) s in
    let w = load-SameBelow (apply c m) s in
    let p = w.place in
    let r = run-Ran rest s₁ (apply c m) (load-HasTop (apply c m) m s h) (omega (arith, p)) in
    record {
      s' = r.s';
      ran = rw (run, h.on_top, r.ran) refl;
      has_top = r.has_top;
      same_below = SameBelow-trans s s₁ r.s' w r.same_below;
    }
run-Ran (Scene.copy_then rest) s m h l =
    let r = run-Ran rest s m h l in
    record {
      s' = r.s';
      ran = rw (run, h.on_top, r.ran) refl;
      has_top = r.has_top;
      same_below = r.same_below;
    }
run-Ran (Scene.nested_then body rest) s m h l =
    let u = height-body body rest in
    let v = height-rest body rest in
    let b =
      run-Ran body (pushed m s) m (pushed-HasTop m s h (omega (arith, u))) (omega (arith, u)) in
    let r =
      run-Ran rest (record (b.s') { top_matrix = s.top_matrix }) m
        (popped-HasTop m s b.s' (final body m) h b.same_below b.has_top) (omega (arith, v)) in
    Ran-nested body rest s m h (omega (arith, u)) b r
