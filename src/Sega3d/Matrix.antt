-- ===== src/Sega3d/Matrix.antt =====
-- libsega3d/matrix_stack.c, without the rotations. A failed assert, and an access outside the
-- stack, are `none`.
pub mod Overflow
pub mod Scene
mod Tests
use libyaul.Base.{
  ℕ, zero, suc, ◌+◌, ◌-◌, Bool, true, false, List, Option, none, some, ltb, ◌==◌, if◌then◌else◌,
  get_elem?, set, replicate,
}
use libyaul.Base.Words.{add32}

-- MATRIX, with the names of its elements in sgl.h.
pub record Matrix : Type 0 where
  pub m00 : ℕ
  pub m01 : ℕ
  pub m02 : ℕ
  pub m03 : ℕ
  pub m10 : ℕ
  pub m11 : ℕ
  pub m12 : ℕ
  pub m13 : ℕ
  pub m20 : ℕ
  pub m21 : ℕ
  pub m22 : ℕ
  pub m23 : ℕ

-- MATRIX_STACK_MAX
abbrev pub matrix_stack_max : ℕ
matrix_stack_max = 32

-- `_state.top_matrix`, as an index, and the matrices.
pub record State : Type 0 where
  pub top_matrix : ℕ
  pub matrices : List Matrix

-- `sega3d_matrix_identity`; 1.0 is 0x10000.
unfoldable pub identity : Matrix
identity = record {
  m00 = 0x10000;
  m01 = 0;
  m02 = 0;
  m03 = 0;
  m10 = 0;
  m11 = 0x10000;
  m12 = 0;
  m13 = 0;
  m20 = 0;
  m21 = 0;
  m22 = 0x10000;
  m23 = 0;
}

-- `_internal_matrix_init`
unfoldable pub init : State
unfolding identity
init = record { top_matrix = 0; matrices = replicate matrix_stack_max identity }

-- `sega3d_matrix_type_t`
pub data MatrixType : Type 0 where
  type_push type_move_ptr : MatrixType

-- `sega3d_matrix_top`
abbrev pub top : State → Option Matrix
top s = get_elem? s.matrices s.top_matrix

-- `sega3d_matrix_push`
unfoldable pub push : MatrixType → State → Option State
push type s =
    if ltb s.top_matrix (matrix_stack_max - 1)
    then elim type [
      | MatrixType.type_move_ptr ↦ some (record s { top_matrix = s.top_matrix + 1 })
      | MatrixType.type_push ↦ elim (top s) [
        | none ↦ none
        | some m ↦ some (record {
          top_matrix = s.top_matrix + 1;
          matrices = set s.matrices (s.top_matrix + 1) m;
        })
      ]
    ]
    else none

-- `sega3d_matrix_pop`
unfoldable pub pop : State → State
pop s = if s.top_matrix == 0 then s else record s { top_matrix = s.top_matrix - 1 }

-- `sega3d_matrix_load`
unfoldable pub load : Matrix → State → State
load m s = record s { matrices = set s.matrices s.top_matrix m }

-- `sega3d_matrix_copy`: what is copied.
unfoldable pub copy : State → Option Matrix
copy s = top s

-- `sega3d_matrix_transpose_in`
unfoldable pub transpose_in : Matrix → Matrix
transpose_in m = record m {
  m10 = m.m01;
  m20 = m.m02;
  m01 = m.m10;
  m21 = m.m12;
  m02 = m.m20;
  m12 = m.m21;
}

-- `sega3d_matrix_trans`, `sega3d_matrix_trans_load` and `sega3d_matrix_trans_reset`, on the
-- matrix that they change.
unfoldable pub trans : (tx ty tz : ℕ) → Matrix → Matrix
trans tx ty tz m = record m { m03 = add32 m.m03 tx; m13 = add32 m.m13 ty; m23 = add32 m.m23 tz }

unfoldable pub trans_load : (tx ty tz : ℕ) → Matrix → Matrix
trans_load tx ty tz m = record m { m03 = tx; m13 = ty; m23 = tz }

unfoldable pub trans_reset : Matrix → Matrix
trans_reset m = record m { m03 = 0; m13 = 0; m23 = 0 }

-- The functions that change the matrix on top.
pub data Change : Type 0 where
  load_of : Matrix → Change
  trans_by trans_load_of : (tx ty tz : ℕ) → Change
  reset transpose : Change

unfoldable pub apply : Change → Matrix → Matrix
unfolding transpose_in trans trans_load trans_reset
apply (Change.load_of n) m = n
apply (Change.trans_by tx ty tz) m = trans tx ty tz m
apply (Change.trans_load_of tx ty tz) m = trans_load tx ty tz m
apply Change.reset m = trans_reset m
apply Change.transpose m = transpose_in m

-- A call of one of them.
unfoldable pub change : Change → State → Option State
unfolding apply load
change c s = elim (top s) [ none ↦ none | some m ↦ some (load (apply c m) s) ]
