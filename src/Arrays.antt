-- ===== src/Arrays.antt =====
-- What a test puts as a global array: the actions of injection/include/interfaces/IOutputEngine.h. An
-- action says how many objects a rank supplies, and what block of which grid it puts them in.
pub mod Blocks
mod Examples
use vnv.Base.{
  ℕ, zero, suc, ◌+◌, ◌-◌, ◌*◌, ◌/◌, ◌%◌, Bool, true, false, not, ◌||◌, List, [], ◌∷◌, ◌++◌, Option,
  none, some, if◌then◌else◌, ◌==◌, ltb, length, Outcome, ok, raise, fault, text, bind,
}
use vnv.Transport.Grid.{Axes, Header, accumulate}
use vnv.Transport.Reductions.{Reducer, reduce_local_vec}
use vnv.Transport.{DataType}

-- The communicator on one rank, and the root of the engine.
pub record Place : Type 0 where
  pub ranks : ℕ
  pub rank : ℕ
  pub engine_root : ℕ

-- The arguments of PutGlobalArray: a null pointer among the objects is `none`.
pub record Piece (D : Type 0) : Type 0 where
  pub objects : List (Option D)
  pub gsizes : List ℕ
  pub sizes : List ℕ
  pub offsets : List ℕ

-- A root that is not given, `root < 0`, is `none`.
pub data BaseAction : Type 0 where
  scalar : (size : ℕ) (rank : Option ℕ) → BaseAction
  vector : (size : ℕ) → BaseAction
  matrix : (x y ymax : ℕ) → BaseAction
  global_array : (gsize lsize offsets : List ℕ) → BaseAction
  reduction : (size : ℕ) (root : Option ℕ) → BaseAction
  element_wise : (size : ℕ) (root : Option ℕ) → BaseAction
  processor_wise : (size : ℕ) (root : Option ℕ) → BaseAction
  single_processor : (size : ℕ) (root : Option ℕ) → BaseAction

abbrev pub root_of : Option ℕ → Place → ℕ
root_of none p = p.engine_root
root_of (some r) p = r

abbrev pub at_root : Option ℕ → Place → Bool
at_root root p = p.rank == root_of root p

pub count : BaseAction → Place → ℕ
count (scalar size rank) p = if at_root rank p then size else 0
count (vector size) p = size
count (matrix x y ymax) p = x * y
count (global_array gsize lsize offsets) p = accumulate 1 lsize
count (reduction size root) p = size
count (element_wise size root) p = size
count (processor_wise size root) p = size
count (single_processor size root) p = if at_root root p then size else 0

-- The guard of MatrixAction, which divides by y, and by ymax / y if the first test holds.
pub matrix_refused : (x y ymax s : ℕ) → Outcome Bool
matrix_refused x y ymax s =
    if y == 0
    then raise fault
    else if ymax % y == 0
    then ok false
    else if ymax / y == 0
    then raise fault
    else ok (not (s % (ymax / y) == 0))

module _ {D : Type 0} (t : DataType D) where
  abbrev pub matrix_piece : (x y ymax : ℕ) → Place → List (Option D) → Piece D
  matrix_piece x y ymax p objects = record {
    objects = objects;
    gsizes = (x * y * p.ranks / ymax) ∷ ymax ∷ [];
    sizes = x ∷ y ∷ [];
    offsets = (p.rank * x * y / ymax) ∷ (p.rank * y % ymax) ∷ [];
  }

  -- `none` where the guard refuses the sizes, which is an error message.
  pub write_matrix : (x y ymax : ℕ) → Place → List (Option D) → Outcome (Option (Piece D))
  unfolding matrix_refused
  write_matrix x y ymax p objects = bind (matrix_refused x y ymax p.ranks) λ refused.
      if refused
      then ok none
      else if ymax == 0
      then raise fault
      else ok (some (matrix_piece x y ymax p objects))

  abbrev pub line : ℕ → ℕ → ℕ → List (Option D) → Piece D
  line gsize size offset objects = record {
    objects = objects;
    gsizes = gsize ∷ [];
    sizes = size ∷ [];
    offsets = offset ∷ [];
  }

  abbrev pub some_all : List D → List (Option D)
  some_all [] = []
  some_all (d ∷ ds) = some d ∷ some_all ds

  -- `reduced` and `reduced_all` are what ReduceVector and ReduceMultiple leave on this rank.
  module _ (reducer : Reducer D) (reduced : Option D) (reduced_all : List D) where
    pub write_action : BaseAction → Place → List D → Outcome (Option (Piece D))
    unfolding write_matrix
    write_action (scalar size rank) p ds =
        ok (some (line size (if at_root rank p then size else 0) 0 (some_all ds)))
    write_action (vector size) p ds =
        ok (some (line (size * p.ranks) size (size * p.rank) (some_all ds)))
    write_action (matrix x y ymax) p ds = write_matrix x y ymax p (some_all ds)
    write_action (global_array gsize lsize offsets) p ds =
        ok (some record { objects = some_all ds; gsizes = gsize; sizes = lsize; offsets = offsets })
    write_action (reduction size root) p ds =
        ok (some (if at_root root p then line 1 1 0 (reduced ∷ []) else line 1 0 0 []))
    write_action (element_wise size root) p ds = ok (
        some (if at_root root p then line size size 0 (some_all reduced_all) else line size 0 0 []))
    write_action (processor_wise size root) p ds =
        ok (some (line p.ranks 1 p.rank (reduce_local_vec t reducer ds ∷ [])))
    write_action (single_processor size root) p ds = ok (
        some (
          if at_root root p
          then line 1 1 0 (reduce_local_vec t reducer ds ∷ [])
          else line 1 0 0 []))

  -- `vec[i] = getDataType(key)` with `setData(&data[i])`, for as many as the action counts. A datum that
  -- is not there is read from behind the array.
  abbrev pub set_all : ℕ → (ℕ → Option D) → ℕ → Outcome (List D)
  set_all i datum zero = ok []
  set_all i datum (suc n) = elim (datum i) [
    | none ↦ raise fault
    | some d ↦ bind (set_all (suc i) datum n) λ ds. ok (d ∷ ds)
  ]

-- `catch (...)` leaves a message, and nothing is put.
abbrev pub caught : {D : Type 0} → Outcome (Option (Piece D)) → Outcome (Option (Piece D))
caught (raise fault) = raise fault
caught (raise e) = ok none
caught (ok piece) = ok piece

module _ {D : Type 0} (t : DataType D) (reducer : Reducer D) (reduced : Option D)
    (reduced_all : List D) where
  -- Write. A type that is not registered is met only where there is an object to make.
  pub write_data :
      (registered : Bool) → BaseAction → Place → (ℕ → Option D) → Outcome (Option (Piece D))
  unfolding count write_action
  write_data registered action p datum =
      if registered || count action p == 0
      then caught (
          bind (set_all t 0 datum (count action p))
            λ ds. write_action t reducer reduced reduced_all action p ds)
      else ok none

-- The rows of a matrix one behind the other.
abbrev pub flatten : {A : Type 0} → List (List A) → List A
flatten [] = []
flatten (row ∷ rows) = row ++ flatten rows

-- The overloads of the Put functions, by the action that each hands to Write.
abbrev pub first_length : {A : Type 0} → List (List A) → ℕ
first_length [] = 0
first_length (row ∷ rows) = length row

module _ {A : Type 0} where
  pub put_rank : List A → Option ℕ → BaseAction
  put_rank xs rank = scalar (length xs) rank

  pub put_vector : List A → BaseAction
  put_vector xs = vector (length xs)

  -- From rows, with nothing to put where there are none.
  pub put_matrix_rows : List (List A) → ℕ → Option (BaseAction × List A)
  put_matrix_rows [] cols = none
  put_matrix_rows (row ∷ rows) cols =
      some (matrix (length (row ∷ rows)) (length row) cols, flatten (row ∷ rows))

  -- From flat data; `data.size() / x` divides by x.
  pub put_matrix_flat : ℕ → List A → ℕ → Outcome BaseAction
  put_matrix_flat x xs cols = if x == 0 then raise fault else ok (matrix x (length xs / x) cols)

  pub put_matrix_at : List (List A) → (gsize offsets : ℕ × ℕ) → Option (BaseAction × List A)
  put_matrix_at [] gsize offsets = none
  put_matrix_at (row ∷ rows) gsize offsets = some (
    global_array (gsize.0 ∷ gsize.1 ∷ []) (length (row ∷ rows) ∷ length row ∷ [])
        (offsets.0 ∷ offsets.1 ∷ []),
    flatten (row ∷ rows),
  )

  pub put_matrix_flat_at : ℕ → List A → (gsize offsets : ℕ × ℕ) → Outcome (Option BaseAction)
  put_matrix_flat_at xdim [] gsize offsets = ok none
  put_matrix_flat_at xdim (a ∷ xs) gsize offsets =
      if xdim == 0
      then raise fault
      else if length (a ∷ xs) % xdim == 0
      then ok (
          some (
            global_array (gsize.0 ∷ gsize.1 ∷ []) (xdim ∷ length (a ∷ xs) / xdim ∷ [])
              (offsets.0 ∷ offsets.1 ∷ [])))
      else raise text

  pub put_reduce_vector : List A → Option ℕ → BaseAction
  put_reduce_vector xs root = reduction (length xs) root

  pub put_reduce_vector_element_wise : List A → Option ℕ → BaseAction
  put_reduce_vector_element_wise xs root = element_wise (length xs) root

  pub put_reduce_vector_rank_wise : List A → Option ℕ → BaseAction
  put_reduce_vector_rank_wise xs root = processor_wise (length xs) root

  pub put_reduce_vector_rank_only : List A → Option ℕ → BaseAction
  put_reduce_vector_rank_only xs root = single_processor (length xs) root

-- What PutGlobalArray tells the other ranks of its block.
abbrev pub pair_up : List ℕ → List ℕ → Axes
pair_up (size ∷ sizes) (offset ∷ offsets) = (size, offset) ∷ pair_up sizes offsets
pair_up _ _ = []

abbrev pub header_of : {D : Type 0} → Piece D → Header
header_of piece = record { count = length piece.objects; axes = pair_up piece.sizes piece.offsets }
