-- ===== src/Arrays/Examples.antt =====
-- The theorems on blocks at small grids, and the guard of MatrixAction.
use vnv.Base.{
  ℕ, ◌+◌, ◌*◌, ◌<◌, ◌≤◌, ◌≡◌, ◌↔◌, refl, false, [], ◌∷◌, none, some, ok, inl, arith, ◌/◌,
}
use vnv.Transport.{DataType}
use vnv.Transport.Grid.Counting.{Fits, product, sizes}
use vnv.Arrays.{count, Place, Piece, write_matrix, write_action, vector, matrix_refused, header_of}
use vnv.Arrays.Blocks.{matrix_inside, matrix_outside, vector_inside}

abbrev numbers : DataType ℕ
numbers = record {
  get_key = λ d. 0;
  set_key = λ k d. d;
  max_size = λ d. 1;
  pack = λ d. d ∷ [];
  unpack = λ d m. ok d;
}

abbrev rank_three : Place
rank_three = record { ranks = 4; rank = 3; engine_root = 0 }

matrix_inside_example :
    (piece : Piece ℕ) × (write_matrix numbers 1 3 6 rank_three (some 1 ∷ some 2 ∷ some 3 ∷ [])
      ≡ ok (some piece))
    × Fits piece.gsizes (header_of piece).axes
    × ((header_of piece).count ≡ product (sizes (header_of piece).axes))
unfolding count
matrix_inside_example =
    matrix_inside numbers 1 3 2 2 rank_three (some 1 ∷ some 2 ∷ some 3 ∷ []) (omega arith)
      (omega arith) refl (omega arith) refl (inl refl)

-- Blocks of two rows and one column, two beside each other, over four ranks.
matrix_outside_example :
    (piece : Piece ℕ) × (write_matrix numbers 2 1 2 rank_three (some 1 ∷ some 2 ∷ [])
      ≡ ok (some piece))
    × ¬ Fits piece.gsizes (header_of piece).axes
matrix_outside_example =
    matrix_outside numbers 2 1 2 1 rank_three (some 1 ∷ some 2 ∷ []) (omega arith) (omega arith)
      (omega arith) refl refl

vector_inside_example :
    (piece : Piece ℕ) × (write_action numbers (λ a b. a) none [] (vector 2) rank_three (5 ∷ 6 ∷ [])
      ≡ ok (some piece))
    × Fits piece.gsizes (header_of piece).axes
    × ((header_of piece).count ≡ product (sizes (header_of piece).axes))
    × (piece.offsets ≡ 2 * 3 ∷ [])
    × (((2 * 3 ≤ 7) × (7 < 2 * 3 + 2)) ↔ (7 / 2 ≡ 3))
unfolding count
vector_inside_example =
    vector_inside numbers (λ a b. a) none [] 2 7 rank_three (5 ∷ 6 ∷ []) (omega arith) (omega arith)
      refl

-- Six columns are no multiple of four, but four ranks are one of 6 / 4: the guard lets this through.
guard_passes : matrix_refused 2 4 6 4 ≡ ok false
unfolding matrix_refused
guard_passes = refl
