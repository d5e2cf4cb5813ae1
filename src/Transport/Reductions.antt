-- ===== src/Transport/Reductions.antt =====
-- Reductions over the ranks: ReduceLocalVec and ReduceMultiple of
-- injection/src/base/communication/Communication.cpp, and the operation OpTypeEncodedReduction of
-- injection/src/base/communication/ICommunicator.cpp that MPI calls on two buffers.
pub mod Pointwise
pub mod Packed
use vnv.Base.{
  ℕ, zero, suc, ◌+◌, ◌*◌, List, [], ◌∷◌, ◌++◌, Option, none, some, Outcome, ok, raise,
  vnv_exception, length, nat_key,
}
use vnv.Base.Dict.{Dict, find}
use vnv.Transport.{
  DataType, Memory, blank, write, from, le_bytes, long_size, read_long, bind, get_data_type,
  unpack_all,
}

-- IReduction::reduce
abbrev pub Reducer : Type 0 → Type 0
Reducer D = D → D → D

-- ReductionStore::getReducer
abbrev pub get_reducer : {D : Type 0} → Dict ℕ (Reducer D) → ℕ → Outcome (Reducer D)
get_reducer reducers key = elim (find key reducers) [ none ↦ raise vnv_exception | some r ↦ ok r ]

abbrev pub head_size : ℕ
head_size = 16

module _ {D : Type 0} (t : DataType D) where
  abbrev pub fold_vec : Reducer D → List D → D → D
  fold_vec reduce [] result = result
  fold_vec reduce (d ∷ ds) result = fold_vec reduce ds (reduce d result)

  abbrev pub reduce_local_vec : Reducer D → List D → Option D
  reduce_local_vec reduce [] = none
  reduce_local_vec reduce (d ∷ ds) = some (fold_vec reduce ds d)

  -- The loop of ReduceMultiple that fills the buffer.
  unfoldable pub pack_encoded : (reducer_key dtype size i : ℕ) → List D → Memory → Outcome Memory
  pack_encoded reducer_key dtype size i [] m = ok m
  pack_encoded reducer_key dtype size i (d ∷ ds) m =
      bind (write (i * size) (le_bytes long_size reducer_key) m) λ a.
        bind (write (i * size + long_size) (le_bytes long_size dtype) a) λ b.
          bind (write (i * size + head_size) (t.pack d) b)
            λ c. pack_encoded reducer_key dtype size (suc i) ds c

  module _ (store : Dict ℕ D) where
    -- The loop of OpTypeEncodedReduction; the result is what becomes of the second buffer.
    unfoldable pub reduce_from :
        (data_key size : ℕ) → Reducer D → (i len : ℕ) → Memory → Memory → Outcome Memory
    reduce_from data_key size reduce i zero invec outvec = ok outvec
    reduce_from data_key size reduce i (suc len) invec outvec =
        bind (get_data_type t store data_key) λ o.
          bind (t.unpack o (from (i * size + head_size) invec)) λ x.
            bind (t.unpack o (from (i * size + head_size) outvec)) λ y.
              bind (write (i * size + head_size) (t.pack (reduce x y)) outvec)
                λ outvec'. reduce_from data_key size reduce (suc i) len invec outvec'

  module _ (store : Dict ℕ D) (reducers : Dict ℕ (Reducer D)) where
    unfoldable pub op_type_encoded_reduction : Memory → Memory → ℕ → Outcome Memory
    op_type_encoded_reduction invec outvec len = bind (read_long invec) λ reducer_key.
        bind (read_long (from long_size invec)) λ data_key.
          bind (get_data_type t store data_key) λ o.
            bind (get_reducer reducers reducer_key) λ reduce.
              reduce_from store data_key (t.max_size o + head_size) reduce 0 len invec outvec

    -- ReduceMultiple on what a collective call of the communicator leaves in the receive buffer.
    unfoldable pub reduce_multiple :
        (reducer_key dtype : ℕ) → (Memory → Memory) → List D → Outcome (List D)
    reduce_multiple reducer_key dtype collect ds = bind (get_data_type t store dtype) λ o.
        let size = t.max_size o + head_size in
        bind (pack_encoded reducer_key dtype size 0 ds (blank (length ds * size)))
          λ m. unpack_all t store dtype size head_size 0 (length ds) (collect m)
