-- ===== src/Transport/Reductions/Packed.antt =====
-- What ReduceMultiple hands over, reduced with what another rank hands over.
use mathlib.Core.List.{append_assoc}
use vnv.Base.{
  ℕ, suc, ◌+◌, ◌*◌, ◌-◌, ◌^◌, ◌<◌, ◌≤◌, ◌≡◌, refl, sym, ◌∙◌, ap, List, [], ◌∷◌, ◌++◌, Outcome, ok,
  arith, length, length-append, suc_times, zero_times, nat_key, All,
}
use vnv.Base.Dict.{Dict}
use vnv.Transport.{DataType, Memory, blank, cells, bind, get_data_type, unpack_all, le_bytes}
use vnv.Transport.Bytes.{length-cells, length-blank, length-le_bytes, read_le-le_bytes}
use vnv.Transport.Packing.{write-end, blank-plus}
use vnv.Transport.Reductions.{Reducer, get_reducer, pack_encoded, op_type_encoded_reduction}
use vnv.Transport.Reductions.Pointwise.{Blocks, Paired, reduce_all, encoded_reduces, pair_then}

module _ {D : Type 0} (t : DataType D) (store : Dict ℕ D) (key size rk : ℕ) where
  abbrev keys : Memory
  keys = cells (le_bytes 8 rk) ++ cells (le_bytes 8 key)

  abbrev share : D → Memory
  share d = cells (t.pack d) ++ blank (size - length (t.pack d))

  abbrev pub encoded : List D → Memory
  encoded [] = []
  encoded (d ∷ ds) = keys ++ (share d ++ encoded ds)

  abbrev AllFit : List D → Type 0
  AllFit = All (λ d. length (t.pack d) ≤ size)

  length-share : (d : D) → length (t.pack d) ≤ size → length (share d) ≡ size
  length-share d h = omega (
    arith,
    length-append (cells (t.pack d)) (blank (size - length (t.pack d))),
    length-cells (t.pack d),
    length-blank (size - length (t.pack d)),
  )

  regrouped :
      (a : Memory) (d : D)
      → (((a ++ cells (le_bytes 8 rk)) ++ cells (le_bytes 8 key)) ++ cells (t.pack d))
          ++ blank (size - length (t.pack d))
        ≡ a ++ (keys ++ share d)
  regrouped a d =
      let k = cells (le_bytes 8 rk) in
      let l = cells (le_bytes 8 key) in
      let p = cells (t.pack d) in
      let b = blank (size - length (t.pack d)) in
      append_assoc ((a ++ k) ++ l) p b
      ∙ ap (λ m. m ++ (p ++ b)) (append_assoc a k l)
      ∙ append_assoc a (k ++ l) (p ++ b)

  length-before :
      (a : Memory) (i : ℕ)
      → i * (size + 16) ≡ length a
      → (i * (size + 16) + 8 ≡ length (a ++ cells (le_bytes 8 rk)))
        × (i * (size + 16) + 16 ≡ length ((a ++ cells (le_bytes 8 rk)) ++ cells (le_bytes 8 key)))
  length-before a i e = (
    omega (
      arith,
      e,
      length-append a (cells (le_bytes 8 rk)),
      length-cells (le_bytes 8 rk),
      length-le_bytes 8 rk,
    ),
    omega (
      arith,
      e,
      length-append a (cells (le_bytes 8 rk)),
      length-cells (le_bytes 8 rk),
      length-le_bytes 8 rk,
      length-append (a ++ cells (le_bytes 8 rk)) (cells (le_bytes 8 key)),
      length-cells (le_bytes 8 key),
      length-le_bytes 8 key,
    ),
  )

  pack_encoded-encoded :
      (ds : List D) (i : ℕ) (a : Memory)
      → i * (size + 16) ≡ length a
      → AllFit ds
      → pack_encoded t rk key (size + 16) i ds (a ++ blank (length ds * (size + 16)))
        ≡ ok (a ++ encoded ds)
  unfolding pack_encoded
  pack_encoded-encoded [] i a e h = ap (λ n. ok (a ++ blank n)) (sym (zero_times (size + 16)))
  pack_encoded-encoded (d ∷ ds) i a e (h, hs) =
      let n = length ds * (size + 16) in
      let k = cells (le_bytes 8 rk) in
      let l = cells (le_bytes 8 key) in
      let pad = size - length (t.pack d) in
      let b = ((a ++ k) ++ l) ++ cells (t.pack d) in
      let (e8, e16) = length-before a i e in
      rw
        (
          write-end a (le_bytes 8 rk) (8 + size + n) (i * (size + 16))
              (length (d ∷ ds) * (size + 16)) e
              (omega (arith, suc_times (length ds) (size + 16), length-le_bytes 8 rk)),
          write-end (a ++ k) (le_bytes 8 key) (size + n) (i * (size + 16) + 8) (8 + size + n) e8
              (omega (arith, length-le_bytes 8 key)),
          write-end ((a ++ k) ++ l) (t.pack d) (pad + n) (i * (size + 16) + 16) (size + n) e16
              (omega (arith, h)),
          blank-plus pad n,
          sym (append_assoc b (blank pad) (blank n)),
        )
        (pack_encoded-encoded ds (suc i) (b ++ blank pad)
            (omega (
              arith,
              e,
              suc_times i (size + 16),
              ap length (regrouped a d),
              length-append a (keys ++ share d),
              length-append keys (share d),
              length-share d h,
            ))
            hs
          ∙ ap (λ m. ok (m ++ encoded ds)) (regrouped a d)
          ∙ ap ok (
              append_assoc a (keys ++ share d) (encoded ds)
              ∙ ap (λ m. a ++ m) (append_assoc keys (share d) (encoded ds))))

  encoded-Blocks : (ds : List D) → AllFit ds → Blocks t store key size ds (encoded ds)
  encoded-Blocks [] h = refl
  encoded-Blocks (d ∷ ds) (h, hs) = (
    keys,
    blank (size - length (t.pack d)),
    encoded ds,
    refl,
    refl,
    omega (arith, length-blank (size - length (t.pack d)), h),
    encoded-Blocks ds hs,
  )

  left_fits :
      (o : D) (reduce : Reducer D) (xs ys : List D)
      → Paired t store key size o reduce xs ys
      → AllFit xs
  left_fits o reduce [] ys p = tt
  left_fits o reduce (x ∷ xs) [] p = elim p [ ]
  left_fits o reduce (x ∷ xs) (y ∷ ys) (pair_then _ _ _ _ p q r ps) =
      (p.fits, left_fits o reduce xs ys ps)

  right_fits :
      (o : D) (reduce : Reducer D) (xs ys : List D)
      → Paired t store key size o reduce xs ys
      → AllFit ys
  right_fits o reduce xs [] p = tt
  right_fits o reduce [] (y ∷ ys) p = elim p [ ]
  right_fits o reduce (x ∷ xs) (y ∷ ys) (pair_then _ _ _ _ p q r ps) =
      (q.fits, right_fits o reduce xs ys ps)

  same_length :
      (o : D) (reduce : Reducer D) (xs ys : List D)
      → Paired t store key size o reduce xs ys
      → length xs ≡ length ys
  same_length o reduce [] [] p = refl
  same_length o reduce [] (y ∷ ys) p = elim p [ ]
  same_length o reduce (x ∷ xs) [] p = elim p [ ]
  same_length o reduce (x ∷ xs) (y ∷ ys) (pair_then _ _ _ _ p q r ps) =
      ap suc (same_length o reduce xs ys ps)

  -- The buffer of one rank.
  abbrev pub handed_over : List D → Outcome Memory
  handed_over ds = pack_encoded t rk key (size + 16) 0 ds (blank (length ds * (size + 16)))

  handed_over-encoded : (ds : List D) → AllFit ds → handed_over ds ≡ ok (encoded ds)
  handed_over-encoded ds h = pack_encoded-encoded ds 0 [] (sym (zero_times (size + 16))) h

  -- Two ranks with at least one object and the same number of them, all of one registered type,
  -- that pack no more than its size and are read back by a fresh object from what they packed,
  -- whatever follows it, as do the objects that a registered reducer makes of them in pairs,
  -- where both keys are long longs: the operation that MPI calls on the buffers that
  -- ReduceMultiple fills leaves a buffer from which it reads the pairwise reductions, in their
  -- order.
  pub reduced_pairwise :
      (reducers : Dict ℕ (Reducer D)) (reduce : Reducer D) (o x y : D) (xs ys : List D)
      → rk < 256 ^ 8
      → key < 256 ^ 8
      → get_data_type t store key ≡ ok o
      → t.max_size o ≡ size
      → get_reducer reducers rk ≡ ok reduce
      → Paired t store key size o reduce (x ∷ xs) (y ∷ ys)
      → (bind (handed_over (x ∷ xs)) λ invec. bind (handed_over (y ∷ ys)) λ outvec.
          bind
            (op_type_encoded_reduction t store reducers invec outvec (length (x ∷ xs)))
            λ after. unpack_all t store key (size + 16) 16 0 (length (y ∷ ys)) after)
        ≡ ok (reduce_all t store key size reduce (x ∷ xs) (y ∷ ys))
  reduced_pairwise reducers reduce o x y xs ys long_rk long_key g z f p =
      let fx = left_fits o reduce (x ∷ xs) (y ∷ ys) p in
      let fy = right_fits o reduce (x ∷ xs) (y ∷ ys) p in
      let (after, e, u) =
        encoded_reduces t store key size reducers rk reduce o (x ∷ xs) (y ∷ ys) (encoded (x ∷ xs))
          (encoded (y ∷ ys))
          (read_le-le_bytes 8 rk (cells (le_bytes 8 key) ++ (share x ++ encoded xs)) long_rk)
          (read_le-le_bytes 8 key (share x ++ encoded xs) long_key) g z f p
          (encoded-Blocks (x ∷ xs) fx) (encoded-Blocks (y ∷ ys) fy) in
      let op = op_type_encoded_reduction t store reducers in
      let n = length (x ∷ xs) in
      let unpacked = unpack_all t store key (size + 16) 16 0 (length (y ∷ ys)) in
      ap
        (λ v.
          bind v λ invec. bind (handed_over (y ∷ ys)) λ outvec. bind (op invec outvec n) unpacked)
        (handed_over-encoded (x ∷ xs) fx)
      ∙ ap (λ v. bind v λ outvec. bind (op (encoded (x ∷ xs)) outvec n) unpacked)
          (handed_over-encoded (y ∷ ys) fy)
      ∙ ap (λ v. bind v unpacked) e
      ∙ ap (λ k. unpack_all t store key (size + 16) 16 0 k after)
          (sym (same_length o reduce (x ∷ xs) (y ∷ ys) p))
      ∙ u
