-- ===== src/Transport/Reductions/Pointwise.antt =====
-- The operation on two buffers reduces the objects of one with those of the other, in their order.
use mathlib.Core.List.{append_assoc}
use vnv.Base.{
  ℕ, suc, ◌+◌, ◌*◌, ◌≤◌, ◌≡◌, refl, sym, ◌∙◌, ap, List, [], ◌∷◌, ◌++◌, some, Outcome, ok, arith,
  length, length-append, suc_times, zero_times, nat_key,
}
use vnv.Base.Dict.{Dict}
use vnv.Transport.{
  DataType, Memory, Bytes, cells, from, write, overlay, and_cell, bind, get_data_type, unpack_all,
  cons_ok, read_long,
}
use vnv.Transport.Bytes.{write-append, from-append, append_ok, length-cells}
use vnv.Transport.Reductions.{Reducer, get_reducer, reduce_from, op_type_encoded_reduction}

overlay_onto :
    (bs : Bytes) (c rest : Memory)
    → length bs ≤ length c
    → (tail : Memory) × (overlay bs (c ++ rest) ≡ ok ((cells bs ++ tail) ++ rest))
      × (length bs + length tail ≡ length c)
overlay_onto [] c rest h = (c, refl, omega arith)
overlay_onto (b ∷ bs) [] rest h = absurd (omega arith)
overlay_onto (b ∷ bs) (x ∷ c) rest h =
    let (tail, e, n) = overlay_onto bs c rest (omega arith) in
    (tail, ap (and_cell (some b)) e, omega (arith, n))

plus_zero : (a : ℕ) → a ≡ a + 0
plus_zero a = omega arith

module _ {D : Type 0} (t : DataType D) (store : Dict ℕ D) (key size : ℕ) where
  -- The objects of the type, as the plug-in packs and unpacks them.
  pub record Packs (o d : D) : Type 0 where
    pub fits : length (t.pack d) ≤ size
    pub reads_back : (rest : Memory) → t.unpack o (cells (t.pack d) ++ rest) ≡ ok d

  -- A buffer of objects, each behind its two keys.
  abbrev pub Blocks : List D → Memory → Type 0
  Blocks [] m = m ≡ []
  Blocks (d ∷ ds) m =
      (h : Memory) × (tail : Memory) × (rest : Memory) × (m
        ≡ h ++ ((cells (t.pack d) ++ tail) ++ rest))
      × (length h ≡ 16)
      × (length (t.pack d) + length tail ≡ size)
      × Blocks ds rest

  block_from :
      (i : ℕ) (a h c rest : Memory)
      → i * (size + 16) ≡ length a
      → length h ≡ 16
      → from (i * (size + 16) + 16) (a ++ (h ++ (c ++ rest))) ≡ c ++ rest
  block_from i a h c rest e n =
      ap (λ j. from (j + 16) (a ++ (h ++ (c ++ rest)))) e
      ∙ from-append a (h ++ (c ++ rest)) 16
      ∙ ap (λ j. from j (h ++ (c ++ rest))) (sym n ∙ plus_zero (length h))
      ∙ from-append h (c ++ rest) 0

  block_write :
      (i : ℕ) (a h c rest : Memory) (bs : Bytes)
      → i * (size + 16) ≡ length a
      → length h ≡ 16
      → length c ≡ size
      → length bs ≤ size
      → (tail : Memory) × (write (i * (size + 16) + 16) bs (a ++ (h ++ (c ++ rest)))
          ≡ ok (a ++ (h ++ ((cells bs ++ tail) ++ rest))))
        × (length bs + length tail ≡ size)
  block_write i a h c rest bs e n l short =
      let (tail, w, k) = overlay_onto bs c rest (omega arith) in
      (
        tail,
        ap (λ j. write (j + 16) bs (a ++ (h ++ (c ++ rest)))) e
            ∙ write-append a (h ++ (c ++ rest)) 16 bs
            ∙ ap (λ j. append_ok a (write j bs (h ++ (c ++ rest)))) (sym n ∙ plus_zero (length h))
            ∙ ap (append_ok a) (write-append h (c ++ rest) 0 bs ∙ ap (append_ok h) w),
        k ∙ l,
      )

  abbrev pub reduce_all : Reducer D → List D → List D → List D
  reduce_all reduce (x ∷ xs) (y ∷ ys) = reduce x y ∷ reduce_all reduce xs ys
  reduce_all reduce xs ys = []

  -- Two lists of one length, whose objects and results the plug-ins pack and unpack.
  pub data Paired (o : D) (reduce : Reducer D) : List D → List D → Type 0 where
    none_left : Paired o reduce [] []
    pair_then :
        (x y : D) (xs ys : List D)
        → Packs o x
        → Packs o y
        → Packs o (reduce x y)
        → Paired o reduce xs ys
        → Paired o reduce (x ∷ xs) (y ∷ ys)

  length-block :
      (i : ℕ) (a h c : Memory)
      → i * (size + 16) ≡ length a
      → length h ≡ 16
      → length c ≡ size
      → suc i * (size + 16) ≡ length (a ++ (h ++ c))
  length-block i a h c e n l =
      omega (arith, e, n, l, suc_times i (size + 16), length-append a (h ++ c), length-append h c)

  regroup : (a h c rest : Memory) → a ++ (h ++ (c ++ rest)) ≡ (a ++ (h ++ c)) ++ rest
  regroup a h c rest =
      ap (λ m. a ++ m) (sym (append_assoc h c rest)) ∙ sym (append_assoc a (h ++ c) rest)

  length-cells_tail :
      (d : D) (tail : Memory)
      → length (t.pack d) + length tail ≡ size
      → length (cells (t.pack d) ++ tail) ≡ size
  length-cells_tail d tail n =
      omega (arith, n, length-append (cells (t.pack d)) tail, length-cells (t.pack d))

  reads :
      (o d : D) (i : ℕ) (a h tail rest : Memory)
      → Packs o d
      → i * (size + 16) ≡ length a
      → length h ≡ 16
      → t.unpack o (from (i * (size + 16) + 16) (a ++ (h ++ ((cells (t.pack d) ++ tail) ++ rest))))
        ≡ ok d
  reads o d i a h tail rest p e n =
      ap (t.unpack o) (
        block_from i a h (cells (t.pack d) ++ tail) rest e n
        ∙ append_assoc (cells (t.pack d)) tail rest)
      ∙ p.reads_back (tail ++ rest)

  reduce_step :
      (reduce : Reducer D) (o x y : D) (i len : ℕ) (invec outvec outvec' : Memory)
      → get_data_type t store key ≡ ok o
      → t.unpack o (from (i * (size + 16) + 16) invec) ≡ ok x
      → t.unpack o (from (i * (size + 16) + 16) outvec) ≡ ok y
      → write (i * (size + 16) + 16) (t.pack (reduce x y)) outvec ≡ ok outvec'
      → reduce_from t store key (size + 16) reduce i (suc len) invec outvec
        ≡ reduce_from t store key (size + 16) reduce (suc i) len invec outvec'
  unfolding reduce_from
  reduce_step reduce o x y i len invec outvec outvec' g e f w =
      let p = i * (size + 16) + 16 in
      let rest = reduce_from t store key (size + 16) reduce (suc i) len invec in
      ap
        (λ r. bind r λ o'. bind (t.unpack o' (from p invec)) λ x'.
          bind (t.unpack o' (from p outvec))
            λ y'. bind (write p (t.pack (reduce x' y')) outvec) rest)
        g
      ∙ ap
          (λ r. bind r λ x'.
            bind (t.unpack o (from p outvec))
              λ y'. bind (write p (t.pack (reduce x' y')) outvec) rest)
          e
      ∙ ap (λ r. bind r λ y'. bind (write p (t.pack (reduce x y')) outvec) rest) f
      ∙ ap (λ r. bind r rest) w

  reduce_from-Blocks :
      (reduce : Reducer D) (o : D) (xs ys : List D) (i : ℕ) (a b m n : Memory)
      → get_data_type t store key ≡ ok o
      → Paired o reduce xs ys
      → i * (size + 16) ≡ length a
      → i * (size + 16) ≡ length b
      → Blocks xs m
      → Blocks ys n
      → (n' : Memory) × (reduce_from t store key (size + 16) reduce i (length xs) (a ++ m) (b ++ n)
          ≡ ok (b ++ n'))
        × Blocks (reduce_all reduce xs ys) n'
  unfolding reduce_from
  reduce_from-Blocks reduce o [] [] i a b m n g none_left e f x y = (n, refl, y)
  reduce_from-Blocks reduce o [] (y ∷ ys) i a b m n g p e f u v = elim p [ ]
  reduce_from-Blocks reduce o (x ∷ xs) [] i a b m n g p e f u v = elim p [ ]
  reduce_from-Blocks reduce o (x ∷ xs) (y ∷ ys) i a b m n g (pair_then _ _ _ _ p q r ps) e f
        (h, tail, rest, at, l, k, bs) (h', tail', rest', at', l', k', bs') =
      let c = cells (t.pack x) ++ tail in
      let c' = cells (t.pack y) ++ tail' in
      let z = reduce x y in
      let (new, w, kn) =
        block_write i b h' c' rest' (t.pack z) f l' (length-cells_tail y tail' k') r.fits in
      let cn = cells (t.pack z) ++ new in
      let (n', e', blocks) =
        reduce_from-Blocks reduce o xs ys (suc i) (a ++ (h ++ c)) (b ++ (h' ++ cn)) rest rest' g ps
          (length-block i a h c e l (length-cells_tail x tail k))
          (length-block i b h' cn f l' (length-cells_tail z new kn)) bs bs' in
      (
        h' ++ (cn ++ n'),
        ap (λ v. reduce_from t store key (size + 16) reduce i (suc (length xs)) v (b ++ n))
              (ap (λ v. a ++ v) at)
            ∙ ap
                (reduce_from t store key (size + 16) reduce i (suc (length xs))
                  (a ++ (h ++ (c ++ rest))))
                (ap (λ v. b ++ v) at')
            ∙ reduce_step reduce o x y i (length xs) (a ++ (h ++ (c ++ rest)))
                (b ++ (h' ++ (c' ++ rest'))) (b ++ (h' ++ (cn ++ rest'))) g
                (reads o x i a h tail rest p e l) (reads o y i b h' tail' rest' q f l') w
            ∙ ap
                (λ v.
                  reduce_from t store key (size + 16) reduce (suc i) (length xs) v
                    (b ++ (h' ++ (cn ++ rest'))))
                (regroup a h c rest)
            ∙ ap
                (reduce_from t store key (size + 16) reduce (suc i) (length xs)
                  ((a ++ (h ++ c)) ++ rest))
                (regroup b h' cn rest')
            ∙ e'
            ∙ ap ok (sym (regroup b h' cn n')),
        (h', new, n', refl, l', kn, blocks),
      )

  unpack_all-Blocks :
      (reduce : Reducer D) (o : D) (xs ys : List D) (i : ℕ) (a m : Memory)
      → get_data_type t store key ≡ ok o
      → Paired o reduce xs ys
      → i * (size + 16) ≡ length a
      → Blocks (reduce_all reduce xs ys) m
      → unpack_all t store key (size + 16) 16 i (length xs) (a ++ m) ≡ ok (reduce_all reduce xs ys)
  unfolding unpack_all
  unpack_all-Blocks reduce o [] ys i a m g p e b = refl
  unpack_all-Blocks reduce o (x ∷ xs) [] i a m g p e b = elim p [ ]
  unpack_all-Blocks reduce o (x ∷ xs) (y ∷ ys) i a m g (pair_then _ _ _ _ p q r ps) e
        (h, tail, rest, at, l, k, bs) =
      let z = reduce x y in
      let c = cells (t.pack z) ++ tail in
      let w = unpack_all t store key (size + 16) 16 (suc i) (length xs) in
      ap (λ v. unpack_all t store key (size + 16) 16 i (suc (length xs)) (a ++ v)) at
      ∙ ap
          (λ v. bind v λ o'.
            bind (t.unpack o' (from (i * (size + 16) + 16) (a ++ (h ++ (c ++ rest)))))
              λ d. cons_ok t d (w (a ++ (h ++ (c ++ rest)))))
          g
      ∙ ap (λ v. bind v λ d. cons_ok t d (w (a ++ (h ++ (c ++ rest)))))
          (reads o z i a h tail rest r e l)
      ∙ ap (λ v. cons_ok t z (w v)) (regroup a h c rest)
      ∙ ap (cons_ok t z) (
          unpack_all-Blocks reduce o xs ys (suc i) (a ++ (h ++ c)) rest g ps
            (length-block i a h c e l (length-cells_tail z tail k)) bs)

  pub encoded_reduces :
      (reducers : Dict ℕ (Reducer D)) (reducer_key : ℕ) (reduce : Reducer D) (o : D)
      (xs ys : List D) (invec outvec : Memory)
      → read_long invec ≡ ok reducer_key
      → read_long (from 8 invec) ≡ ok key
      → get_data_type t store key ≡ ok o
      → t.max_size o ≡ size
      → get_reducer reducers reducer_key ≡ ok reduce
      → Paired o reduce xs ys
      → Blocks xs invec
      → Blocks ys outvec
      → (after : Memory) × (op_type_encoded_reduction t store reducers invec outvec (length xs)
          ≡ ok after)
        × (unpack_all t store key (size + 16) 16 0 (length xs) after ≡ ok (reduce_all reduce xs ys))
  unfolding op_type_encoded_reduction
  encoded_reduces reducers reducer_key reduce o xs ys invec outvec r k g z f p x y =
      let start = zero_times (size + 16) in
      let (after, e, blocks) =
        reduce_from-Blocks reduce o xs ys 0 [] [] invec outvec g p (sym start) (sym start) x y in
      let loop : ℕ → Reducer D → Outcome Memory =
        λ n reduce'. reduce_from t store key (n + 16) reduce' 0 (length xs) invec outvec in
      (
        after,
        ap
              (λ v. bind v λ rk. bind (read_long (from 8 invec)) λ dk.
                bind (get_data_type t store dk) λ o'. bind (get_reducer reducers rk) λ reduce'.
                  reduce_from t store dk (t.max_size o' + 16) reduce' 0 (length xs) invec outvec)
              r
            ∙ ap
                (λ v. bind v λ dk. bind (get_data_type t store dk) λ o'.
                  bind (get_reducer reducers reducer_key) λ reduce'.
                    reduce_from t store dk (t.max_size o' + 16) reduce' 0 (length xs) invec outvec)
                k
            ∙ ap (λ v. bind v λ o'. bind (get_reducer reducers reducer_key) (loop (t.max_size o')))
                g
            ∙ ap (λ v. bind v (loop (t.max_size o))) f
            ∙ ap (λ n. loop n reduce) z
            ∙ e,
        unpack_all-Blocks reduce o xs ys 0 [] after g p (sym start) blocks,
      )
