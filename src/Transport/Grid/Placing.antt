-- ===== src/Transport/Grid/Placing.antt =====
-- Where the objects of a block end up.
use vnv.Base.{
  ℕ, zero, suc, ◌+◌, ◌*◌, ◌<◌, ◌≤◌, ◌≡◌, ◌≢◌, refl, sym, ◌∙◌, ap, List, [], ◌∷◌, Option, some, ok,
  arith, length, lt→ltb, zero_times, ◌⊎◌, inl, inr, set, get_elem?, length-set, get_elem?-set_self,
  get_elem?-set_ne,
}
use vnv.Base.Dict.{Dict}
use vnv.Transport.{DataType, Memory, from, get_data_type, bind}
use vnv.Transport.Grid.{Axes, multipliers, step, zeros, place_rank, store_at}
use vnv.Transport.Grid.Counting.{
  product, sizes, number, Inside, global, Fits, number-lt_product, number_injective, global-Inside,
  global_injective, iterators_turn, step_index, length-multipliers, length-Fits, number-zeros,
}

eq-or-gt : (j k : ℕ) → j ≤ k → (j ≡ k) ⊎ (suc j ≤ k)
eq-or-gt j k h = ground arith

plus_suc : (c j : ℕ) → c + suc j ≡ suc (c + j)
plus_suc c j = omega arith

plus_zero : (c : ℕ) → c ≡ c + 0
plus_zero c = omega arith

product-positive : (a b : ℕ) → 0 < a * b → 0 < b
product-positive a zero h = absurd (omega arith)
product-positive a (suc b) h = omega arith

zeros-positive : (axes : Axes) → 0 < product (sizes axes) → Inside (sizes axes) (zeros axes)
zeros-positive [] h = tt
zeros-positive ((zero, offset) ∷ axes) h = absurd (omega (arith, zero_times (product (sizes axes))))
zeros-positive ((suc size, offset) ∷ axes) h =
    (omega arith, zeros-positive axes (product-positive (suc size) (product (sizes axes)) h))

module _ {D : Type 0} (t : DataType D) (store : Dict ℕ D) (key size : ℕ) (buffer : Memory)
    (gs : List ℕ) (axes : Axes) (fits : Fits gs axes) where
  abbrev spot : List ℕ → ℕ
  spot cs = number gs (global axes cs)

  place_injective :
      (cs ds : List ℕ)
      → Inside (sizes axes) cs
      → Inside (sizes axes) ds
      → spot cs ≡ spot ds
      → cs ≡ ds
  place_injective cs ds h k e = global_injective axes cs ds h k (
      number_injective gs (global axes cs) (global axes ds) (global-Inside gs axes cs fits h)
        (global-Inside gs axes ds fits k) e)

  -- The objects from number `j` on are where they belong, and nothing else has changed.
  pub record Placed (object : ℕ → D) (j n : ℕ) (before after : List (Option D)) : Type 0 where
    pub length_kept : length after ≡ length before
    pub placed :
        (cs : List ℕ)
        → Inside (sizes axes) cs
        → j ≤ number (sizes axes) cs
        → number (sizes axes) cs < j + n
        → get_elem? after (spot cs) ≡ some (some (object (number (sizes axes) cs)))
    pub others :
        (p : ℕ)
        → ((cs : List ℕ)
            → Inside (sizes axes) cs
            → j ≤ number (sizes axes) cs
            → number (sizes axes) cs < j + n
            → spot cs ≢ p)
        → get_elem? after p ≡ get_elem? before p

  in_grid :
      (is : List ℕ) (results : List (Option D))
      → Inside (sizes axes) is
      → length results ≡ product gs
      → spot is < length results
  in_grid is results h len =
      omega (arith, len, number-lt_product gs (global axes is) (global-Inside gs axes is fits h))

  later :
      (is ds : List ℕ) (j : ℕ)
      → number (sizes axes) is ≡ j
      → suc j ≤ number (sizes axes) ds
      → number (sizes axes) ds ≢ number (sizes axes) is
  later is ds j e c f = omega (arith, e, c, f)

  extend :
      (object : ℕ → D) (j n : ℕ) (is : List ℕ) (results after : List (Option D))
      → Inside (sizes axes) is
      → number (sizes axes) is ≡ j
      → length results ≡ product gs
      → Placed object (suc j) n (set results (spot is) (some (object j))) after
      → Placed object j (suc n) results after
  extend object j n is results after h e len p = record {
    length_kept = p.length_kept ∙ length-set results (spot is) (some (object j));
    placed = λ cs i a b. elim (eq-or-gt j (number (sizes axes) cs) a) [
      | inl same ↦
          let at = number_injective (sizes axes) is cs h i (e ∙ same) in
          ap (λ q. get_elem? after (spot q)) (sym at)
          ∙ p.others (spot is) (λ ds k c d f.
            absurd (later is ds j e c (ap (number (sizes axes)) (place_injective ds is k h f))))
          ∙ get_elem?-set_self results (spot is) (some (object j)) (in_grid is results h len)
          ∙ ap (λ q. some (some (object q))) same
      | inr more ↦ p.placed cs i more (omega (arith, b))
    ];
    others = λ q away.
        p.others q (λ cs i a b. away cs i (omega (arith, a)) (omega (arith, b)))
        ∙ get_elem?-set_ne results (spot is) q (some (object j))
            (away is h (omega (arith, e)) (omega (arith, e)));
  }

  place_step :
      (n cx : ℕ) (is : List ℕ) (results : List (Option D)) (o d : D)
      → get_data_type t store key ≡ ok o
      → t.unpack o (from (cx * size) buffer) ≡ ok d
      → Inside (sizes axes) is
      → length results ≡ product gs
      → place_rank t store key size buffer (multipliers gs) axes (suc n) cx is results
        ≡ place_rank t store key size buffer
            (multipliers gs)
            axes
            n
            (suc cx)
            (step (multipliers gs) axes is).2
            (set results (spot is) (some d))
  unfolding place_rank
  place_step n cx is results o d e f h len =
      let findex = (step (multipliers gs) axes is).0 in
      let rest =
        place_rank t store key size buffer (multipliers gs) axes n (suc cx)
          (step (multipliers gs) axes is).2 in
      ap
        (λ x. bind x λ o'.
          bind (t.unpack o' (from (cx * size) buffer))
            λ d'. bind (store_at t store key size buffer findex d' results) rest)
        e
      ∙ ap (λ x. bind x λ d'. bind (store_at t store key size buffer findex d' results) rest) f
      ∙ ap (λ q. bind (store_at t store key size buffer q d results) rest)
          (step_index gs axes is fits h)
      ∙ rw (lt→ltb (spot is) (length results) (in_grid is results h len)) refl

  next :
      (is : List ℕ) (j : ℕ)
      → Inside (sizes axes) is
      → number (sizes axes) is ≡ j
      → suc j < product (sizes axes)
      → Inside (sizes axes) (step (multipliers gs) axes is).2
        × (number (sizes axes) (step (multipliers gs) axes is).2 ≡ suc j)
  next is j h e more =
      elim (iterators_turn (multipliers gs) axes is
        (length-multipliers gs ∙ length-Fits gs axes fits) h) [
          | inl (up, inside, n) ↦ (inside, n ∙ ap suc e)
          | inr (down, round, n) ↦ absurd (omega (arith, e, n))
        ]

  place_from :
      (object : ℕ → D) (n j c : ℕ) (is : List ℕ) (results : List (Option D))
      → ((k : ℕ)
          → j ≤ k
          → k < j + n
          → (o : D) × (get_data_type t store key ≡ ok o)
            × (t.unpack o (from ((c + k) * size) buffer) ≡ ok (object k)))
      → (0 < n → Inside (sizes axes) is × (number (sizes axes) is ≡ j))
      → j + n ≤ product (sizes axes)
      → length results ≡ product gs
      → (results' : List (Option D)) × (place_rank t store key size buffer
            (multipliers gs)
            axes
            n
            (c + j)
            is
            results
          ≡ ok results')
        × Placed object j n results results'
  unfolding place_rank
  place_from object zero j c is results reads h room len = (
    results,
    refl,
    record { length_kept = refl; placed = λ cs i a b. absurd (omega arith); others = λ p q. refl },
  )
  place_from object (suc n) j c is results reads h room len =
      let (inside, at) = h (omega arith) in
      let (o, e, f) = reads j (omega arith) (omega arith) in
      let (after, g, p) =
        place_from object n (suc j) c (step (multipliers gs) axes is).2
          (set results (spot is) (some (object j)))
          (λ k a b. reads k (omega (arith, a)) (omega (arith, b)))
          (λ more. next is j inside at (omega (arith, more, room))) (omega (arith, room))
          (length-set results (spot is) (some (object j)) ∙ len) in
      (
        after,
        place_step n (c + j) is results o (object j) e f inside len
            ∙ ap
                (λ x.
                  place_rank t store key size buffer (multipliers gs) axes n x
                    (step (multipliers gs) axes is).2 (set results (spot is) (some (object j))))
                (sym (plus_suc c j))
            ∙ g,
        extend object j n is results after inside at len p,
      )

  zeros_start :
      (n : ℕ)
      → n ≤ product (sizes axes)
      → 0 < n
      → Inside (sizes axes) (zeros axes) × (number (sizes axes) (zeros axes) ≡ 0)
  zeros_start n room more = (zeros-positive axes (omega (arith, room, more)), number-zeros axes)

  pub from_start :
      (object : ℕ → D) (n c : ℕ) (results : List (Option D))
      → ((k : ℕ)
          → k < n
          → (o : D) × (get_data_type t store key ≡ ok o)
            × (t.unpack o (from ((c + k) * size) buffer) ≡ ok (object k)))
      → n ≤ product (sizes axes)
      → length results ≡ product gs
      → (after : List (Option D)) × (place_rank t store key size buffer
            (multipliers gs)
            axes
            n
            c
            (zeros axes)
            results
          ≡ ok after)
        × Placed object 0 n results after
  from_start object n c results reads room len =
      let (after, g, p) =
        place_from object n 0 c (zeros axes) results (λ k a b. reads k (omega (arith, b)))
          (zeros_start n room) (omega (arith, room)) len in
      (
        after,
        ap (λ x. place_rank t store key size buffer (multipliers gs) axes n x (zeros axes) results)
              (plus_zero c)
            ∙ g,
        p,
      )

  -- Where the block of a rank fits into the grid, holds as many places as objects come from the
  -- rank, and these can be read in turn from the buffer, and the results have a slot for every
  -- place of the grid: the loop of GatherV over them returns normally, and puts the object with
  -- the row-major number of any coordinates within the block at the row-major number in the grid
  -- of the coordinates moved by the offset of the block.
  pub block_placed :
      (object : ℕ → D) (n c : ℕ) (results : List (Option D)) (cs : List ℕ)
      → ((k : ℕ)
          → k < n
          → (o : D) × (get_data_type t store key ≡ ok o)
            × (t.unpack o (from ((c + k) * size) buffer) ≡ ok (object k)))
      → n ≤ product (sizes axes)
      → length results ≡ product gs
      → Inside (sizes axes) cs
      → number (sizes axes) cs < n
      → (after : List (Option D)) × (place_rank t store key size buffer
            (multipliers gs)
            axes
            n
            c
            (zeros axes)
            results
          ≡ ok after)
        × (get_elem? after (number gs (global axes cs))
            ≡ some (some (object (number (sizes axes) cs))))
  block_placed object n c results cs reads room len inside small =
      let (after, g, p) = from_start object n c results reads room len in
      (after, g, p.placed cs inside (omega arith) (omega (arith, small)))
