-- ===== src/Transport/Grid/Whole.antt =====
-- All the ranks of a gather.
use vnv.Base.{
  ℕ, zero, suc, ◌+◌, ◌*◌, ◌<◌, ◌≤◌, ◌≡◌, refl, ◌∙◌, ap, List, [], ◌∷◌, ◌++◌, Option, ok, arith,
  length, All,
}
use vnv.Base.Dict.{Dict}
use vnv.Transport.{DataType, Memory, from, get_data_type, bind}
use vnv.Transport.Grid.{
  Axes, multipliers, Header, total_of, counts_of, accumulate, empty_slots, unwrap_grid,
  unwrap_result, send_header, send_axes, read_axes, behind_axes, read_headers, place_all,
}
use vnv.Transport.Grid.Counting.{product, sizes, Fits, length-Fits, accumulate-product}
use vnv.Transport.Grid.Placing.{from_start}

-- What the gather of the headers yields.
abbrev pub all_sent : List Header → List ℕ
all_sent [] = []
all_sent (h ∷ headers) = send_header h ++ all_sent headers

read_axes-send_axes :
    (axes : Axes) (l : List ℕ) → read_axes (length axes) (send_axes axes ++ l) ≡ axes
read_axes-send_axes [] l = refl
read_axes-send_axes (a ∷ axes) l = rw (read_axes-send_axes axes l) refl

behind_axes-send_axes :
    (axes : Axes) (l : List ℕ) → behind_axes (length axes) (send_axes axes ++ l) ≡ l
behind_axes-send_axes [] l = refl
behind_axes-send_axes (a ∷ axes) l = behind_axes-send_axes axes l

module _ {D : Type 0} (t : DataType D) (store : Dict ℕ D) (key size : ℕ) (buffer : Memory)
    (gs : List ℕ) where
  -- A block inside the grid, of which no more objects come than it has places.
  abbrev pub Sound : Header → Type 0
  Sound h = Fits gs h.axes × (h.count ≤ product (sizes h.axes))

  read_headers-all_sent :
      (headers : List Header)
      → All Sound headers
      → read_headers (length gs) (length headers) (all_sent headers) ≡ headers
  read_headers-all_sent [] s = refl
  read_headers-all_sent (h ∷ headers) ((f, room), s) =
      let dims = length-Fits gs h.axes f in
      rw
        (
          dims,
          read_axes-send_axes h.axes (all_sent headers),
          behind_axes-send_axes h.axes (all_sent headers),
          read_headers-all_sent headers s,
        )
        refl

  length-empty_slots : (n : ℕ) → length (empty_slots t store key size buffer n) ≡ n
  length-empty_slots zero = refl
  length-empty_slots (suc n) = ap suc (length-empty_slots n)

  total_grows : (c : ℕ) (l : List ℕ) → c ≤ total_of c l
  total_grows c [] = omega arith
  total_grows c (n ∷ l) = omega (arith, total_grows (c + n) l)

  ranks_written :
      (object : ℕ → D) (headers : List Header) (c : ℕ) (results : List (Option D))
      → All Sound headers
      → ((k : ℕ)
          → c ≤ k
          → k < total_of c (counts_of headers)
          → (o : D) × (get_data_type t store key ≡ ok o)
            × (t.unpack o (from (k * size) buffer) ≡ ok (object k)))
      → length results ≡ product gs
      → (after : List (Option D)) × (place_all t store key size buffer
            (multipliers gs)
            headers
            c
            results
          ≡ ok after)
        × (length after ≡ product gs)
  unfolding place_all
  ranks_written object [] c results s reads len = (results, refl, len)
  ranks_written object (h ∷ headers) c results ((f, room), s) reads len =
      let grows = total_grows (c + h.count) (counts_of headers) in
      let (middle, g, p) =
        from_start t store key size buffer gs h.axes f (λ k. object (c + k)) h.count c results
          (λ k b. reads (c + k) (omega arith) (omega (arith, b, grows))) room len in
      let (after, g', len') =
        ranks_written object headers (c + h.count) middle s (λ k a b. reads k (omega (arith, a)) b)
          (p.length_kept ∙ len) in
      (
        after,
        ap
              (λ x. bind x λ results'.
                place_all t store key size buffer (multipliers gs) headers (c + h.count) results')
              g
            ∙ g',
        len',
      )

  -- Where the block of every rank fits into the grid and holds as many places as objects come
  -- from it, and all the objects can be read in turn from the buffer, GatherV reads the headers
  -- that the ranks sent, writes all the objects within the results, returns normally, and its
  -- results have a slot for every place of the grid.
  pub grid_written :
      (object : ℕ → D) (headers : List Header)
      → All Sound headers
      → ((k : ℕ)
          → k < total_of 0 (counts_of headers)
          → (o : D) × (get_data_type t store key ≡ ok o)
            × (t.unpack o (from (k * size) buffer) ≡ ok (object k)))
      → (after : List (Option D)) × (unwrap_result t store key size buffer gs
            (length headers)
            (all_sent headers)
          ≡ ok after)
        × (length after ≡ product gs)
  grid_written object headers s reads =
      let (after, g, len) =
        ranks_written object headers 0 (empty_slots t store key size buffer (accumulate 1 gs)) s
          (λ k a b. reads k b)
          (length-empty_slots (accumulate 1 gs) ∙ accumulate-product 1 gs ∙ omega arith) in
      (
        after,
        ap (unwrap_grid t store key size buffer gs) (read_headers-all_sent headers s) ∙ g,
        len,
      )
