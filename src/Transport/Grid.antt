-- ===== src/Transport/Grid.antt =====
-- DataTypeCommunication::GatherV: a grid of objects, of which every rank sends a block.
pub mod Counting
pub mod Placing
pub mod Whole
use vnv.Base.{
  ℕ, zero, suc, ◌+◌, ◌*◌, ◌%◌, Bool, true, false, List, [], ◌∷◌, Option, none, some, Outcome, ok,
  raise, fault, length, set, ltb, if◌then◌else◌,
}
use vnv.Base.Dict.{Dict}
use vnv.Transport.{DataType, Memory, from, get_data_type, bind}

-- The size and the offset of a block in each dimension.
abbrev pub Axes : Type 0
Axes = List (ℕ × ℕ)

-- What a rank tells of its block: how many objects it sends, and for each dimension the size
-- and the offset.
pub record Header : Type 0 where
  pub count : ℕ
  pub axes : Axes

abbrev pub send_axes : Axes → List ℕ
send_axes [] = []
send_axes ((size, offset) ∷ axes) = size ∷ offset ∷ send_axes axes

abbrev pub send_header : Header → List ℕ
send_header h = h.count ∷ send_axes h.axes

abbrev pub read_axes : ℕ → List ℕ → Axes
read_axes zero l = []
read_axes (suc k) (size ∷ offset ∷ l) = (size, offset) ∷ read_axes k l
read_axes (suc k) l = []

abbrev pub behind_axes : ℕ → List ℕ → List ℕ
behind_axes zero l = l
behind_axes (suc k) (size ∷ offset ∷ l) = behind_axes k l
behind_axes (suc k) l = []

-- `result`, from which `csize` entries are read for every rank.
abbrev pub read_headers : (dim ranks : ℕ) → List ℕ → List Header
read_headers dim zero l = []
read_headers dim (suc n) [] = []
read_headers dim (suc n) (count ∷ l) =
    record { count = count; axes = read_axes dim l } ∷ read_headers dim n (behind_axes dim l)

-- `displs`, `counts` and `total`.
abbrev pub displacements : ℕ → List ℕ → List ℕ
displacements total [] = []
displacements total (c ∷ counts) = total ∷ displacements (total + c) counts

abbrev pub total_of : ℕ → List ℕ → ℕ
total_of total [] = total
total_of total (c ∷ counts) = total_of (total + c) counts

abbrev pub counts_of : List Header → List ℕ
counts_of [] = []
counts_of (h ∷ headers) = h.count ∷ counts_of headers

-- std::accumulate with std::multiplies
abbrev pub accumulate : ℕ → List ℕ → ℕ
accumulate n [] = n
accumulate n (g ∷ gsizes) = accumulate (n * g) gsizes

abbrev pub further_multiplier : ℕ → List ℕ → List ℕ
further_multiplier g [] = 1 ∷ []
further_multiplier g (m ∷ ms) = m * g ∷ m ∷ ms

-- From the last dimension on: the first argument is the size of the dimension behind.
abbrev pub multipliers : List ℕ → List ℕ
multipliers [] = []
multipliers (g ∷ []) = 1 ∷ []
multipliers (g ∷ h ∷ gsizes) = further_multiplier h (multipliers (h ∷ gsizes))

-- The iterator of a dimension moves where those behind it have come round.
abbrev pub turned : Bool → ℕ → ℕ → ℕ
turned true size iter = iter
turned false size iter = (iter + 1) % size

abbrev pub still_up : Bool → ℕ → ℕ → Bool
still_up true size iter = true
still_up false size iter = ltb 0 (turned false size iter)

-- The loop over the dimensions, the last first: `findex`, `up` and the iterators.
abbrev pub step : List ℕ → Axes → List ℕ → ℕ × Bool × List ℕ
step (m ∷ ms) ((size, offset) ∷ axes) (i ∷ iters) =
    let (findex, up, iters') = step ms axes iters in
    (findex + (offset + i) * m, still_up up size i, turned up size i ∷ iters')
step ms axes iters = (0, false, [])

abbrev pub zeros : Axes → List ℕ
zeros [] = []
zeros (a ∷ axes) = 0 ∷ zeros axes

module _ {D : Type 0} (t : DataType D) (store : Dict ℕ D) (key size : ℕ) (buffer : Memory) where
  abbrev pub store_at : ℕ → D → List (Option D) → Outcome (List (Option D))
  store_at i d results = if ltb i (length results) then ok (set results i (some d)) else raise fault

  -- The loop over the objects of one rank.
  unfoldable pub place_rank :
      (ms : List ℕ) (axes : Axes) (count cindex : ℕ) (iters : List ℕ)
      → List (Option D)
      → Outcome (List (Option D))
  place_rank ms axes zero cindex iters results = ok results
  place_rank ms axes (suc count) cindex iters results =
      let (findex, up, iters') = step ms axes iters in
      bind (get_data_type t store key) λ o. bind (t.unpack o (from (cindex * size) buffer)) λ d.
        bind (store_at findex d results)
          λ results'. place_rank ms axes count (suc cindex) iters' results'

  -- The loop over the ranks.
  unfoldable pub place_all :
      (ms : List ℕ) → List Header → ℕ → List (Option D) → Outcome (List (Option D))
  place_all ms [] cindex results = ok results
  place_all ms (h ∷ headers) cindex results =
      bind (place_rank ms h.axes h.count cindex (zeros h.axes) results)
        λ results'. place_all ms headers (cindex + h.count) results'

  abbrev pub empty_slots : ℕ → List (Option D)
  empty_slots zero = []
  empty_slots (suc n) = none ∷ empty_slots n

  abbrev pub unwrap_grid : List ℕ → List Header → Outcome (List (Option D))
  unwrap_grid gsizes headers =
      place_all (multipliers gsizes) headers 0 (empty_slots (accumulate 1 gsizes))

  -- From what the ranks told, and the objects that they sent.
  abbrev pub unwrap_result :
      (gsizes : List ℕ) (ranks : ℕ) (result : List ℕ) → Outcome (List (Option D))
  unwrap_result gsizes ranks result = unwrap_grid gsizes (read_headers (length gsizes) ranks result)
