-- ===== src/Comms/Ids.antt =====
-- The ids that getNextId gives out.
use vnv.Base.{ℕ, ◌+◌, ◌≤◌, ◌<◌, ◌≡◌, List, [], ◌∷◌, arith, length, ltb, if◌then◌else◌, All}
use vnv.Comms.{maximum, max_ℕ, raised, all_at, get_next_id}

le-max_left : (a b : ℕ) → a ≤ max_ℕ a b
le-max_left a b = ground arith

le-max_right : (a b : ℕ) → b ≤ max_ℕ a b
le-max_right a b = ground arith

-- A counter counts for the maximum of the first rank.
raised-first : (n : ℕ) (ids vals : List ℕ) → n ≤ maximum (raised (n ∷ ids) vals)
raised-first n ids [] = le-max_left n (maximum ids)
raised-first n ids (v ∷ vals) =
    ground
      (arith, le-max_left n (maximum (raised ids vals)), le-max_left v (maximum (raised ids vals)))

All-weaken : (m n : ℕ) (vs : List ℕ) → m ≤ n → All (λ v. v ≤ m) vs → All (λ v. v ≤ n) vs
All-weaken m n [] le h = tt
All-weaken m n (v ∷ vs) le (h, hs) = (omega (arith, h, le), All-weaken m n vs le hs)

vals_covered :
    (ids vals : List ℕ) → length ids ≡ length vals → All (λ v. v ≤ maximum (raised ids vals)) vals
vals_covered ids [] h = tt
vals_covered [] (v ∷ vals) h = absurd (omega arith)
vals_covered (id ∷ ids) (v ∷ vals) h =
    let m = maximum (raised ids vals) in
    let n = if ltb id v then v else id in
    (
      ground (arith, le-max_left n m),
      All-weaken m (max_ℕ n m) vals (le-max_right n m) (vals_covered ids vals (omega (arith, h))),
    )

-- Where every rank brings one value to getNextId, and there is at least one, the id that the
-- ranks return is no less than any of the values, and less than what the next call returns,
-- whatever values that one is given.
pub ids_increase :
    (id : ℕ) (ids vals vals' : List ℕ)
    → length (id ∷ ids) ≡ length vals
    → let (r, ids') = get_next_id (id ∷ ids) vals in
      All (λ v. v ≤ r) vals × (r < (get_next_id ids' vals').0)
ids_increase id ids vals vals' h =
    let r = maximum (raised (id ∷ ids) vals) in
    (vals_covered (id ∷ ids) vals h, omega (arith, raised-first (r + 1) (all_at (r + 1) ids) vals'))
