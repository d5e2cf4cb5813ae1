-- ===== src/Comms/Visits.antt =====
-- The loops of inCommChain over the neighbours, and what has been visited.
use vnv.Base.{
  ℕ, suc, ◌≤◌, ◌<◌, ◌≡◌, ◌≢◌, ◌⊎◌, inl, inr, refl, sym, subst, ◌∙◌, ap, Bool, true, false, List, [],
  ◌∷◌, Option, some, arith, length, if◌then◌else◌, ◌==◌, ==_iff, Bool-cases, nat_key,
}
use vnv.Base.Dict.{find}
use vnv.Comms.{CommMap, has, neighbours, search}

abbrev pub In : ℕ → List ℕ → Type 0
In x l = has x l ≡ true

-- Going from a communicator to its parents and its children, again and again.
pub data Reaches (map : CommMap) (z : ℕ) : ℕ → Type 0 where
  there : Reaches map z z
  link : (x y : ℕ) → In y (neighbours map x) → Reaches map z y → Reaches map z x

abbrev Grows : List ℕ → List ℕ → Type 0
Grows v v' = (x : ℕ) → In x v → In x v'

-- How many keys of the map are not visited.
abbrev pub left_over : CommMap → List ℕ → ℕ
left_over [] v = 0
left_over ((k, w) ∷ map) v = if has k v then left_over map v else suc (left_over map v)

left_over-Grows : (map : CommMap) (v v' : List ℕ) → Grows v v' → left_over map v' ≤ left_over map v
left_over-Grows [] v v' g = omega arith
left_over-Grows ((k, w) ∷ map) v v' g = ground (arith, g k, left_over-Grows map v v' g)

left_over-bound :
    (map : CommMap) (v v' : List ℕ) (n : ℕ)
    → Grows v v'
    → left_over map v ≤ n
    → left_over map v' ≤ n
left_over-bound map v v' n g h = omega (arith, left_over-Grows map v v' g, h)

pub left_over-nil : (map : CommMap) → left_over map [] ≡ length map
left_over-nil [] = refl
left_over-nil (kw ∷ map) = ap suc (left_over-nil map)

pub Grows-cons : (id : ℕ) (v : List ℕ) → Grows v (id ∷ v)
Grows-cons id v x h = ground arith

-- A node that is new, and has neighbours, uses one of the keys up.
pub left_over-cons :
    (map : CommMap) (id y : ℕ) (v : List ℕ)
    → has id v ≡ false
    → In y (neighbours map id)
    → left_over map (id ∷ v) < left_over map v
unfolding neighbours find
left_over-cons [] id y v new h = ground arith
left_over-cons ((k, w) ∷ map) id y v new h = ground (
  arith,
  ==_iff id k,
  ==_iff k id,
  left_over-Grows map v (id ∷ v) (Grows-cons id v),
  left_over-cons map id y v new,
)

false-ne-true : false ≢ true
false-ne-true e = ground arith

-- What is new since `v` has all its neighbours in `v'`.
abbrev pub Closed : CommMap → List ℕ → List ℕ → Type 0
Closed map v v' = (x y : ℕ) → In x v' → has x v ≡ false → In y (neighbours map x) → In y v'

Closed-trans :
    (map : CommMap) (u v w : List ℕ) → Grows v w → Closed map u v → Closed map v w → Closed map u w
Closed-trans map u v w g c d x y i o n = elim (Bool-cases (has x v)) [
  | inl old ↦ g y (c x y old o n)
  | inr new ↦ d x y i new n
]

-- A call that ended: what it says, where it has been, and what it did not meet.
pub record Answer (map : CommMap) (z : ℕ) (v : List ℕ) (starts : List ℕ) (r : Bool × List ℕ)
    : Type 0 where
  pub grows : Grows v r.1
  pub found : r.0 ≡ true → (x : ℕ) × In x starts × Reaches map z x
  pub closed : r.0 ≡ false → Closed map v r.1
  pub visited : r.0 ≡ false → (x : ℕ) → In x starts → In x r.1
  pub unmet : r.0 ≡ false → has z v ≡ false → has z r.1 ≡ false

abbrev pub Answers : CommMap → ℕ → List ℕ → List ℕ → Option (Bool × List ℕ) → Type 0
Answers map z v starts o = (r : Bool × List ℕ) × (o ≡ some r) × Answer map z v starts r

pub In-head : (p : ℕ) (ps : List ℕ) → In p (p ∷ ps)
In-head p ps = ground (arith, ==_iff p p)

pub In-tail : (x p : ℕ) (ps : List ℕ) → In x ps → In x (p ∷ ps)
In-tail x p ps h = ground arith

pub In-only : (x p : ℕ) → In x (p ∷ []) → x ≡ p
In-only x p h = ground (arith, ==_iff x p)

pub In-cases : (x p : ℕ) (ps : List ℕ) → In x (p ∷ ps) → (x ≡ p) ⊎ In x ps
In-cases x p ps h = ground (arith, ==_iff x p)

pub true-ne-false : true ≢ false
true-ne-false e = ground arith

-- It met what it looks for.
pub met-Answer :
    (map : CommMap) (z x : ℕ) (v v' starts : List ℕ)
    → Grows v v'
    → In x starts
    → Reaches map z x
    → Answer map z v starts (true, v')
met-Answer map z x v v' starts g i q = record {
  grows = g;
  found = λ e. (x, i, q);
  closed = λ e. absurd (true-ne-false e);
  visited = λ e. absurd (true-ne-false e);
  unmet = λ e. absurd (true-ne-false e);
}

-- It looked at nothing new.
pub idle-Answer :
    (map : CommMap) (z : ℕ) (v starts : List ℕ)
    → ((x : ℕ) → In x starts → In x v)
    → Answer map z v starts (false, v)
idle-Answer map z v starts old = record {
  grows = λ x h. h;
  found = λ e. absurd (false-ne-true e);
  closed = λ e x y i o n. absurd (false-ne-true (sym o ∙ i));
  visited = λ e. old;
  unmet = λ e h. h;
}

then-Answer :
    (map : CommMap) (z p : ℕ) (ps v : List ℕ) (r s : Bool × List ℕ)
    → r.0 ≡ false
    → Answer map z v (p ∷ []) r
    → Answer map z r.1 ps s
    → Answer map z v (p ∷ ps) s
then-Answer map z p ps v r s f a b = record {
  grows = λ x h. b.grows x (a.grows x h);
  found = λ t. let (x, i, q) = b.found t in (x, In-tail x p ps i, q);
  closed = λ g. Closed-trans map v r.1 s.1 b.grows (a.closed f) (b.closed g);
  visited = λ g x i. elim (In-cases x p ps i) [
    | inl same ↦ subst (λ y. In y s.1) (sym same) (b.grows p (a.visited f p (In-head p [])))
    | inr rest ↦ b.visited g x rest
  ];
  unmet = λ g h. b.unmet g (a.unmet f h);
}

pub search-Answers :
    (map : CommMap) (z bound : ℕ) (call : ℕ → List ℕ → Option (Bool × List ℕ))
    → ((x : ℕ) (v : List ℕ) → left_over map v ≤ bound → Answers map z v (x ∷ []) (call x v))
    → (ps v : List ℕ) → ((y : ℕ) → In y ps → left_over map v ≤ bound)
    → Answers map z v ps (search z call ps v)
search-Answers map z bound call answers [] v le =
    ((false, v), refl, idle-Answer map z v [] (λ x h. absurd (false-ne-true h)))
search-Answers map z bound call answers (p ∷ ps) v le = elim (Bool-cases (z == p)) [
  | inl met ↦ (
    (true, v),
    rw (met) refl,
    met-Answer map z p v v (p ∷ ps) (λ x h. h) (In-head p ps)
        (subst (Reaches map z) ((==_iff z p).0 met) there),
  )
  | inr other ↦
      let (r, e, a) = answers p v (le p (In-head p ps)) in
      elim (Bool-cases r.0) [
        | inl t ↦
            let (x, i, q) = a.found t in
            (
              (true, r.1),
              rw (other, e, t) refl,
              met-Answer map z p v r.1 (p ∷ ps) a.grows (In-head p ps)
                  (subst (Reaches map z) (In-only x p i) q),
            )
        | inr f ↦
            let (s, e', b) =
              search-Answers map z bound call answers ps r.1
                (λ y i. left_over-bound map v r.1 bound a.grows (le y (In-tail y p ps i))) in
            (s, rw (other, e, f) e', then-Answer map z p ps v r s f a b)
      ]
]

pub search-none :
    (map : CommMap) (z : ℕ) (call : ℕ → List ℕ → Option (Bool × List ℕ)) (ps v : List ℕ)
    → ((y : ℕ) → In y ps → ⊥)
    → Answers map z v ps (search z call ps v)
search-none map z call [] v none' =
    ((false, v), refl, idle-Answer map z v [] (λ x h. absurd (false-ne-true h)))
search-none map z call (p ∷ ps) v none' = absurd (none' p (In-head p ps))
