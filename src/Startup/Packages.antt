-- ===== src/Startup/Packages.antt =====
-- The registration of packages, which may register each other: it ends, and calls every
-- registration once.
use vnv.Base.{
  ℕ, zero, suc, ◌≤◌, ◌<◌, ◌≡◌, inl, inr, refl, sym, ap, ◌∙◌, subst, true, false, List, [], ◌∷◌,
  Option, some, Str, str_eq, str_eq_iff, Bool-cases, if◌then◌else◌, arith, length,
}
use vnv.Startup.{has_name, Registry, register_each, run_time_package_registration}

abbrev pub In : Str → List Str → Type 0
In x l = has_name x l ≡ true

-- How many of the names are not registered.
abbrev pub left_over : List Str → List Str → ℕ
left_over [] v = 0
left_over (k ∷ names) v = if has_name k v then left_over names v else suc (left_over names v)

abbrev pub Grows : List Str → List Str → Type 0
Grows v w = (x : Str) → In x v → In x w

left_over-Grows : (names v w : List Str) → Grows v w → left_over names w ≤ left_over names v
left_over-Grows [] v w g = omega arith
left_over-Grows (k ∷ names) v w g = ground (arith, g k, left_over-Grows names v w g)

Grows-cons : (p : Str) (v : List Str) → Grows v (p ∷ v)
Grows-cons p v x h = ground (arith, h)

left_over-cons :
    (names v : List Str) (p : Str)
    → In p names
    → has_name p v ≡ false
    → left_over names (p ∷ v) < left_over names v
left_over-cons [] v p i new = ground arith
left_over-cons (k ∷ names) v p i new = ground (
  arith,
  str_eq_iff p k,
  str_eq_iff k p,
  left_over-Grows names v (p ∷ v) (Grows-cons p v),
  left_over-cons names v p,
)

-- No name stands twice.
abbrev pub Distinct : List Str → Type 0
Distinct [] = Unit
Distinct (x ∷ xs) = (has_name x xs ≡ false) × Distinct xs

module _ (registers : Str → List Str) where
  -- The packages whose registration was called are those that are registered, each once.
  pub record IsRecorded (s : Registry) : Type 0 where
    pub same : s.called ≡ s.plugins
    pub once : Distinct s.called

  -- What a call leaves: more packages, and for each that is new those that it registers.
  pub record Registers (s t : Registry) : Type 0 where
    pub grows : Grows s.plugins t.plugins
    pub recorded : IsRecorded t
    pub closed :
        (x y : Str)
        → In x t.plugins
        → has_name x s.plugins ≡ false
        → In y (registers x)
        → In y t.plugins

  Registers-refl : (s : Registry) → IsRecorded s → Registers s s
  Registers-refl s i = record {
    grows = λ x h. h;
    recorded = i;
    closed = λ x y h new. absurd (cc (sym h ∙ new));
  }

  Registers-trans : (s t u : Registry) → Registers s t → Registers t u → Registers s u
  Registers-trans s t u a b = record {
    grows = λ x h. b.grows x (a.grows x h);
    recorded = b.recorded;
    closed = λ x y h new i. elim (Bool-cases (has_name x t.plugins)) [
      | inl old ↦ b.grows y (a.closed x y old new i)
      | inr newer ↦ b.closed x y h newer i
    ];
  }

  -- The packages that may be met: those that they register are among them.
  module _ (names : List Str)
      (all_met : (x y : Str) → In x names → In y (registers x) → In y names) where
    abbrev Ends : (Str → Registry → Option Registry) → ℕ → Type 0
    Ends call fuel =
        (p : Str) (s : Registry)
        → In p names
        → IsRecorded s
        → left_over names s.plugins < fuel
        → (t : Registry) × (call p s ≡ some t) × Registers s t × In p t.plugins

    each-Ends :
        (call : Str → Registry → Option Registry) (fuel : ℕ) (ps : List Str) (s : Registry)
        → Ends call fuel
        → ((y : Str) → In y ps → In y names)
        → IsRecorded s
        → left_over names s.plugins < fuel
        → (t : Registry) × (register_each call ps s ≡ some t)
          × Registers s t
          × ((y : Str) → In y ps → In y t.plugins)
    each-Ends call fuel [] s ends met i h = (s, refl, Registers-refl s i, λ y e. absurd (cc e))
    each-Ends call fuel (p ∷ ps) s ends met i h =
        let (t, e, r, there) = ends p s (met p (ground (arith, str_eq_iff p p))) i h in
        let (u, e', r', all_there) =
          each-Ends call fuel ps t ends (λ y k. met y (ground (arith, k))) r.recorded
            (omega (arith, left_over-Grows names s.plugins t.plugins r.grows)) in
        (
          u,
          rw (register_each, e) e',
          Registers-trans s t u r r',
          λ y k. elim (Bool-cases (str_eq y p)) [
            | inl same ↦
                r'.grows y (subst (λ x. In x t.plugins) (sym ((str_eq_iff y p).0 same)) there)
            | inr other ↦ all_there y (ground (arith, k))
          ],
        )

    pub registration-Ends : (fuel : ℕ) → Ends (run_time_package_registration registers fuel) fuel
    unfolding run_time_package_registration
    registration-Ends zero p s met i h = elim h [ ]
    registration-Ends (suc fuel) p s met i h = elim (Bool-cases (has_name p s.plugins)) [
      | inl old ↦ (s, rw (run_time_package_registration, old) refl, Registers-refl s i, old)
      | inr new ↦
          let s' : Registry = record { plugins = p ∷ s.plugins; called = p ∷ s.called } in
          let i' : IsRecorded s' = record {
            same = ap (λ l. p ∷ l) i.same;
            once = (ap (has_name p) i.same ∙ new, i.once);
          } in
          let (t, e, r, all_there) =
            each-Ends (run_time_package_registration registers fuel) fuel (registers p) s'
              (registration-Ends fuel) (λ y j. all_met p y met j) i'
              (omega (arith, left_over-cons names s.plugins p met new)) in
          let there = r.grows p (ground (arith, str_eq_iff p p)) in
          (
            t,
            rw (run_time_package_registration, new) e,
            record {
              grows = λ x k. r.grows x (Grows-cons p s.plugins x k);
              recorded = r.recorded;
              closed = λ x y k fresh j. elim (Bool-cases (str_eq x p)) [
                | inl same ↦
                    all_there y (subst (λ z. In y (registers z)) ((str_eq_iff x p).0 same) j)
                | inr other ↦ r.closed x y k (ground (arith, other, fresh)) j
              ];
            },
            there,
          )
    ]

  -- Registering a package ends, also where packages register each other in a circle, with no more
  -- calls inside each other than there are packages and one. It leaves the package registered and
  -- those that were, it has called the registration of exactly the registered packages, of each
  -- once, and whatever one registers that was not registered before is registered too.
  pub registered_once :
      (names : List Str) (p : Str) (s : Registry)
      → ((x y : Str) → In x names → In y (registers x) → In y names)
      → In p names
      → IsRecorded s
      → (t : Registry) × (run_time_package_registration registers (suc (length names)) p s ≡ some t)
        × In p t.plugins
        × Grows s.plugins t.plugins
        × (t.called ≡ t.plugins)
        × Distinct t.called
        × ((x y : Str)
            → In x t.plugins
            → has_name x s.plugins ≡ false
            → In y (registers x)
            → In y t.plugins)
  registered_once names p s all_met met i =
      let (t, e, r, there) =
        registration-Ends names all_met (suc (length names)) p s met i (bound names s.plugins) in
      (t, e, there, r.grows, r.recorded.same, r.recorded.once, r.closed)
    where
      bound : (names v : List Str) → left_over names v < suc (length names)
      bound [] v = omega arith
      bound (k ∷ names) v = ground (arith, bound names v)
