-- ===== src/Injection/Active.antt =====
-- The stack of open injection points.
use vnv.Base.{
  ℕ, ◌+◌, ◌≡◌, refl, ◌⊎◌, inl, inr, Bool, true, false, List, [], ◌∷◌, ◌++◌, Option, none, some, Str,
  str_key, str_eq, if◌then◌else◌, ok, raise, vnv_exception, fault, arith, length, get_elem?, All,
  keep, ◌==◌, Option-cases,
}
use vnv.Base.Dict.{Dict, find, contains}
use vnv.Engine.{InjectionPointType}
use vnv.Json.{Json}
use vnv.Testing.{key, Test, TestConfig, TestStore, VnVParameterSet, Maker, get_test}
use vnv.Injection.{
  Supplied, add_made, InjectionPoint, InjectionPointConfig, InjectionPointSpec, Store, Points,
  find_spec, is_alone, parameters_of, make_tests, new_point, new_injection_point,
  get_new_injection_point, point_key, find_active, fetch_from_queue, get_existing_injection_point,
}

-- Every configured point is registered, under one signature.
pub record AllRegistered (store : Store) : Type 0 where
  pub spec_of :
      (k : Str) (c : InjectionPointConfig)
      → find k store.injection_points ≡ some c
      → (s : InjectionPointSpec) × (find k store.registered ≡ some s) × (is_alone s.spec ≡ true)

module _ (squash : Str → Str) where
  find_spec_alone :
      (signature : Str) (spec : Dict Str (Dict Str Str))
      → is_alone spec ≡ true
      → (t : Dict Str Str) × (find_spec squash (is_alone spec) signature spec ≡ some t)
  unfolding find_spec
  find_spec_alone signature [] h = ground arith
  find_spec_alone signature ((k, t) ∷ rest) h = (t, rw h)

make_tests-ok :
    (make : Maker) (parameters : VnVParameterSet) (configs : List TestConfig) (store : TestStore)
    → ((c : TestConfig) → make c ≡ ok tt)
    → (tests : List Test) × (store' : TestStore) × (make_tests make parameters configs store
        ≡ (ok tests, store'))
unfolding make_tests get_test
make_tests-ok make parameters [] store willing = ([], store, refl)
make_tests-ok make parameters (c ∷ cs) store willing =
    let (made, store', e) = got (find (key c.package_name c.test_name) store.test_factory) refl in
    let (rest, store'', e') = make_tests-ok make parameters cs store' willing in
    (add_made made rest, store'', rw (make_tests, e, e') refl)
  where
    got :
        (o : Option Json)
        → find (key c.package_name c.test_name) store.test_factory ≡ o
        → (made : Option Test) × (store' : TestStore) × (get_test make c parameters store
            ≡ (ok made, store'))
    got none h = (none, store, rw (get_test, h) refl)
    got (some schema) h = (
      some (record { uuid = store.uid; config = c; parameters = parameters }),
      record store { uid = store.uid + 1 },
      rw (get_test, h, willing c) refl,
    )

module _ (supplied : Supplied) where
  -- On a store in which every configured point is registered under one signature, and where no
  -- maker of a test throws, a Begin at a configured point makes a new object with its package
  -- and name, which is not skipped and has no communicator yet, puts exactly that object on the
  -- stack of open points, and changes nothing else in the store.
  pub begin_pushes :
      (package_name name signature : Str) (args : Dict Str (Str × ℕ)) (s : Points)
      → ((c : TestConfig) → supplied.make c ≡ ok tt)
      → AllRegistered s.store
      → contains (key package_name name) s.store.injection_points ≡ true
      → (point : InjectionPoint) × (s' : Points) × (get_new_injection_point supplied package_name
            name signature InjectionPointType.begin args s
          ≡ (ok (some (length s.store.points)), s'))
        × (s'.store ≡ record (s.store) {
          points = s.store.points ++ point ∷ [];
          active = some (length s.store.points) ∷ s.store.active;
        })
        × (point.package_name ≡ package_name)
        × (point.name ≡ name)
        × (point.skipped ≡ false)
        × (point.comm ≡ none)
  unfolding get_new_injection_point new_injection_point
  begin_pushes package_name name signature args s willing all h =
      elim (Option-cases (find (key package_name name) s.store.injection_points)) [
        | inl absent_ ↦ ground arith
        | inr (config, e) ↦
            let (reg, e', alone) = all.spec_of (key package_name name) config e in
            let (types, found) = find_spec_alone supplied.squash signature reg.spec alone in
            let parameters = parameters_of types args in
            let (tests, test_store, made) =
              make_tests-ok supplied.make parameters config.tests s.test_store willing in
            let point : InjectionPoint = record (new_point package_name name parameters) {
              tests = tests;
              run_internal = config.run_internal;
            } in
            let s' : Points = record {
              store = record (s.store) {
                points = s.store.points ++ point ∷ [];
                active = some (length s.store.points) ∷ s.store.active;
              };
              test_store = test_store;
            } in
            (point, s', ground (arith, found, made), refl, refl, refl, refl, refl)
      ]

-- At a point that is not configured there is nothing to fetch or to make.
pub begin_unconfigured :
    (supplied : Supplied) (package_name name signature : Str) (args : Dict Str (Str × ℕ))
    (s : Points)
    → contains (key package_name name) s.store.injection_points ≡ false
    → get_new_injection_point supplied package_name name signature InjectionPointType.begin args s
      ≡ (ok none, s)
unfolding get_new_injection_point
begin_unconfigured supplied package_name name signature args s h = rw h refl

pub existing_unconfigured :
    (package_name name : Str) (type : InjectionPointType) (store : Store)
    → contains (key package_name name) store.injection_points ≡ false
    → get_existing_injection_point package_name name type store ≡ (ok none, store)
unfolding get_existing_injection_point
existing_unconfigured package_name name type store h = rw h refl

-- A Begin at a configured point that is not registered puts a null pointer on the stack, and the
-- next End or Iter of a configured point reads through it.
pub unregistered_faults :
    (supplied : Supplied) (package_name name signature p n : Str) (args : Dict Str (Str × ℕ))
    (s : Points)
    → contains (key package_name name) s.store.injection_points ≡ true
    → find (key package_name name) s.store.registered ≡ none
    → contains (key p n) s.store.injection_points ≡ true
    → let s' =
        (get_new_injection_point supplied package_name name signature InjectionPointType.begin args
          s).1 in
      ((get_existing_injection_point p n InjectionPointType.end s'.store).0 ≡ raise fault)
      × ((get_existing_injection_point p n InjectionPointType.iter s'.store).0 ≡ raise fault)
unfolding get_new_injection_point new_injection_point get_existing_injection_point fetch_from_queue
unregistered_faults supplied package_name name signature p n args s h absent_ h' =
    (ground arith, ground arith)

module _ (store : Store) (j : ℕ) (rest : List (Option ℕ)) (point : InjectionPoint)
    (package_name name : Str)
    (configured : contains (key package_name name) store.injection_points ≡ true)
    (last : store.active ≡ some j ∷ rest) (there : get_elem? store.points j ≡ some point) where
  -- An End closes the innermost open point if it has its name, and throws otherwise, leaving the
  -- store as it was.
  pub end_closes : get_existing_injection_point package_name name InjectionPointType.end store ≡ (
      if str_eq (key package_name name) (point_key point)
      then (ok (some j), record store { active = rest })
      else (raise vnv_exception, store))
  unfolding get_existing_injection_point fetch_from_queue
  end_closes = ground arith

-- Whether an entry of the stack points to an object of that name.
abbrev pub is_named : Store → Str → Option ℕ → Bool
is_named store k none = false
is_named store k (some i) = elim (get_elem? store.points i) [
  | none ↦ false
  | some p ↦ str_eq k (point_key p)
]

-- An entry that points to an object.
abbrev pub IsLive : Store → Option ℕ → Type 0
IsLive store q = (i : ℕ) × (p : InjectionPoint) × (q ≡ some i) × (get_elem? store.points i ≡ some p)

abbrev pub first : List (Option ℕ) → Option ℕ
first [] = none
first (q ∷ l) = q

find_active-eq-first :
    (store : Store) (k : Str) (l : List (Option ℕ))
    → All (IsLive store) l
    → find_active store k l ≡ ok (first (keep (is_named store k) l))
unfolding find_active
find_active-eq-first store k [] all = refl
find_active-eq-first store k (q ∷ l) ((i, p, e, g), all) =
    ground (arith, find_active-eq-first store k l all)

-- On a stack of live points an Iter of a configured point fetches the innermost open point of its
-- name, and the null pointer if there is none; on an empty stack it throws. The store stays as it was.
pub iter_fetches :
    (store : Store) (package_name name : Str)
    → contains (key package_name name) store.injection_points ≡ true
    → All (IsLive store) store.active
    → get_existing_injection_point package_name name InjectionPointType.iter store ≡ (
      (if length store.active == 0
          then raise vnv_exception
          else ok (first (keep (is_named store (key package_name name)) store.active))),
      store,
    )
unfolding get_existing_injection_point fetch_from_queue
iter_fetches store package_name name h all = ground (
  arith,
  find_active-eq-first store (key package_name name) store.active all,
  empty_length store.active,
)
  where
    empty_length : (l : List (Option ℕ)) → (l ≡ []) ⊎ ((length l == 0) ≡ false)
    empty_length [] = inl refl
    empty_length (q ∷ l) = inr (ground arith)
