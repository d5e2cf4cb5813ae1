-- ===== src/Startup/Points.antt =====
-- The part of loadRunInfo in injection/src/base/Runtime.cpp that turns the points of the input file into
-- those of the store, with the tests that validate: from what JsonParser read, through TestStore, to
-- InjectionPointStore.
use vnv.Base.{
  ◌≡◌, refl, sym, ap, ◌∙◌, Bool, true, false, List, [], ◌∷◌, Option, none, some, Str, str_eq,
  if◌then◌else◌, str_key, Bool-cases, inl, inr,
}
use vnv.Base.Dict.{Dict, find, find-insert, insert}
use vnv.Json.{Json}
use vnv.Samplers.Store.{SamplerStore, SamplerConfig}
use vnv.Testing.{key, validate_tests}
use vnv.Testing.Validation.{IsCoherent, accepted_all, validate_tests-eq-accepted}
use vnv.Injection.{InjectionPointConfig, InjectionPointSpec, Store}
use vnv.Injection.Registry.{add_injection_point, default_config, run_all, find-run_all}
use vnv.Parsing.{InjectionPointInfo, Points}

pub record Loaded : Type 0 where
  pub store : Store
  pub samplers : SamplerStore
  pub cache : Dict Str Json

abbrev sampler_config : InjectionPointInfo → SamplerConfig
sampler_config info = record {
  package_name = info.sampler.package_name;
  name = info.sampler.name;
  ip_package = info.package_name;
  ip_name = info.name;
  config = info.sampler.config;
}

-- `factory` holds the tests that are registered.
module _ (validates : Json → Json → Bool) (factory : Dict Str Json) where
  pub load_point : InjectionPointInfo → Loaded → Loaded
  load_point info l =
      let (tests, cache) = validate_tests validates factory info.tests l.cache in
      let (store, samplers) =
        add_injection_point validates info.package_name info.name info.run_internal tests
          (sampler_config info) (l.store, l.samplers) in
      record { store = store; samplers = samplers; cache = cache }

  pub load_points : Dict Str InjectionPointInfo → Loaded → Loaded
  unfolding load_point
  load_points [] l = l
  load_points ((k, info) ∷ ips) l = load_points ips (load_point info l)

  pub load_all : List Json → Loaded → Loaded
  load_all all_tests l =
      let (tests, cache) = validate_tests validates factory all_tests l.cache in
      record l { store = run_all tests l.store; cache = cache }

  pub load_injection_points : Points → Loaded → Loaded
  unfolding load_points load_all
  load_injection_points points l =
      let l' = load_points points.ips l in
      if points.all_on then load_all points.all_on_tests l' else l'

  abbrev pub configured_as : InjectionPointInfo → InjectionPointConfig
  configured_as info = record {
    package_name = info.package_name;
    name = info.name;
    run_internal = info.run_internal;
    tests = accepted_all validates factory info.tests;
  }

  -- The first of the points of the input file with the name, and its declarations that are accepted.
  abbrev pub named : Str → Dict Str InjectionPointInfo → Option InjectionPointConfig
  named a [] = none
  named a ((k, info) ∷ ips) =
      if str_eq a (key info.package_name info.name) then some (configured_as info) else named a ips

  abbrev pub or_else : {A : Type 0} → Option A → Option A → Option A
  or_else (some a) o = some a
  or_else none o = o

  fit :
      {A : Type 0} (o p : Option A)
      → elim o as (λ _. Option A) [ some w ↦ some w | none ↦ p ] ≡ or_else o p
  fit (some w) p = refl
  fit none p = refl

  or_none : {A : Type 0} (o : Option A) → or_else o none ≡ o
  or_none none = refl
  or_none (some a) = refl

  or_else_assoc :
      {A : Type 0} (o p q : Option A) → or_else (or_else o p) q ≡ or_else o (or_else p q)
  or_else_assoc (some a) p q = refl
  or_else_assoc none p q = refl

  named-cons :
      (a k : Str) (info : InjectionPointInfo) (ips : Dict Str InjectionPointInfo)
      → or_else (named a ((a, info) ∷ [])) (named a ips) ≡ named a ((k, info) ∷ ips)
  named-cons a k info ips = elim (Bool-cases (str_eq a (key info.package_name info.name))) [
    | inl e ↦ rw e refl
    | inr e ↦ rw e refl
  ]

  load_point-find :
      (a : Str) (info : InjectionPointInfo) (l : Loaded)
      → IsCoherent factory l.cache
      → (find a (load_point info l).store.injection_points
          ≡ or_else (find a l.store.injection_points) (named a ((a, info) ∷ [])))
        × IsCoherent factory (load_point info l).cache
        × ((load_point info l).store.registered ≡ l.store.registered)
  unfolding load_point add_injection_point
  load_point-find a info l h =
      let (tests, coherent) = validate_tests-eq-accepted validates factory info.tests l.cache h in
      (
        ap
              (λ ts. find a (
                insert (key info.package_name info.name)
                  (record (configured_as info) { tests = ts }) l.store.injection_points))
              tests
            ∙ find-insert a (key info.package_name info.name) (configured_as info)
                l.store.injection_points
            ∙ fit (find a l.store.injection_points) (
                if str_eq a (key info.package_name info.name)
                then some (configured_as info)
                else none),
        coherent,
        refl,
      )

  load_points-find :
      (a : Str) (ips : Dict Str InjectionPointInfo) (l : Loaded)
      → IsCoherent factory l.cache
      → (find a (load_points ips l).store.injection_points
          ≡ or_else (find a l.store.injection_points) (named a ips))
        × IsCoherent factory (load_points ips l).cache
        × ((load_points ips l).store.registered ≡ l.store.registered)
  unfolding load_points
  load_points-find a [] l h = (sym (or_none (find a l.store.injection_points)), h, refl)
  load_points-find a ((k, info) ∷ ips) l h =
      let (first, coherent, kept) = load_point-find a info l h in
      let (rest, coherent', kept') = load_points-find a ips (load_point info l) coherent in
      (
        rest
            ∙ ap (λ o. or_else o (named a ips)) first
            ∙ or_else_assoc (find a l.store.injection_points) (named a ((a, info) ∷ []))
                (named a ips)
            ∙ ap (or_else (find a l.store.injection_points)) (named-cons a k info ips),
        coherent',
        kept' ∙ kept,
      )

  -- What runAll asks for, where the input file does.
  abbrev pub by_default :
      Bool → List Json → Dict Str InjectionPointSpec → Str → Option InjectionPointConfig
  by_default false all_tests specs a = none
  by_default true all_tests specs a = elim (find a specs) [
    | none ↦ none
    | some spec ↦ some (default_config spec (accepted_all validates factory all_tests))
  ]

  -- When the points of an input file have been loaded into a store, with any cache of schemas that is
  -- right, a point is configured exactly if it was, or else the input file names it, or else
  -- runAll is asked for and the point is registered. The first that applies says how: as it was; as
  -- the first entry of its name in the input file, with the tests of the entry that are accepted,
  -- in their order; or with the accepted tests for runAll and its internal test on.
  pub load_injection_points-find :
      (a : Str) (points : Points) (l : Loaded)
      → IsCoherent factory l.cache
      → find a (load_injection_points points l).store.injection_points
        ≡ or_else (find a l.store.injection_points) (
            or_else
              (named a points.ips)
              (by_default points.all_on points.all_on_tests l.store.registered a))
  unfolding load_injection_points load_all
  load_injection_points-find a points l h =
      let (loaded, coherent, kept) = load_points-find a points.ips l h in
      let l' = load_points points.ips l in
      let (tests, _) =
        validate_tests-eq-accepted validates factory points.all_on_tests l'.cache coherent in
      elim (Bool-cases points.all_on) [
        | inl on ↦ rw on (
            ap (λ ts. find a (run_all ts l'.store).injection_points) tests
            ∙ find-run_all (accepted_all validates factory points.all_on_tests) l'.store a
            ∙ fit (find a l'.store.injection_points)
                (by_default true points.all_on_tests l'.store.registered a)
            ∙ ap
                (λ r.
                  or_else (find a l'.store.injection_points)
                    (by_default true points.all_on_tests r a))
                kept
            ∙ ap (λ o. or_else o (by_default true points.all_on_tests l.store.registered a)) loaded
            ∙ or_else_assoc (find a l.store.injection_points) (named a points.ips)
                (by_default true points.all_on_tests l.store.registered a))
        | inr off ↦ rw off (
            loaded
            ∙ ap (or_else (find a l.store.injection_points)) (sym (or_none (named a points.ips))))
      ]
