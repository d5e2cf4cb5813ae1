-- ===== src/Runtime/Modified.antt =====
-- What a change of one object leaves of the store.
use vnv.Base.{ℕ, ◌≡◌, refl, ◌∙◌, none, some, Str, str, get_elem?, get_elem?-set_self}
use vnv.Engine.{InjectionPointType, Comm}
use vnv.Injection.{InjectionPoint, Store}
use vnv.Runtime.{modify_point}
use vnv.Runtime.Keeps.{Keeps, Keeps-trans, Keeps-set, get_elem?-lt}
use vnv.Runtime.Calls.{staged, prepared}

-- The object at `i` is `v` now.
pub record Modified (s s' : Store) (i : ℕ) (v : InjectionPoint) : Type 0 where
  pub injection_points : s'.injection_points ≡ s.injection_points
  pub registered : s'.registered ≡ s.registered
  pub active : s'.active ≡ s.active
  pub points : Keeps s.points s'.points
  pub there : get_elem? s'.points i ≡ some v

modify_point-Modified :
    (f : InjectionPoint → InjectionPoint) (i : ℕ) (s : Store) (q : InjectionPoint)
    → get_elem? s.points i ≡ some q
    → (f q).package_name ≡ q.package_name
    → (f q).name ≡ q.name
    → ((c : Comm) → q.comm ≡ some c → (f q).comm ≡ some c)
    → Modified s (modify_point f i s) i (f q)
modify_point-Modified f i s q there x y z =
    rw (modify_point, there)
      (record {
        injection_points = refl;
        registered = refl;
        active = refl;
        points = Keeps-set s.points i q (f q) there x y z;
        there = get_elem?-set_self s.points i (f q) (get_elem?-lt s.points i q there);
      })

pub staged-Modified :
    (type : InjectionPointType) (stage_id : Str) (i : ℕ) (s : Store) (q : InjectionPoint)
    → get_elem? s.points i ≡ some q
    → Modified s (staged type stage_id i s) i (record q { type = type; stage_id = stage_id })
staged-Modified type stage_id i s q there =
    modify_point-Modified (λ q'. record q' { type = type; stage_id = stage_id }) i s q there refl
      refl (λ c h. h)

Modified-trans :
    {a b c : Store} {i : ℕ} {v w : InjectionPoint}
    → Modified a b i v
    → Modified b c i w
    → Modified a c i w
Modified-trans h k = record {
  injection_points = k.injection_points ∙ h.injection_points;
  registered = k.registered ∙ h.registered;
  active = k.active ∙ h.active;
  points = Keeps-trans h.points k.points;
  there = k.there;
}

-- Begin, at an object that has no communicator yet.
pub prepared-Modified :
    (comm : Comm) (i : ℕ) (s : Store) (q : InjectionPoint)
    → get_elem? s.points i ≡ some q
    → q.comm ≡ none
    → (v : InjectionPoint) × Modified s (prepared comm i s) i v
      × (v.package_name ≡ q.package_name)
      × (v.name ≡ q.name)
      × (v.comm ≡ some comm)
prepared-Modified comm i s q there fresh =
    let first = staged-Modified InjectionPointType.begin (str "Begin") i s q there in
    let q' = record q { type = InjectionPointType.begin; stage_id = (str "Begin") } in
    (
      record q' { comm = some comm },
      Modified-trans first (
          modify_point-Modified (λ x. record x { comm = some comm }) i
            (staged InjectionPointType.begin (str "Begin") i s) q' first.there refl refl
            (λ c h. cc)),
      refl,
      refl,
      refl,
    )
