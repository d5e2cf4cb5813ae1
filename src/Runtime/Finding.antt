-- ===== src/Runtime/Finding.antt =====
-- What an Iter finds on a stack of open points.
use vnv.Base.{
  ℕ, ◌≡◌, refl, ◌∙◌, ◌⊎◌, inl, inr, Bool, List, [], ◌∷◌, Option, none, some, Str, str_key, ok,
  raise, vnv_exception, length, keep, All, Bool-cases, ◌==◌,
}
use vnv.Base.Dict.{contains}
use vnv.Engine.{InjectionPointType}
use vnv.Testing.{key}
use vnv.Injection.{Store, get_existing_injection_point}
use vnv.Injection.Active.{IsLive, existing_unconfigured, iter_fetches, is_named, first}
use vnv.Injection.Run.Tame.{IsOpen}

open-IsLive : (s : Store) (l : List (Option ℕ)) → All (IsOpen s) l → All (IsLive s) l
open-IsLive s [] all = tt
open-IsLive s (q ∷ l) ((i, v, e, g, c), all) = ((i, v, e, g), open-IsLive s l all)

first_kept :
    (P : Option ℕ → Type 0) (f : Option ℕ → Bool) (l : List (Option ℕ))
    → All P l
    → (first (keep f l) ≡ none) ⊎ P (first (keep f l))
first_kept P f [] all = inl refl
first_kept P f (q ∷ l) all = elim (Bool-cases (f q)) [
  | inl hit ↦ rw hit (inr all.0)
  | inr miss ↦ rw miss (first_kept P f l all.1)
]

-- What an Iter finds on a stack of open points.
pub iter_finds :
    (package_name name : Str) (s : Store)
    → All (IsOpen s) s.active
    → (get_existing_injection_point package_name name InjectionPointType.iter s
        ≡ (raise vnv_exception, s))
      ⊎ (get_existing_injection_point package_name name InjectionPointType.iter s ≡ (ok none, s))
      ⊎ ((i : ℕ) × (get_existing_injection_point package_name name InjectionPointType.iter s
            ≡ (ok (some i), s))
          × IsOpen s (some i))
iter_finds package_name name s all =
    elim (Bool-cases (contains (key package_name name) s.injection_points)) [
      | inr other ↦
          inr (inl (existing_unconfigured package_name name InjectionPointType.iter s other))
      | inl configured ↦
          let e = iter_fetches s package_name name configured (open-IsLive s s.active all) in
          elim (Bool-cases (length s.active == 0)) [
            | inl empty ↦ inl (e ∙ rw empty refl)
            | inr full ↦
                elim (first_kept (IsOpen s) (is_named s (key package_name name)) s.active all) [
                  | inl nothing ↦ inr (inl (e ∙ rw (full, nothing) refl))
                  | inr (i, q, some_, there, has) ↦
                      inr (inr (i, e ∙ rw (full, some_) refl, (i, q, refl, there, has)))
                ]
          ]
    ]
