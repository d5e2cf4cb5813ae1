-- ===== src/Runtime/Keeps.antt =====
-- What running a point leaves as it was: the stack, the tables, and what the open points are.
use vnv.Base.{
  ℕ, zero, suc, ◌<◌, ◌≡◌, refl, sym, ◌∙◌, ap, inl, inr, List, [], ◌∷◌, ◌++◌, Option, none, some,
  arith, length, get_elem?, set, All, ◌==◌, get_elem?-set_self, get_elem?-set_ne, Bool-cases,
  ==_iff, str_key,
}
use vnv.Engine.{Comm}
use vnv.Injection.{InjectionPoint, Store}
use vnv.Injection.Run.Tame.{IsOpen}

pub get_elem?-lt {ℓ} :
    {A : Type ℓ} (l : List A) (i : ℕ) (x : A) → get_elem? l i ≡ some x → i < length l
get_elem?-lt [] i x h = absurd (impossible h)
  where
    impossible : none ≡ some x → ⊥
    impossible e = cc
get_elem?-lt (y ∷ l) zero x h = omega arith
get_elem?-lt (y ∷ l) (suc i) x h = omega (arith, get_elem?-lt l i x h)

-- Objects are not taken away, and keep their name and their communicator.
pub record Keeps (l l' : List InjectionPoint) : Type 0 where
  pub kept :
      (i : ℕ) (p : InjectionPoint)
      → get_elem? l i ≡ some p
      → (p' : InjectionPoint) × (get_elem? l' i ≡ some p')
        × (p'.package_name ≡ p.package_name)
        × (p'.name ≡ p.name)
        × ((c : Comm) → p.comm ≡ some c → p'.comm ≡ some c)

pub Keeps-refl : (l : List InjectionPoint) → Keeps l l
Keeps-refl l = record { kept = λ i p e. (p, e, refl, refl, λ c h. h) }

pub Keeps-trans : {a b c : List InjectionPoint} → Keeps a b → Keeps b c → Keeps a c
Keeps-trans h k = record {
  kept = λ i p e.
      let (p', e', x, y, z) = h.kept i p e in
      let (p'', e'', x', y', z') = k.kept i p' e' in
      (p'', e'', x' ∙ x, y' ∙ y, λ c q. z' c (z c q));
}

-- Replacing an object by one of the same name and communicator.
pub Keeps-set :
    (l : List InjectionPoint) (j : ℕ) (p v : InjectionPoint)
    → get_elem? l j ≡ some p
    → v.package_name ≡ p.package_name
    → v.name ≡ p.name
    → ((c : Comm) → p.comm ≡ some c → v.comm ≡ some c)
    → Keeps l (set l j v)
Keeps-set l j p v there x y z = record {
  kept = λ i q e. elim (Bool-cases (j == i)) [
    | inl same ↦
        let at : j ≡ i = (==_iff j i).0 same in
        let qp : some q ≡ some p = sym e ∙ ap (get_elem? l) (sym at) ∙ there in
        (
          v,
          ap (get_elem? (set l j v)) (sym at) ∙ get_elem?-set_self l j v (get_elem?-lt l j p there),
          cc,
          cc,
          λ c h. z c (cc),
        )
    | inr other ↦ (q, get_elem?-set_ne l j i v (λ at. ground arith) ∙ e, refl, refl, λ c h. h)
  ];
}

pub get_elem?-append {ℓ} :
    {A : Type ℓ} (l : List A) (i : ℕ) (x y : A)
    → get_elem? l i ≡ some x
    → get_elem? (l ++ y ∷ []) i ≡ some x
get_elem?-append [] i x y h = cc
get_elem?-append (z ∷ l) zero x y h = h
get_elem?-append (z ∷ l) (suc i) x y h = get_elem?-append l i x y h

pub Keeps-append : (l : List InjectionPoint) (v : InjectionPoint) → Keeps l (l ++ v ∷ [])
Keeps-append l v = record { kept = λ i p e. (p, get_elem?-append l i p v e, refl, refl, λ c h. h) }

pub All-IsOpen-Keeps :
    (s s' : Store) (l : List (Option ℕ))
    → Keeps s.points s'.points
    → All (IsOpen s) l
    → All (IsOpen s') l
All-IsOpen-Keeps s s' [] h all = tt
All-IsOpen-Keeps s s' (q ∷ l) h ((i, p, e, g, (c, w)), all) =
    let (p', g', x, y, z) = h.kept i p g in
    ((i, p', e, g', (c, z c w)), All-IsOpen-Keeps s s' l h all)
