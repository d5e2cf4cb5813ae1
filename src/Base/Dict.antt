-- ===== src/Base/Dict.antt =====
-- `std::map`: an association list that insertion keeps in the order of its keys.
use mathlib.Core.Path.{◌≡◌, refl}
use mathlib.Core.Bool.{Bool, true, false}
use mathlib.Core.List.{List, [], ◌∷◌}
use mathlib.Core.Option.{Option, none, some}
use native.Mathlib.Omega.{arith}
use vnv.Base.Tests.{if◌then◌else◌}
use vnv.Base.Keys.{Key}

abbrev pub Dict {ℓ κ} : Type ℓ → Type κ → Type (ℓ ⊔ κ)
Dict K V = List (K × V)

module _ {ℓ κ} {K : Type ℓ} {V : Type κ} ⦃k : Key K⦄ where
  unfoldable pub find : K → Dict K V → Option V
  find a [] = none
  find a ((b, v) ∷ m) = if k.beq a b then some v else find a m

  -- `m[a] = v`
  unfoldable pub assign : K → V → Dict K V → Dict K V
  assign a v [] = (a, v) ∷ []
  assign a v ((b, w) ∷ m) =
      if k.beq a b
      then (a, v) ∷ m
      else if k.less a b
      then (a, v) ∷ (b, w) ∷ m
      else (b, w) ∷ assign a v m

  unfoldable pub erase : K → Dict K V → Dict K V
  erase a [] = []
  erase a ((b, w) ∷ m) = if k.beq a b then erase a m else (b, w) ∷ erase a m

  abbrev pub contains : K → Dict K V → Bool
  contains a m = elim (find a m) [ none ↦ false | some v ↦ true ]

  -- `m.insert({a, v})`, which keeps a value that is there.
  abbrev pub insert : K → V → Dict K V → Dict K V
  insert a v m = if contains a m then m else assign a v m

  pub find-assign :
      (a b : K) (v : V) (m : Dict K V)
      → find a (assign b v m) ≡ (if k.beq a b then some v else find a m)
  unfolding find assign
  find-assign a b v [] = refl
  find-assign a b v ((c, w) ∷ m) =
      ground (arith, k.beq_iff a b, k.beq_iff a c, k.beq_iff b c, find-assign a b v m)

  pub find-erase :
      (a b : K) (m : Dict K V) → find a (erase b m) ≡ (if k.beq a b then none else find a m)
  unfolding find erase
  find-erase a b [] = ground arith
  find-erase a b ((c, w) ∷ m) =
      ground (arith, k.beq_iff a b, k.beq_iff a c, k.beq_iff b c, find-erase a b m)

  pub find-assign_self : (a : K) (v : V) (m : Dict K V) → find a (assign a v m) ≡ some v
  find-assign_self a v m = rw (find-assign a a v m, (k.beq_iff a a).1 refl)

  pub find-insert :
      (a b : K) (v : V) (m : Dict K V)
      → find a (insert b v m)
        ≡ elim (find a m) [ some w ↦ some w | none ↦ if k.beq a b then some v else none ]
  find-insert a b v m = ground (arith, find-assign a b v m, k.beq_iff a b)
