-- ===== src/Streams/Opening.antt =====
-- The directory of a report: FileStream::initialize of
-- injection/include/plugins/engines/streamtemplate.h. What the file system holds, and what
-- std::to_string makes of a counter, are given.
use vnv.Base.{
  ℕ, zero, suc, ◌+◌, ◌≤◌, ◌≡◌, refl, ◌∙◌, Bool, true, false, ◌++◌, Option, none, some, Str,
  if◌then◌else◌, ok, raise, text, Outcome, arith, Bool-cases, inl, inr, subst,
}

module _ (exists writable : Str → Bool) (to_string : ℕ → Str) where
  abbrev pub numbered_name : Str → ℕ → Str
  numbered_name s counter = s ++ to_string counter

  -- The loop on rank 0: the counter that it ends with, or `none` where it is still running.
  pub free_counter : (fuel : ℕ) (s name : Str) (counter : ℕ) → Option ℕ
  free_counter zero s name counter = none
  free_counter (suc fuel) s name counter = elim (exists name) [
    | true ↦ free_counter fuel s (numbered_name s (counter + 1)) (counter + 1)
    | false ↦ some counter
  ]

  -- What the ranks other than 0 do with the counter that rank 0 broadcasts, and rank 0 too.
  abbrev pub with_counter : Str → ℕ → Str
  with_counter s counter = if exists s then numbered_name s counter else s

  -- The end: a file is written into the directory, and removed.
  abbrev pub check_writable : Str → Outcome Str
  check_writable name = if writable name then ok name else raise text

  -- On rank 0, up to the name of the directory.
  pub initialize : (fuel : ℕ) → Str → Option (Outcome Str)
  unfolding free_counter
  initialize fuel s = elim (exists s) [
    | false ↦ some (check_writable s)
    | true ↦ elim (free_counter fuel s s 0) [
      | none ↦ none
      | some counter ↦ some (check_writable (numbered_name s counter))
    ]
  ]

  free_counter_ends :
      (d : ℕ) (s : Str) (counter : ℕ)
      → exists (numbered_name s (counter + d)) ≡ false
      → (k : ℕ) × (free_counter (suc d) s (numbered_name s counter) counter ≡ some k)
        × (exists (numbered_name s k) ≡ false)
        × (counter ≤ k)
        × (k ≤ counter + d)
  unfolding free_counter
  free_counter_ends zero s counter h =
      let here : counter + 0 ≡ counter = omega arith in
      let free = subst (λ n. exists (numbered_name s n) ≡ false) here h in
      (counter, rw (free_counter, free) refl, free, omega arith, omega arith)
  free_counter_ends (suc d) s counter h = elim (Bool-cases (exists (numbered_name s counter))) [
    | inl taken ↦
        let on : counter + suc d ≡ counter + 1 + d = omega arith in
        let (k, ends, free, lo, hi) =
          free_counter_ends d s (counter + 1)
            (subst (λ n. exists (numbered_name s n) ≡ false) on h) in
        (k, rw (free_counter, taken) ends, free, omega arith, omega arith)
    | inr free ↦ (counter, rw (free_counter, free) refl, free, omega arith, omega arith)
  ]

  first :
      (fuel : ℕ) (s : Str)
      → exists s ≡ true
      → free_counter (suc fuel) s s 0 ≡ free_counter fuel s (numbered_name s (0 + 1)) (0 + 1)
  unfolding free_counter
  first fuel s there = rw (free_counter, there) refl

  -- Where the directory of the configuration is there, and one of its names with a number from 1
  -- to d + 1 is not, and directories that are not there can be made and written to: within d + 2 turns
  -- rank 0 settles on a name with such a number that is not there, and every rank
  -- that gets its counter on the same name.
  pub initialize_ends :
      (d : ℕ) (s : Str)
      → exists s ≡ true
      → exists (numbered_name s (suc d)) ≡ false
      → ((name : Str) → exists name ≡ false → writable name ≡ true)
      → (k : ℕ) × (initialize (suc (suc d)) s ≡ some (ok (numbered_name s k)))
        × (exists (numbered_name s k) ≡ false)
        × (1 ≤ k)
        × (k ≤ suc d)
        × (with_counter s k ≡ numbered_name s k)
  unfolding initialize
  initialize_ends d s there gap can =
      let on : suc d ≡ 0 + 1 + d = omega arith in
      let (k, ends, free, lo, hi) =
        free_counter_ends d s (0 + 1) (subst (λ n. exists (numbered_name s n) ≡ false) on gap) in
      (
        k,
        rw (initialize, there, first (suc d) s there ∙ ends, can (numbered_name s k) free) refl,
        free,
        omega arith,
        omega arith,
        rw there refl,
      )
