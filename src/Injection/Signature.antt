-- ===== src/Injection/Signature.antt =====
-- FunctionSigniture::match of injection/src/base/FunctionSigniture.cpp. `squash` is
-- StringUtils::squash_copy, which is not part of the repository.
use vnv.Base.{
  ℕ, zero, suc, ◌≡◌, refl, Bool, true, false, ◌||◌, List, [], ◌∷◌, ◌++◌, Option, none, some, Str,
  str, str_eq, str_eq_refl, ◌==◌, if◌then◌else◌, any, length, arith, All,
}

abbrev pub drop {ℓ} : {A : Type ℓ} → ℕ → List A → List A
drop zero xs = xs
drop (suc n) [] = []
drop (suc n) (x ∷ xs) = drop n xs

-- The characters of "[with".
abbrev pub is_with_char : ℕ → Bool
is_with_char c = any (λ d. c == d) (str "[with")

-- `s.find_last_of("[with")`: the last place of any of the characters.
pub find_last_of : Str → Option ℕ
find_last_of [] = none
find_last_of (c ∷ s) = elim (find_last_of s) [
  | some i ↦ some (suc i)
  | none ↦ if is_with_char c then some 0 else none
]

abbrev match_suffixes : Str → Str → Option ℕ → Option ℕ → Bool
match_suffixes s m (some a) (some b) = str_eq (drop a s) (drop b m)
match_suffixes s m none b = false
match_suffixes s m (some a) none = false

abbrev match_squashed : Str → Str → Bool
match_squashed s m = str_eq s m || match_suffixes s m (find_last_of s) (find_last_of m)

-- Whether the signature of a function matches a registered one.
pub match : (Str → Str) → Str → Str → Bool
unfolding find_last_of
match squash signature registered = match_squashed (squash signature) (squash registered)

abbrev NoWithChar : Str → Type 0
NoWithChar = All (λ c. is_with_char c ≡ false)

find_last_of-none : (s : Str) → NoWithChar s → find_last_of s ≡ none
unfolding find_last_of
find_last_of-none [] h = refl
find_last_of-none (c ∷ s) h = rw (find_last_of-none s h.1, h.0)

find_last_of-some :
    (p : Str) (c : ℕ) (rest : Str)
    → is_with_char c ≡ true
    → NoWithChar rest
    → find_last_of (p ++ c ∷ rest) ≡ some (length p)
unfolding find_last_of
find_last_of-some [] c rest hit h = rw (find_last_of-none rest h, hit)
find_last_of-some (d ∷ p) c rest hit h = rw (find_last_of-some p c rest hit h)

drop-length : (p s : Str) → drop (length p) (p ++ s) ≡ s
drop-length [] s = refl
drop-length (d ∷ p) s = drop-length p s

-- Two signatures match as soon as they agree from the last character on that is one of `[`, `w`,
-- `i`, `t` and `h`, whatever stands before it in either: so `[with T = int]` matches
-- `[with T = short]`.
pub match_loose :
    (squash : Str → Str) (signature registered p q : Str) (c : ℕ) (rest : Str)
    → squash signature ≡ p ++ c ∷ rest
    → squash registered ≡ q ++ c ∷ rest
    → is_with_char c ≡ true
    → NoWithChar rest
    → match squash signature registered ≡ true
unfolding match
match_loose squash signature registered p q c rest es er hit h =
    rw
      (
        es,
        er,
        find_last_of-some p c rest hit h,
        find_last_of-some q c rest hit h,
        drop-length p (c ∷ rest),
        drop-length q (c ∷ rest),
        str_eq_refl (c ∷ rest),
      )
      (ground arith)
