-- ===== src/Samplers/Counting.antt =====
-- skip.cpp: which runs the Skip sampler lets through.
use vnv.Base.{
  ℕ, zero, suc, ◌+◌, ◌%◌, ◌<◌, ◌≡◌, Bool, true, List, [], ◌∷◌, some, arith, ◌==◌, Outcome, ok,
  get_elem?,
}
use vnv.Base.Int.{ℤ, pos}
use vnv.Samplers.{SamplerJson, SkipRunner, new_skip_runner, skip_run, value_or, magnitude}

-- The answers of `n` runs in a row.
unfoldable pub runs : SamplerJson → SkipRunner → ℕ → List (Outcome Bool)
runs config r zero = []
runs config r (suc n) = let (o, r') = skip_run config r in o ∷ runs config r' n

runs_from :
    (config : SamplerJson) (r : SkipRunner) (n i : ℕ)
    → r.setup_complete ≡ true
    → 0 < magnitude r.skip
    → i < n
    → get_elem? (runs config r n) i ≡ some (ok ((r.curr + i) % magnitude r.skip == 0))
unfolding runs skip_run
runs_from config r zero i ready h lt = elim lt [ ]
runs_from config r (suc n) zero ready h lt = ground arith
runs_from config r (suc n) (suc i) ready h lt =
    ground (arith, runs_from config (record r { curr = r.curr + 1 }) n i)

-- Of the runs of a new Skip sampler with a positive period, numbered from 0, exactly
-- those whose number is a multiple of the period are let through. The period is 50 if none is
-- configured.
pub skip_every :
    (config : SamplerJson) (k : ℤ) (n i : ℕ)
    → value_or config.skip (pos 50) ≡ ok k
    → 0 < magnitude k
    → i < n
    → get_elem? (runs config new_skip_runner n) i ≡ some (ok (i % magnitude k == 0))
unfolding runs skip_run
skip_every config k zero i e h lt = elim lt [ ]
skip_every config k (suc n) zero e h lt = ground arith
skip_every config k (suc n) (suc i) e h lt =
    ground (arith, runs_from config (record { setup_complete = true; skip = k; curr = 1 }) n i)
