-- ===== src/Startup/Examples.antt =====
-- The start of the runtime on small inputs.
use vnv.Base.{
  ℕ, ◌+◌, ◌≡◌, refl, Bool, true, false, List, [], ◌∷◌, none, some, Str, str, str_eq, if◌then◌else◌,
  ok, raise, standard, arith, str_key, str_eq_iff,
}
use vnv.Base.Dict.{Dict, find}
use vnv.Json.{Json, string, object, field, done, null, empty_object}
use vnv.Testing.Validation.{IsCoherent}
use vnv.Parsing.{InjectionPointInfo, Points, no_sampler}
use vnv.Startup.{
  has_name, Registry, run_time_package_registration, Parts, Wishes, configure, in_order,
  config_from, get_override_file_name, run_tests_json, run_all_json,
}
use vnv.Startup.Packages.{In, IsRecorded, registered_once, Grows, Distinct}
use vnv.Startup.Outcomes.{
  configure_goes_on, configure_failed, clean_up_in_order, register_all, Tested,
}
use vnv.Startup.Points.{Loaded, load_injection_points, load_injection_points-find, or_else, named}

-- `a` and `b` register each other.
abbrev circle : Str → List Str
circle p = if str_eq p (str "a") then str "b" ∷ [] else str "a" ∷ []

abbrev both : List Str
both = str "a" ∷ str "b" ∷ []

circle_met : (x y : Str) → In x both → In y (circle x) → In y both
circle_met x y i j = ground (arith, str_eq_iff x (str "a"))

abbrev nothing : Registry
nothing = record { plugins = []; called = [] }

nothing-IsRecorded : IsRecorded circle nothing
nothing-IsRecorded = record { same = refl; once = tt }

registered_once_example :
    (t : Registry) × (run_time_package_registration circle 3 (str "a") nothing ≡ some t)
    × In (str "a") t.plugins
    × Grows [] t.plugins
    × (t.called ≡ t.plugins)
    × Distinct t.called
    × ((x y : Str) → In x t.plugins → has_name x [] ≡ false → In y (circle x) → In y t.plugins)
registered_once_example =
    registered_once circle both (str "a") nothing circle_met refl nothing-IsRecorded

-- Each part counts.
abbrev counting : Parts ℕ
counting = record {
  load_run_info = λ s. (ok tt, s + 1);
  run_jobs = λ s. (ok tt, s + 10);
  run_unit_tests = λ s. (ok tt, s + 100);
  initialize_actions = λ s. (ok tt, s + 1000);
}

abbrev wishes : Wishes
wishes = record {
  run_tests = true;
  on_cmdline = false;
  vnv_on = false;
  run_unit_tests = true;
  exit_after_tests = false;
  error = false;
}

counted : configure counting wishes (false, 0) ≡ (ok false, (true, 1111))
unfolding configure
counted = refl

configure_goes_on_example :
    (s1 s2 s3 : ℕ) × (counting.load_run_info 0 ≡ (ok tt, s1))
    × (counting.run_jobs s1 ≡ (ok tt, s2))
    × Tested counting true false s2 s3
    × (counting.initialize_actions s3 ≡ (ok tt, 1111))
configure_goes_on_example = configure_goes_on counting wishes false 0 1111 refl counted

abbrev failing : Parts ℕ
failing = record counting { load_run_info = λ s. (raise standard, s + 1) }

configure_failed_sample : configure failing wishes (false, 0) ≡ (ok true, (true, 1))
configure_failed_sample = configure_failed failing wishes false 0 1 standard refl refl cc

clean_up_in_order_sample :
    in_order {A = ℕ}
      (register_all (7 ∷ 5 ∷ 7 ∷ []) record { cleanup_action_counter = 0; cleanup_actions = [] })
    ≡ 7 ∷ 5 ∷ 7 ∷ []
clean_up_in_order_sample = clean_up_in_order (7 ∷ 5 ∷ 7 ∷ [])

abbrev accepting : Json → Json → Bool
accepting schema value = true

abbrev declaration : Str → Json
declaration name =
    object (field (str "name") (string name) (field (str "package") (string (str "P")) done))

abbrev tests_registered : Dict Str Json
tests_registered = (str "P:norm", null) ∷ []

abbrev point_info : InjectionPointInfo
point_info = record {
  package_name = str "P";
  name = str "loop";
  tests = declaration (str "norm") ∷ declaration (str "other") ∷ [];
  template_name = empty_object;
  sampler = no_sampler;
  run_internal = false;
}

abbrev one_point : Points
one_point = record { all_on = false; ips = (str "P:loop", point_info) ∷ []; all_on_tests = [] }

abbrev unloaded : Loaded
unloaded = record {
  store = record { injection_points = []; registered = []; active = []; points = [] };
  samplers = record { samplers = []; sampler_factory = [] };
  cache = [];
}

unloaded-IsCoherent : IsCoherent tests_registered []
unfolding find
unloaded-IsCoherent = record { cached = λ k w h. cc }

load_injection_points-find_example :
    find
      (str "P:loop")
      (load_injection_points accepting tests_registered one_point unloaded).store.injection_points
    ≡ or_else accepting tests_registered none (
        or_else accepting tests_registered
          (named accepting tests_registered (str "P:loop") one_point.ips)
          none)
unfolding find
load_injection_points-find_example =
    load_injection_points-find accepting tests_registered (str "P:loop") one_point unloaded
      unloaded-IsCoherent

-- A file that cannot be opened leaves the tests off.
no_file : config_from (λ f. none) (get_override_file_name none) ≡ ok (run_tests_json false)
unfolding config_from get_override_file_name
no_file = refl

-- What the environment calls all runs all.
all_on : config_from (λ f. none) (get_override_file_name (some (str "__all__"))) ≡ ok run_all_json
unfolding config_from get_override_file_name
all_on = refl
