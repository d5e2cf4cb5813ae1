-- ===== src/Testing/Validation.antt =====
-- TestStore::validateTests against a description without its cache.
use vnv.Base.{
  Bool, List, [], ◌∷◌, ◌++◌, ◌≡◌, refl, Option, none, some, Str, str, ok, raise, arith,
  if◌then◌else◌, Option-cases, Bool-cases, inl, inr, ap, ◌∙◌, str_key, str_eq_iff,
}
use vnv.Base.Dict.{Dict, find, find-assign}
use vnv.Json.{Json, find_member, get_string, empty_object, string}
use vnv.Testing.{
  TestConfig, TestStore, key, get_test_validation_schema, test_schema, test_config_of,
  validate_found, validate_test, validate_tests, add_test, keep_valid,
}

-- Each cached schema is the wrapped schema of the registered test.
pub record IsCoherent (factory cache : Dict Str Json) : Type 0 where
  pub cached :
      (k : Str) (w : Json)
      → find k cache ≡ some w
      → (s : Json) × (find k factory ≡ some s) × (w ≡ get_test_validation_schema s)

module _ (validates : Json → Json → Bool) (factory : Dict Str Json) where
  -- What a declaration yields: its configuration if it names a registered test whose schema
  -- accepts it, and nothing otherwise.
  accepted_found : Json → Str → Str → Option Json → List TestConfig
  accepted_found j n p none = []
  accepted_found j n p (some schema) =
      if validates (get_test_validation_schema schema) (test_config_of j)
      then record {
        package_name = p;
        test_name = n;
        test_config_json = test_config_of j;
        run_template_name = elim (find_member (str "template") j) [
          | none ↦ empty_object
          | some t ↦ t
        ];
      }
        ∷ []
      else []

  accepted_as : Json → Option Str → Option Str → List TestConfig
  unfolding accepted_found
  accepted_as j none p = []
  accepted_as j (some n) none = []
  accepted_as j (some n) (some p) = accepted_found j n p (find (key p n) factory)

  string_member : Str → Json → Option Str
  string_member k j = elim (find_member k j) [
    | none ↦ none
    | some v ↦ elim (get_string v) [ ok s ↦ some s | raise e ↦ none ]
  ]

  pub accepted : Json → List TestConfig
  unfolding accepted_as string_member
  accepted j = accepted_as j (string_member (str "name") j) (string_member (str "package") j)

  pub accepted_all : List Json → List TestConfig
  accepted_all [] = []
  accepted_all (j ∷ js) = accepted j ++ accepted_all js

  test_schema-eq :
      (cache : Dict Str Json) (k : Str) (s : Json)
      → IsCoherent factory cache
      → find k factory ≡ some s
      → (test_schema k s cache).0 ≡ ok (get_test_validation_schema s)
  unfolding test_schema
  test_schema-eq cache k s h e = elim (Option-cases (find k cache)) [
    | inl miss ↦ rw (miss, test_schema)
    | inr (w, hit) ↦ let (s', e', q) = h.cached k w hit in rw (hit, test_schema) (ground arith)
  ]

  module _ (cache : Dict Str Json) (h : IsCoherent factory cache) where
    test_schema-IsCoherent :
        (k : Str) (s : Json)
        → find k factory ≡ some s
        → IsCoherent factory (test_schema k s cache).1
    unfolding test_schema
    test_schema-IsCoherent k s e = elim (Option-cases (find k cache)) [
      | inl miss ↦
          rw (miss, test_schema)
            (record {
              cached = λ k' w found. elim (Bool-cases (str_key.beq k' k)) [
                | inl same ↦ (
                  s,
                  rw ((str_eq_iff k' k).0 same) e,
                  ground (arith, find-assign k' k (get_test_validation_schema s) cache),
                )
                | inr other ↦
                    h.cached k' w
                      (ground (arith, find-assign k' k (get_test_validation_schema s) cache))
              ];
            })
      | inr (w, hit) ↦ rw (hit, test_schema) h
    ]

    found_case :
        (p n : Str) (j : Json) (rest : List TestConfig) (o : Option Json)
        → find (key p n) factory ≡ o
        → (keep_valid validates (validate_found validates p n j o cache).0 rest
            ≡ accepted_found j n p o ++ rest)
          × IsCoherent factory (validate_found validates p n j o cache).1
    unfolding validate_found accepted_found
    found_case p n j rest none e = (refl, h)
    found_case p n j rest (some s) e = (
      ground (arith, test_schema-eq cache (key p n) s h e),
      ground (arith, test_schema-eq cache (key p n) s h e, test_schema-IsCoherent (key p n) s e),
    )

    members_case :
        (j : Json) (rest : List TestConfig) (a b : Option Json)
        → find_member (str "name") j ≡ a
        → find_member (str "package") j ≡ b
        → (keep_valid validates (validate_test validates factory j cache).0 rest
            ≡ accepted j ++ rest)
          × IsCoherent factory (validate_test validates factory j cache).1
    unfolding validate_test accepted
    members_case j rest none b p q = (ground arith, ground arith)
    members_case j rest (some (string n)) none p q = (ground arith, ground arith)
    members_case j rest (some (string n)) (some (string k)) p q =
        ground (arith, found_case k n j rest (find (key k n) factory) refl)
    members_case j rest (some (string n)) (some _) p q = (ground arith, ground arith)
    members_case j rest (some _) b p q = (ground arith, ground arith)

  -- Whatever earlier calls left in the cache, validateTests yields the configurations of the
  -- acceptable declarations, in their order, and drops the others; the cache stays right.
  pub validate_tests-eq-accepted :
      (js : List Json) (cache : Dict Str Json)
      → IsCoherent factory cache
      → ((validate_tests validates factory js cache).0 ≡ accepted_all js)
        × IsCoherent factory (validate_tests validates factory js cache).1
  unfolding validate_tests accepted_all
  validate_tests-eq-accepted [] cache h = (refl, h)
  validate_tests-eq-accepted (j ∷ js) cache h =
      let (o, cache') = validate_test validates factory j cache in
      let rest = (validate_tests validates factory js cache').0 in
      let first =
        members_case cache h j rest (find_member (str "name") j) (find_member (str "package") j)
          refl refl in
      let later = validate_tests-eq-accepted js cache' first.1 in
      (first.0 ∙ ap (λ l. accepted j ++ l) later.0, later.1)

-- A later registration of tests keeps the cache right.
pub add_test-IsCoherent :
    (p n : Str) (schema : Json) (store : TestStore) (cache : Dict Str Json)
    → IsCoherent store.test_factory cache
    → IsCoherent (add_test p n schema store).test_factory cache
unfolding add_test
add_test-IsCoherent p n schema store cache h = record {
  cached = λ k w found.
      let (s, e, q) = h.cached k w found in
      (
        s,
        ground (
          arith,
          find-assign k (key p n) schema store.test_factory,
          str_eq_iff k (key p n),
          Option-cases (find (key p n) store.test_factory),
        ),
        q,
      );
}
