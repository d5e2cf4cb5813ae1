-- ===== src/Parsing/Scopes.antt =====
-- The run scopes.
use vnv.Base.{
  ◌≡◌, refl, sym, ◌∙◌, ap, subst, Bool, true, false, List, [], ◌∷◌, ◌++◌, Option, none, some, ok,
  Str, str, str_eq, str_eq_iff, str_key, if◌then◌else◌, arith, All, bind, bind-ok, Bool-cases, inl,
  inr,
}
use vnv.Base.Dict.{Dict, find, assign, contains, find-assign}
use vnv.Json.{
  Json, Fields, done, field, null, boolean, number, string, array, object, find_member, find_field,
  put_field, put, get_bool,
}
use vnv.Parsing.{
  Points, InjectionPointInfo, add, scoped, add_test, add_tests, tests_of, kept, two_pieces, items,
  more_of, sampler_of, no_sampler, run_internal_of, new_info, insert_wanted, is_wanted, point_of,
  one_member, add_injection_point, no_points, run_scopes, points_in, injection_points_of,
}

find_field-put_field :
    (a b : Str) (v : Json) (fs : Fields)
    → str_eq a b ≡ false
    → find_field a (put_field b v fs) ≡ find_field a fs
find_field-put_field a b v done h = rw (h) refl
find_field-put_field a b v (field c w fs) h =
    ground (arith, str_eq_iff a b, str_eq_iff a c, str_eq_iff b c, find_field-put_field a b v fs h)

un_some : {A : Type 0} {x y : A} → some x ≡ some y → x ≡ y
un_some e = cc

un_ok : {A : Type 0} {x y : A} → ok x ≡ ok y → x ≡ y
un_ok e = cc

find_member-put :
    (a b : Str) (v j j' : Json)
    → str_eq a b ≡ false
    → put b v j ≡ ok j'
    → find_member a j' ≡ find_member a j
find_member-put a b v null j' h e = subst (λ k. find_member a k ≡ none) (un_ok e) (rw (h) refl)
find_member-put a b v (object fs) j' h e =
    subst (λ k. find_member a k ≡ find_field a fs) (un_ok e) (find_field-put_field a b v fs h)
find_member-put a b v (boolean x) j' h e = ground arith
find_member-put a b v (number x) j' h e = ground arith
find_member-put a b v (string x) j' h e = ground arith
find_member-put a b v (array x) j' h e = ground arith

module _ (split : Str → List Str) (scopes : List Str) where
  abbrev pub InScope : Json → Type 0
  InScope t = add t scopes ≡ ok true

  All-append : (l : List Json) (t : Json) → All InScope l → InScope t → All InScope (l ++ t ∷ [])
  All-append [] t h k = (k, tt)
  All-append (x ∷ l) t (h, hs) k = (h, All-append l t hs k)

  add_same :
      (t t' : Json)
      → find_member (str "runScope") t' ≡ find_member (str "runScope") t
      → add t' scopes ≡ add t scopes
  add_same t t' e = go scopes
    where
      go : (s : List Str) → add t' s ≡ add t s
      go [] = refl
      go (x ∷ s) = ap (scoped (x ∷ s)) e

  kept-InScope :
      (b : Bool) (t : Json) (configs : List Json)
      → All InScope configs
      → (b ≡ true → InScope t)
      → All InScope (kept split b t configs)
  kept-InScope true t configs h k = All-append configs t h (k refl)
  kept-InScope false t configs h k = h

  add_test-InScope :
      (key : Str) (test_json : Json) (configs configs' : List Json)
      → add_test split key test_json configs scopes ≡ ok configs'
      → All InScope configs
      → All InScope configs'
  unfolding add_test
  add_test-InScope key test_json configs configs' e h =
      let (r, e1, f1) = bind-ok (two_pieces split (split key)) _ configs' e in
      let (named, e2, f2) = bind-ok (put (str "name") (string r.1) test_json) _ configs' f1 in
      let (t, e3, f3) = bind-ok (put (str "package") (string r.0) named) _ configs' f2 in
      let (b, e4, f4) = bind-ok (add test_json scopes) _ configs' f3 in
      let same =
        find_member-put (str "runScope") (str "package") (string r.0) named t refl e3
        ∙ find_member-put (str "runScope") (str "name") (string r.1) test_json named refl e2 in
      subst (All InScope) (un_ok f4)
        (kept-InScope b t configs h λ true'. add_same test_json t same ∙ e4 ∙ ap ok true')

  add_tests-InScope :
      (l : List (Str × Json)) (configs configs' : List Json)
      → add_tests split l configs scopes ≡ ok configs'
      → All InScope configs
      → All InScope configs'
  unfolding add_tests
  add_tests-InScope [] configs configs' e h = subst (All InScope) (un_ok e) h
  add_tests-InScope ((k, v) ∷ l) configs configs' e h =
      let (middle, e1, f1) = bind-ok (add_test split k v configs scopes) _ configs' e in
      add_tests-InScope l middle configs' f1 (add_test-InScope k v configs middle e1 h)

  tests_of-InScope :
      (values : Json) (configs configs' : List Json)
      → tests_of split values configs scopes ≡ ok configs'
      → All InScope configs
      → All InScope configs'
  tests_of-InScope values configs configs' e h = go (find_member (str "tests") values) e
    where
      go :
          (o : Option Json)
          → elim o [ none ↦ ok configs | some tests ↦ add_tests split (items tests) configs scopes ]
            ≡ ok configs'
          → All InScope configs'
      go none q = subst (All InScope) (un_ok q) h
      go (some tests) q = add_tests-InScope (items tests) configs configs' q h

  -- Every test of every point, and of the points that runAll adds, is in one of the scopes.
  pub record AllInScope (s : Points) : Type 0 where
    pub at_points :
        (key : Str) (info : InjectionPointInfo)
        → find key s.ips ≡ some info
        → All InScope info.tests
    pub at_all : All InScope s.all_on_tests

  assigned :
      (key key' : Str) (info : InjectionPointInfo) (ips : Dict Str InjectionPointInfo)
      → str_eq key' key ≡ true
      → find key' (assign key info ips) ≡ some info
  assigned key key' info ips same = rw (find-assign key' key info ips, same) refl

  assigned_other :
      (key key' : Str) (info : InjectionPointInfo) (ips : Dict Str InjectionPointInfo)
      → str_eq key' key ≡ false
      → find key' (assign key info ips) ≡ find key' ips
  assigned_other key key' info ips other = rw (find-assign key' key info ips, other) refl

  assign-AllInScope :
      (key : Str) (info : InjectionPointInfo) (s : Points)
      → AllInScope s
      → All InScope info.tests
      → AllInScope (record s { ips = assign key info s.ips })
  assign-AllInScope key info s h k = record {
    at_points = λ key' info' e. elim (Bool-cases (str_eq key' key)) [
      | inl same ↦
          subst (λ i. All InScope i.tests)
            (un_some {x = info} {y = info'} (sym (assigned key key' info s.ips same) ∙ e)) k
      | inr other ↦ h.at_points key' info' (sym (assigned_other key key' info s.ips other) ∙ e)
    ];
    at_all = h.at_all;
  }

  insert-AllInScope :
      (key : Str) (info : InjectionPointInfo) (s : Points)
      → AllInScope s
      → All InScope info.tests
      → AllInScope (insert_wanted split key info s)
  insert-AllInScope key info s h k = choose (is_wanted split info) (contains key s.ips)
    where
      choose :
          (b c : Bool)
          → AllInScope
              (if b then record s { ips = if c then s.ips else assign key info s.ips } else s)
      choose false c = h
      choose true true = h
      choose true false = assign-AllInScope key info s h k

  new_info-InScope :
      (key : Str) (values : Json) (info : InjectionPointInfo)
      → new_info split key values scopes ≡ ok info
      → All InScope info.tests
  new_info-InScope key values info e =
      let (res, e1, f1) = bind-ok (two_pieces split (split key)) _ info e in
      let (tests, e2, f2) = bind-ok (tests_of split values [] scopes) _ info f1 in
      let (sampler, e3, f3) = bind-ok (sampler_of split values no_sampler) _ info f2 in
      let (run_internal, e4, f4) = bind-ok (run_internal_of split values) _ info f3 in
      subst (λ i. All InScope i.tests) (un_ok f4) (tests_of-InScope values [] tests e2 tt)

  more_of-InScope :
      (info : InjectionPointInfo) (values : Json) (info' : InjectionPointInfo)
      → more_of split info values scopes ≡ ok info'
      → All InScope info.tests
      → All InScope info'.tests
  more_of-InScope info values info' e h =
      let (tests, e1, f1) = bind-ok (tests_of split values info.tests scopes) _ info' e in
      let (sampler, e2, f2) = bind-ok (sampler_of split values info.sampler) _ info' f1 in
      subst (λ i. All InScope i.tests) (un_ok f2) (tests_of-InScope values info.tests tests e1 h)

  point_of-AllInScope :
      (key : Str) (values : Json) (s s' : Points)
      → point_of split key values scopes s ≡ ok s'
      → AllInScope s
      → AllInScope s'
  point_of-AllInScope key values s s' e h = go (find key s.ips) refl e
    where
      go :
          (o : Option InjectionPointInfo)
          → find key s.ips ≡ o
          → elim o [
            | some info ↦
                bind
                  (more_of split info values scopes)
                  λ info'. ok (record s { ips = assign key info' s.ips })
            | none ↦
                bind (new_info split key values scopes) λ info. ok (insert_wanted split key info s)
          ]
            ≡ ok s'
          → AllInScope s'
      go none q f =
          let (info, e1, f1) = bind-ok (new_info split key values scopes) _ s' f in
          subst AllInScope (un_ok f1)
            (insert-AllInScope key info s h (new_info-InScope key values info e1))
      go (some info) q f =
          let (info', e1, f1) = bind-ok (more_of split info values scopes) _ s' f in
          subst AllInScope (un_ok f1) (
            assign-AllInScope key info' s h
              (more_of-InScope info values info' e1 (h.at_points key info q)))

  one_member-AllInScope :
      (key : Str) (value : Json) (s s' : Points)
      → one_member split key value scopes s ≡ ok s'
      → AllInScope s
      → AllInScope s'
  one_member-AllInScope key value s s' e h =
      go (str_eq key (str "runAll")) (str_eq key (str "runAll_tests")) e
    where
      in_it :
          (b : Bool)
          → (if b then point_of split key value scopes s else ok s) ≡ ok s'
          → AllInScope s'
      in_it true f = point_of-AllInScope key value s s' f h
      in_it false f = subst AllInScope (un_ok f) h

      go :
          (a b : Bool)
          → (if a
              then (bind (get_bool value) λ c. ok (record s { all_on = c }))
              else if b
              then (bind
                  (add_tests split (items value) s.all_on_tests scopes)
                  λ tests. ok (record s { all_on_tests = tests }))
              else bind
                  (add value scopes)
                  λ in_scope. if in_scope then point_of split key value scopes s else ok s)
            ≡ ok s'
          → AllInScope s'
      go true b f =
          let (c, e1, f1) = bind-ok (get_bool value) _ s' f in
          subst AllInScope (un_ok f1) (record { at_points = h.at_points; at_all = h.at_all })
      go false true f =
          let (tests, e1, f1) =
            bind-ok (add_tests split (items value) s.all_on_tests scopes) _ s' f in
          subst AllInScope (un_ok f1) (record {
            at_points = h.at_points;
            at_all = add_tests-InScope (items value) s.all_on_tests tests e1 h.at_all;
          })
      go false false f = let (b, e1, f1) = bind-ok (add value scopes) _ s' f in in_it b f1

  add_injection_point-AllInScope :
      (l : List (Str × Json)) (s s' : Points)
      → AllInScope s
      → add_injection_point split l scopes s ≡ ok s'
      → AllInScope s'
  unfolding add_injection_point
  add_injection_point-AllInScope [] s s' h e = subst AllInScope (un_ok e) h
  add_injection_point-AllInScope ((k, v) ∷ l) s s' h e =
      let (middle, e1, f1) = bind-ok (one_member split k v scopes s) _ s' e in
      add_injection_point-AllInScope l middle s' (one_member-AllInScope k v s middle e1 h) f1

none_yet : (split : Str → List Str) (scopes : List Str) → AllInScope split scopes (no_points split)
unfolding find
none_yet split scopes = record { at_points = λ key info e. absurd (impossible e); at_all = tt }
  where
    impossible : {info : InjectionPointInfo} → none ≡ some info → ⊥
    impossible e = cc

points_in-AllInScope :
    (split : Str → List Str) (scopes : List Str) (o : Option Json) (s : Points)
    → points_in split o scopes ≡ ok s
    → AllInScope split scopes s
points_in-AllInScope split scopes none s e =
    subst (AllInScope split scopes) (un_ok e) (none_yet split scopes)
points_in-AllInScope split scopes (some ip) s e =
    add_injection_point-AllInScope split scopes (items ip) (no_points split) s
      (none_yet split scopes) e

-- Where the run scopes of the input file and then its injection points are read without an
-- error, every test of every point that is configured, and every test for runAll, is one that
-- the run scopes let through.
pub injection_points_of-AllInScope :
    (split : Str → List Str) (main : Json) (scopes : List Str) (s : Points)
    → run_scopes split main ≡ ok scopes
    → injection_points_of split main ≡ ok s
    → AllInScope split scopes s
injection_points_of-AllInScope split main scopes s r e =
    points_in-AllInScope split scopes (find_member (str "injectionPoints") main) s
      (sym (ap (λ o. bind o (points_in split (find_member (str "injectionPoints") main))) r) ∙ e)
