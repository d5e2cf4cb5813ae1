-- ===== src/Comms/Descent.antt =====
-- What convertToMap of injection/include/base/communication/CommMapper.h collects.
use vnv.Base.{
  ℕ, zero, suc, ◌≤◌, ◌<◌, ◌≡◌, ◌≢◌, ◌↔◌, ◌⊎◌, inl, inr, refl, sym, subst, ◌∙◌, ap, true, false,
  ◌||◌, List, [], ◌∷◌, Option, none, some, arith, length, ◌==◌, ==_iff, Bool-cases, Option-cases,
  if◌then◌else◌, nat_key,
}
use vnv.Base.Dict.{find, insert, contains, find-insert}
use vnv.Comms.{CommWrap, CommMap}
use vnv.Comms.Visits.{In, In-head, In-tail, In-only, In-cases, true-ne-false}
use vnv.Comms.Maps.{over, comms_map_set_to_map, convert_to_map}

contains-insert :
    (a b : ℕ) (w : CommWrap) (m : CommMap) → contains a (insert b w m) ≡ (contains a m || a == b)
contains-insert a b w m = ground (arith, find-insert a b w m)

-- How many keys of a map are not collected.
abbrev remaining : CommMap → CommMap → ℕ
remaining [] c = 0
remaining ((k, w) ∷ m) c = if contains k c then remaining m c else suc (remaining m c)

abbrev Grows : CommMap → CommMap → Type 0
Grows c r = (x : ℕ) → contains x c ≡ true → contains x r ≡ true

remaining-Grows : (m c r : CommMap) → Grows c r → remaining m r ≤ remaining m c
remaining-Grows [] c r g = omega arith
remaining-Grows ((k, w) ∷ m) c r g = elim (Bool-cases (contains k c)) [
  | inl old ↦ rw (old, g k old) (remaining-Grows m c r g)
  | inr new ↦ elim (Bool-cases (contains k r)) [
    | inl now ↦ rw (new, now) omega (arith, remaining-Grows m c r g)
    | inr not_yet ↦ rw (new, not_yet) omega (arith, remaining-Grows m c r g)
  ]
]

insert-Grows : (id : ℕ) (w : CommWrap) (c : CommMap) → Grows c (insert id w c)
insert-Grows id w c x h = contains-insert x id w c ∙ ap (λ b. b || x == id) h

insert-there : (id : ℕ) (w : CommWrap) (c : CommMap) → contains id (insert id w c) ≡ true
insert-there id w c = ground (arith, contains-insert id id w c, ==_iff id id)

remaining-insert :
    (m c : CommMap) (id : ℕ) (w u : CommWrap)
    → contains id c ≡ false
    → find id m ≡ some u
    → remaining m (insert id w c) < remaining m c
unfolding find
remaining-insert [] c id w u new h = absurd (cc h)
remaining-insert ((k, v) ∷ m) c id w u new h = elim (Bool-cases (id == k)) [
  | inl same ↦
      let e = (==_iff id k).0 same in
      rw
        (
          subst (λ x. contains x c ≡ false) e new,
          subst (λ x. contains x (insert id w c) ≡ true) e (insert-there id w c),
        )
        omega (arith, remaining-Grows m c (insert id w c) (insert-Grows id w c))
  | inr other ↦
      let less = remaining-insert m c id w u new (rw other at h) in
      elim (Bool-cases (contains k c)) [
        | inl old ↦ rw (old, insert-Grows id w c k old) less
        | inr fresh ↦
            let still : contains k (insert id w c) ≡ false =
              ground (arith, contains-insert k id w c, ==_iff k id, ==_iff id k) in
            rw (fresh, still) omega (arith, less)
      ]
]

module _ (map : CommMap) where
  abbrev pub children_of : ℕ → List ℕ
  children_of k = elim (find k map) [ none ↦ [] | some w ↦ w.children ]

  -- Going from a node of the map to its children, again and again, to a node of the map.
  pub data Descends (z : ℕ) : ℕ → Type 0 where
    itself : contains z map ≡ true → Descends z z
    child : (x y : ℕ) → In y (children_of x) → Descends z y → Descends z x

  -- What calls on `starts` have added to `c`.
  record Gathered (starts : List ℕ) (c r : CommMap) : Type 0 where
    grows : Grows c r
    sound :
        (x : ℕ) → contains x r ≡ true → contains x c ≡ false → (s : ℕ) × In s starts × Descends x s
    closed :
        (x y : ℕ)
        → contains x r ≡ true
        → contains x c ≡ false
        → In y (children_of x)
        → contains y map ≡ true
        → contains y r ≡ true
    visited : (x : ℕ) → In x starts → contains x map ≡ true → contains x r ≡ true
    nodes : (k : ℕ) (w : CommWrap) → find k r ≡ some w → (find k c ≡ some w) ⊎ (find k map ≡ some w)

  abbrev Result : List ℕ → CommMap → Option CommMap → Type 0
  Result starts c o = (r : CommMap) × (o ≡ some r) × Gathered starts c r

  idle :
      (starts : List ℕ) (c : CommMap)
      → ((x : ℕ) → In x starts → contains x map ≡ true → contains x c ≡ true)
      → Gathered starts c c
  idle starts c old = record {
    grows = λ x h. h;
    sound = λ x h new. absurd (true-ne-false (sym h ∙ new));
    closed = λ x y h new. absurd (true-ne-false (sym h ∙ new));
    visited = old;
    nodes = λ k w h. inl h;
  }

  then-Gathered :
      (p : ℕ) (ps : List ℕ) (c r s : CommMap)
      → Gathered (p ∷ []) c r
      → Gathered ps r s
      → Gathered (p ∷ ps) c s
  then-Gathered p ps c r s a b = record {
    grows = λ x h. b.grows x (a.grows x h);
    sound = λ x h new. elim (Bool-cases (contains x r)) [
      | inl old ↦
          let (q, i, d) = a.sound x old new in
          (p, In-head p ps, subst (Descends x) (In-only q p i) d)
      | inr newer ↦ let (q, i, d) = b.sound x h newer in (q, In-tail q p ps i, d)
    ];
    closed = λ x y h new i there. elim (Bool-cases (contains x r)) [
      | inl old ↦ b.grows y (a.closed x y old new i there)
      | inr newer ↦ b.closed x y h newer i there
    ];
    visited = λ x i there. elim (In-cases x p ps i) [
      | inl same ↦ b.grows x (a.visited x (subst (λ q. In x (q ∷ [])) same (In-head x [])) there)
      | inr rest ↦ b.visited x rest there
    ];
    nodes = λ k w h. elim (b.nodes k w h) [ inl before ↦ a.nodes k w before | inr own ↦ inr own ];
  }

  over-Result :
      (bound : ℕ) (call : ℕ → CommMap → Option CommMap)
      → ((p : ℕ) (c : CommMap) → remaining map c ≤ bound → Result (p ∷ []) c (call p c))
      → (ps : List ℕ) (c : CommMap) → remaining map c ≤ bound
      → Result ps c (over call ps c)
  over-Result bound call calls [] c le = (c, refl, idle [] c (λ x i. absurd (cc i)))
  over-Result bound call calls (p ∷ ps) c le =
      let (r, e, a) = calls p c le in
      let (s, e', b) =
        over-Result bound call calls ps r (omega (arith, remaining-Grows map c r a.grows, le)) in
      (s, rw (over, e) e', then-Gathered p ps c r s a b)

  found_at : (x y : ℕ) → In y (children_of x) → contains x map ≡ true
  found_at x y j = elim (Option-cases (find x map)) [
    | inl missing ↦ absurd (cc (rw (children_of, missing) at j))
    | inr (w, h) ↦ rw (contains, h) refl
  ]

  children-found : (x : ℕ) (w : CommWrap) → find x map ≡ some w → children_of x ≡ w.children
  children-found x w h = rw (children_of, h) refl

  node-Gathered :
      (id : ℕ) (w : CommWrap) (c r : CommMap)
      → find id map ≡ some w
      → Gathered w.children (insert id w c) r
      → Gathered (id ∷ []) c r
  node-Gathered id w c r h a =
      let present : contains id map ≡ true = rw (contains, h) refl in
      let before : (x : ℕ) → contains x c ≡ false → x ≢ id → contains x (insert id w c) ≡ false =
        λ x new other. ground (arith, contains-insert x id w c, ==_iff x id) in
      record {
        grows = λ x i. a.grows x (insert-Grows id w c x i);
        sound = λ x i new. elim (Bool-cases (x == id)) [
          | inl same ↦ (
            id,
            In-head id [],
            subst (λ z. Descends z id) (sym ((==_iff x id).0 same)) (itself present),
          )
          | inr other ↦
              let (s, j, d) =
                a.sound x i (before x new (λ e. true-ne-false (sym ((==_iff x id).1 e) ∙ other))) in
              (id, In-head id [], child id s (subst (In s) (sym (children-found id w h)) j) d)
        ];
        closed = λ x y i new j there. elim (Bool-cases (x == id)) [
          | inl same ↦
              a.visited y
                (subst (In y) (ap children_of ((==_iff x id).0 same) ∙ children-found id w h) j)
                there
          | inr other ↦
              a.closed x y i (before x new (λ e. true-ne-false (sym ((==_iff x id).1 e) ∙ other))) j
                there
        ];
        visited = λ x i there.
            subst (λ z. contains z r ≡ true) (sym (In-only x id i))
              (a.grows id (insert-there id w c));
        nodes = λ k u i. elim (a.nodes k u i) [
          | inl own ↦ ground (arith, find-insert k id w c, ==_iff k id, h)
          | inr own ↦ inr own
        ];
      }

  -- A pointer that was collected before, or one to nothing.
  idle_pointer :
      (id : ℕ) (c : CommMap)
      → (contains id map ≡ true → contains id c ≡ true)
      → Gathered (id ∷ []) c c
  idle_pointer id c old = idle (id ∷ []) c λ x i there.
      subst (λ z. contains z c ≡ true) (sym (In-only x id i))
        (old (subst (λ z. contains z map ≡ true) (In-only x id i) there))

  set_step :
      (n id : ℕ) (c : CommMap)
      → ((w : CommWrap)
          → find id map ≡ some w
          → contains id c ≡ false
          → Result w.children
              (insert id w c)
              (over (λ p c'. comms_map_set_to_map n map p c') w.children (insert id w c)))
      → Result (id ∷ []) c (comms_map_set_to_map (suc n) map id c)
  unfolding comms_map_set_to_map
  set_step n id c beyond = elim (Bool-cases (contains id c)) [
    | inl old ↦ (c, rw (comms_map_set_to_map, old) refl, idle_pointer id c (λ there. old))
    | inr new ↦ elim (Option-cases (find id map)) [
      | inl missing ↦ (
        c,
        rw (comms_map_set_to_map, new, missing) refl,
        idle_pointer id c (λ there. absurd (cc (rw (contains, missing) at there))),
      )
      | inr (w, h) ↦
          let (r, e, a) = beyond w h new in
          (r, rw (comms_map_set_to_map, new, h) e, node-Gathered id w c r h a)
    ]
  ]

  set-Result :
      (n id : ℕ) (c : CommMap)
      → remaining map c ≤ n
      → Result (id ∷ []) c (comms_map_set_to_map (suc n) map id c)
  set-Result zero id c le =
      set_step zero id c λ w h new. absurd (omega (arith, remaining-insert map c id w w new h, le))
  set-Result (suc k) id c le = set_step (suc k) id c λ w h new.
      over-Result k (λ p c'. comms_map_set_to_map (suc k) map p c') (set-Result k) w.children
        (insert id w c) (omega (arith, remaining-insert map c id w w new h, le))

  remaining-nil : (m : CommMap) → remaining m [] ≡ length m
  unfolding find
  remaining-nil [] = refl
  remaining-nil ((k, w) ∷ m) = ap suc (remaining-nil m)

  -- A set of nodes that is closed under the children holds all that is reached.
  Descends-stays :
      (starts : List ℕ) (r : CommMap) (z x : ℕ)
      → Gathered starts [] r
      → Descends z x
      → (contains x map ≡ true → contains x r ≡ true)
      → contains z r ≡ true
  unfolding find
  Descends-stays starts r z _ g (itself there) i = i there
  Descends-stays starts r z _ g (child x y j d) i =
      Descends-stays starts r z y g d λ there. g.closed x y (i (found_at x y j)) refl j there

  -- ConvertToMap ends, with no more calls inside each other than the graph has nodes and one, and
  -- makes a map of exactly the nodes that are reached from the roots by going to children, any
  -- number of times, each as the graph has it.
  pub convert_to_map-Descends :
      (roots : List ℕ)
      → (r : CommMap) × (convert_to_map map roots ≡ some r)
        × ((k : ℕ) → (contains k r ≡ true) ↔ ((s : ℕ) × In s roots × Descends k s))
        × ((k : ℕ) (w : CommWrap) → find k r ≡ some w → find k map ≡ some w)
  unfolding find
  convert_to_map-Descends roots =
      let n = length map in
      let (r, e, a) =
        over-Result n (λ p c. comms_map_set_to_map (suc n) map p c) (set-Result n) roots []
          (omega (arith, remaining-nil map)) in
      (
        r,
        e,
        (λ k. (
          (λ h. a.sound k h refl),
          λ found. let (s, i, d) = found in Descends-stays roots r k s a d (a.visited s i),
        )),
        λ k w h. elim (a.nodes k w h) [ inl none' ↦ absurd (cc none') | inr own ↦ own ],
      )
