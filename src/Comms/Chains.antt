-- ===== src/Comms/Chains.antt =====
-- What inCommChain answers.
use vnv.Base.{
  ℕ, zero, suc, ◌≤◌, ◌≡◌, ◌≢◌, ◌↔◌, inl, inr, refl, sym, subst, ◌∙◌, ap, Bool, true, false, List,
  [], ◌∷◌, some, arith, length, ◌==◌, ==_iff, Bool-cases, nat_key,
}
use vnv.Comms.{CommMap, has, neighbours, search, in_comm_chain_from, in_comm_chain, answer_of}
use vnv.Comms.Visits.{
  Reaches, there, link, Answer, Answers, Closed, Grows-cons, In, In-head, In-only, idle-Answer,
  left_over, left_over-cons, left_over-nil, met-Answer, search-Answers, search-none, true-ne-false,
}

-- The call on a node that is new, from what it says of the neighbours.
node-Answer :
    (map : CommMap) (z id : ℕ) (v : List ℕ) (r : Bool × List ℕ)
    → z ≢ id
    → Answer map z (id ∷ v) (neighbours map id) r
    → Answer map z v (id ∷ []) r
node-Answer map z id v r ne a = record {
  grows = λ x h. a.grows x (Grows-cons id v x h);
  found = λ t. let (x, i, q) = a.found t in (id, In-head id [], link id x i q);
  closed = λ f x y i o n. elim (Bool-cases (x == id)) [
    | inl same ↦ a.visited f y (subst (λ w. In y (neighbours map w)) ((==_iff x id).0 same) n)
    | inr other ↦ a.closed f x y i (ground arith) n
  ];
  visited = λ f x i. a.grows x (ground (arith, ==_iff x id));
  unmet = λ f h. a.unmet f (ground (arith, ==_iff z id));
}

chain_step :
    (map : CommMap) (z n id : ℕ) (v : List ℕ)
    → (has id v ≡ false
        → Answers map z
            (id ∷ v)
            (neighbours map id)
            (search z (λ p w. in_comm_chain_from n map z p w) (neighbours map id) (id ∷ v)))
    → Answers map z v (id ∷ []) (in_comm_chain_from (suc n) map z id v)
unfolding in_comm_chain_from
chain_step map z n id v beyond = elim (Bool-cases (z == id)) [
  | inl met ↦ (
    (true, v),
    rw (met) refl,
    met-Answer map z id v v (id ∷ []) (λ x h. h) (In-head id [])
        (subst (Reaches map z) ((==_iff z id).0 met) there),
  )
  | inr other ↦ elim (Bool-cases (has id v)) [
    | inl old ↦ (
      (false, v),
      rw (other, old) refl,
      idle-Answer map z v (id ∷ []) (λ x i. subst (λ w. In w v) (sym (In-only x id i)) old),
    )
    | inr new ↦
        let (r, e, a) = beyond new in
        (r, rw (other, new) e, node-Answer map z id v r (λ s. ground (arith, ==_iff z id)) a)
  ]
]

chain-Answers :
    (map : CommMap) (z n id : ℕ) (v : List ℕ)
    → left_over map v ≤ n
    → Answers map z v (id ∷ []) (in_comm_chain_from (suc n) map z id v)
chain-Answers map z zero id v le = chain_step map z zero id v λ new.
    search-none map z (λ p w. in_comm_chain_from zero map z p w) (neighbours map id) (id ∷ v)
      (λ y i. omega (arith, left_over-cons map id y v new i, le))
chain-Answers map z (suc k) id v le = chain_step map z (suc k) id v λ new.
    search-Answers map z k (λ p w. in_comm_chain_from (suc k) map z p w)
      (λ x w h. chain-Answers map z k x w h) (neighbours map id) (id ∷ v)
      (λ y i. omega (arith, left_over-cons map id y v new i, le))

-- A set that is closed under the neighbours holds all that is reached.
Reaches-stays :
    (map : CommMap) (z x : ℕ) (v : List ℕ) → Closed map [] v → Reaches map z x → In x v → In z v
Reaches-stays map z _ v c there i = i
Reaches-stays map z _ v c (link x y n q) i = Reaches-stays map z y v c q (c x y i refl n)

-- InCommChain ends, with a call for every node of the map and one more, and says true exactly if
-- the communicator is reached from the node by going to parents and children, any number of
-- times.
pub in_comm_chain-Reaches :
    (map : CommMap) (comm id : ℕ)
    → (b : Bool) × (in_comm_chain map comm id ≡ some b) × ((b ≡ true) ↔ Reaches map comm id)
in_comm_chain-Reaches map comm id =
    let (r, e, a) = chain-Answers map comm (length map) id [] (omega (arith, left_over-nil map)) in
    (
      r.0,
      ap answer_of e,
      (
        (λ t. let (x, i, q) = a.found t in subst (Reaches map comm) (In-only x id i) q),
        λ q. elim (Bool-cases r.0) [
          | inl t ↦ t
          | inr f ↦ absurd (
              true-ne-false (
                sym (Reaches-stays map comm id r.1 (a.closed f) q (a.visited f id (In-head id [])))
                ∙ a.unmet f refl))
        ],
      ),
    )
