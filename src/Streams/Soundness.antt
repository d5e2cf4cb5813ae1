-- ===== src/Streams/Soundness.antt =====
-- What the calls on the engine keep, whichever call it is.
use vnv.Base.{
  ℕ, suc, ◌+◌, ◌≤◌, ◌≡◌, refl, sym, ap, ◌∙◌, true, false, List, ◌∷◌, Option, none, some, ok, arith,
  Bool-cases, ◌⊎◌, inl, inr, ◌==◌, ==_iff, Outcome, Act, ◌>>◌, pure, subst, if◌then◌else◌,
}
use vnv.Base.Int.{pos}
use vnv.Streams.{
  Files, CanWrite, Communicator, Node, Manager, holds, with_comm, write, write_at_root, sync_id,
  announce, set_comm, sync_ids,
}
use vnv.Streams.Written.{
  streams-write_line, IsWritten, IsWritten_mono, write_line-IsWritten, new_comm-IsWritten,
}

-- The code returns normally, and leaves a state with the property.
abbrev pub Goes : Act Manager (Unit {0}) → Manager → (Manager → Type 0) → Type 0
Goes m s Q = ((m s).0 ≡ ok tt) × Q (m s).1

pub goes_on :
    (m k : Act Manager (Unit {0})) (s : Manager) (Q R : Manager → Type 0)
    → Goes m s Q
    → ((t : Manager) → Q t → Goes k t R)
    → Goes (m >> k) s R
goes_on m k s Q R g h = go (m s) g.0 (h (m s).1 g.1)
  where
    go : (p : Outcome (Unit {0}) × Manager) → p.0 ≡ ok tt → Goes k p.1 R → Goes ((λ _. p) >> k) s R
    go (o, t) e r = rw e r

holds_first : (id : ℕ) (l : List ℕ) → holds id (id ∷ l) ≡ true
holds_first id l = rw ((==_iff id id).1 refl) refl

holds_cons : (id a : ℕ) (l : List ℕ) → holds id (a ∷ l) ≡ true → (id ≡ a) ⊎ (holds id l ≡ true)
holds_cons id a l h = elim (Bool-cases (id == a)) [
  | inl e ↦ inl ((==_iff id a).0 e)
  | inr e ↦ inr (rw e at h)
]

not_root : (c : Communicator) → (c.rank == 0) ≡ false → c.rank ≡ 0 → ⊥
not_root c h e = cc (sym h ∙ (==_iff c.rank 0).1 e)

-- `rank_of` gives the rank of this process in each communicator.
module _ (rank_of : ℕ → ℕ) where
  abbrev pub IsOurs : Communicator → Type 0
  IsOurs c = c.rank ≡ rank_of c.unique_id

  pub record IsSound (s : Manager) : Type 0 where
    pub current :
        (c : Communicator) × (s.comm ≡ some c) × IsOurs c × (holds c.unique_id s.commids ≡ true)
    pub opened :
        (id : ℕ) → holds id s.commids ≡ true → rank_of id ≡ 0 → holds id s.writer.streams ≡ true
    pub written : IsWritten rank_of s.id s.writer

  -- All but the communicator.
  pub record IsReady (s : Manager) : Type 0 where
    pub opened :
        (id : ℕ) → holds id s.commids ≡ true → rank_of id ≡ 0 → holds id s.writer.streams ≡ true
    pub written : IsWritten rank_of s.id s.writer

  some_eq : {c d : Communicator} → some c ≡ some d → c ≡ d
  some_eq e = cc

  -- What is known of the communicator that is current.
  pub current_of :
      (s : Manager) (c : Communicator)
      → s.comm ≡ some c
      → IsSound s
      → IsOurs c × (holds c.unique_id s.commids ≡ true)
  current_of s c e i =
      let (d, e', ours, known) = i.current in
      subst (λ x. IsOurs x × (holds x.unique_id s.commids ≡ true)) (some_eq (sym e' ∙ e))
        (ours, known)

  module _ (good : Files) (all_good : CanWrite good) where
    -- The communicator that is current stays so, and the ids do not fall.
    abbrev pub Keeps : Manager → Manager → Type 0
    Keeps s t = IsSound t × (t.comm ≡ s.comm) × (s.id ≤ t.id)

    pub write-Goes :
        (node : Node) (s : Manager) (c : Communicator)
        → s.comm ≡ some c
        → c.rank ≡ 0
        → IsSound s
        → Goes (write good node) s (Keeps s)
    unfolding write
    write-Goes node s c e root i =
        let (ours, known) = current_of s c e i in
        let at_root : rank_of c.unique_id ≡ 0 = sym ours ∙ root in
        let (done, after) =
          write_line-IsWritten good rank_of all_good c.unique_id node s.id s.writer
            (i.opened c.unique_id known at_root) at_root i.written in
        rw e (
          done,
          (
            record {
              current = (c, refl, ours, known);
              opened = λ id h r.
                  ap (λ l. holds id l)
                    (streams-write_line good c.unique_id node (pos s.id) s.writer)
                  ∙ i.opened id h r;
              written =
                  IsWritten_mono good rank_of all_good (suc s.id) (s.id + 1) _ (omega arith) after;
            },
            refl,
            omega arith,
          ),
        )

    pub sync_id-Goes :
        (top : ℕ) (s : Manager)
        → s.id ≤ top
        → IsSound s
        → Goes (sync_id good top) s (λ t. Keeps s t × (t.id ≡ top))
    unfolding sync_id
    sync_id-Goes top s h i =
        let (c, e, ours, known) = i.current in
        rw e (
          refl,
          (
            (
              record {
                current = (c, refl, ours, known);
                opened = i.opened;
                written = IsWritten_mono good rank_of all_good s.id top s.writer h i.written;
              },
              refl,
              h,
            ),
            refl,
          ),
        )

    pub with_current :
        (c : Communicator) (f : Communicator → Act Manager (Unit {0})) (s : Manager)
        → s.comm ≡ some c
        → with_comm good f s ≡ f c s
    with_current c f s e = ground arith

    pub write_at_root-Goes :
        (node : Node) (s : Manager) → IsSound s → Goes (write_at_root good node) s (Keeps s)
    unfolding write_at_root
    write_at_root-Goes node s i =
        let (c, e, ours, known) = i.current in
        let body : Communicator → Act Manager (Unit {0}) =
          λ c. if c.rank == 0 then write good node else pure tt in
        subst (λ p. (p.0 ≡ ok tt) × Keeps s p.1) (sym (with_current c body s e))
          (elim (Bool-cases (c.rank == 0)) [
            | inl root ↦ rw root (write-Goes node s c e ((==_iff c.rank 0).0 root) i)
            | inr other ↦ rw other (refl, (i, refl, omega arith))
          ])

    abbrev pub Fits : Option ℕ → ℕ → Type 0
    Fits none n = Unit
    Fits (some top) n = n ≤ top

    -- The id that setComm leaves.
    abbrev pub Lands : Option ℕ → ℕ → ℕ → Type 0
    Lands none before after = after ≡ before
    Lands (some top) before after = after ≡ top

    announce-Goes :
        (c : Communicator) (s : Manager)
        → s.comm ≡ some c
        → IsOurs c
        → IsReady s
        → Goes (announce good c) s (λ t. IsSound t × (t.comm ≡ some c) × (t.id ≡ s.id))
    unfolding announce
    announce-Goes c s e ours i = elim (Bool-cases (holds c.unique_id s.commids)) [
      | inl known ↦ rw known (
        refl,
        (record { current = (c, e, ours, known); opened = i.opened; written = i.written }, e, refl),
      )
      | inr new ↦ elim (Bool-cases (c.rank == 0)) [
        | inl root ↦
            let (done, after, there, kept) =
              new_comm-IsWritten good rank_of all_good c.unique_id s.id c.world_ranks s.writer
                (sym ours ∙ (==_iff c.rank 0).0 root) i.written in
            rw (new, root, done)
              (
                refl,
                (
                  record {
                    current = (c, e, ours, holds_first c.unique_id s.commids);
                    opened = λ id h r. elim (holds_cons id c.unique_id s.commids h) [
                      | inl same ↦ rw same there
                      | inr old ↦ kept id (i.opened id old r)
                    ];
                    written = after;
                  },
                  e,
                  refl,
                ),
              )
        | inr other ↦
            rw (new, other)
              (
                refl,
                (
                  record {
                    current = (c, e, ours, holds_first c.unique_id s.commids);
                    opened = λ id h r. elim (holds_cons id c.unique_id s.commids h) [
                      | inl same ↦ absurd (not_root c other (ours ∙ ap rank_of (sym same) ∙ r))
                      | inr old ↦ i.opened id old r
                    ];
                    written = i.written;
                  },
                  e,
                  refl,
                ),
              )
      ]
    ]

    pub set_comm-Goes :
        (c : Communicator) (top : Option ℕ) (s : Manager)
        → IsOurs c
        → Fits top s.id
        → IsReady s
        → Goes (set_comm good c top) s (λ t. IsSound t × (t.comm ≡ some c) × Lands top s.id t.id)
    unfolding set_comm
    set_comm-Goes c top s ours fits i =
        let s' : Manager = record s { comm = some c } in
        goes_on (announce good c) (sync_ids good top) s'
          (λ t. IsSound t × (t.comm ≡ some c) × (t.id ≡ s.id))
          (λ t. IsSound t × (t.comm ≡ some c) × Lands top s.id t.id)
          (announce-Goes c s' refl ours record { opened = i.opened; written = i.written })
          (λ t q. synced top fits t q)
      where
        synced :
            (top : Option ℕ)
            → Fits top s.id
            → (t : Manager) → IsSound t × (t.comm ≡ some c) × (t.id ≡ s.id)
            → Goes (sync_ids good top) t (λ t. IsSound t × (t.comm ≡ some c) × Lands top s.id t.id)
        synced none fits t (i, e, n) = (refl, (i, e, n))
        synced (some top) fits t (i, e, n) =
            let (done, ((i', e', le), at)) = sync_id-Goes top t (omega arith) i in
            (done, (i', e' ∙ e, at))
