-- ===== src/Transport/Collectives.antt =====
-- BroadCast, Gather and Scatter of DataTypeCommunication, as one rank runs them: what it puts into its
-- buffer, and what it makes of the buffer that the communicator leaves it, which is a parameter.
use vnv.Base.{
  ℕ, zero, suc, ◌*◌, ◌≡◌, refl, sym, subst, inl, inr, Bool-cases, ==_iff, ◌∙◌, Bool, true, false,
  ◌||◌, List, [], ◌∷◌, Option, none, some, Outcome, ok, raise, fault, arith, length, if◌then◌else◌,
  ◌==◌, ltb, nat_key, bind, bind-ok,
}
use vnv.Base.Dict.{Dict}
use vnv.Transport.{DataType, Memory, blank, write, get_data_type, unpack_all, cons_ok}

un_ok : {A : Type 0} {x y : A} → ok x ≡ ok y → x ≡ y
un_ok e = cc

module _ {D : Type 0} (t : DataType D) (store : Dict ℕ D) (dtype rank root ranks : ℕ) where
  unfoldable pub pack_plain : (size i : ℕ) → List D → Memory → Outcome Memory
  pack_plain size i [] m = ok m
  pack_plain size i (d ∷ ds) m =
      bind (write (i * size) (t.pack d) m) λ m'. pack_plain size (suc i) ds m'

  abbrev pub packed : ℕ → List D → Outcome Memory
  packed size ds = pack_plain size 0 ds (blank (length ds * size))

  abbrev pub unwrap : (size count : ℕ) → Memory → Outcome (List D)
  unwrap size count m = unpack_all t store dtype size 0 0 count m

  -- A rank that does not send has room for as many objects as it was given.
  abbrev pub send_buffer : Bool → ℕ → List D → Outcome Memory
  send_buffer all size ds =
      if (rank == root) || all then packed size ds else ok (blank (length ds * size))

  abbrev pub room_for : ℕ → Memory → Outcome Memory
  room_for n m = if ltb (length m) n then raise fault else ok m

  unfoldable pub broad_cast :
      (all_to_all : Bool) (count : ℕ) → (Memory → Memory) → List D → Outcome (List D)
  broad_cast all_to_all count exchange ds = bind (get_data_type t store dtype) λ o.
      let size = t.max_size o in
      bind (send_buffer all_to_all size ds) λ buffer.
        if all_to_all
        then unwrap size (ranks * count) (exchange buffer)
        else (bind (room_for (count * size) buffer) λ b. unwrap size count (exchange b))

  -- The loop goes over as many objects as the buffer of this rank has bytes.
  unfoldable pub gather : (all_gather : Bool) → (Memory → Memory) → List D → Outcome (List D)
  gather all_gather exchange ds = bind (get_data_type t store dtype) λ o.
      bind (packed (t.max_size o) ds) λ buffer.
        if (rank == root) || all_gather
        then unwrap (t.max_size o) (t.max_size o * length ds) (exchange buffer)
        else ok []

  -- The root has a buffer where the number of its objects is not the one that is scattered.
  abbrev pub scatter_buffer : (size count : ℕ) → List D → Outcome (Option Memory)
  scatter_buffer size count ds =
      if (rank == root)
      then (if length ds == count * ranks then ok none else bind (packed size ds) λ m. ok (some m))
      else ok none

  unfoldable pub scatter : ℕ → (Option Memory → Memory) → List D → Outcome (List D)
  scatter count exchange ds = bind (get_data_type t store dtype) λ o.
      bind (scatter_buffer (t.max_size o) count ds)
        λ buffer. unwrap (t.max_size o) count (exchange buffer)

  cons_ok-length :
      (d : D) (o : Outcome (List D)) (ds : List D) (n : ℕ)
      → cons_ok t d o ≡ ok ds
      → ((l : List D) → o ≡ ok l → length l ≡ n)
      → length ds ≡ suc n
  cons_ok-length d (ok l) ds n e h = ground (arith, h l refl)
  cons_ok-length d (raise x) ds n e h = ground arith

  length-unpack_all :
      (size skip i count : ℕ) (m : Memory) (ds : List D)
      → unpack_all t store dtype size skip i count m ≡ ok ds
      → length ds ≡ count
  unfolding unpack_all
  length-unpack_all size skip i zero m ds e = ground arith
  length-unpack_all size skip i (suc count) m ds e =
      let (o, e1, f1) = bind-ok (get_data_type t store dtype) _ ds e in
      let (d, e2, f2) = bind-ok (t.unpack o _) _ ds f1 in
      cons_ok-length d (unpack_all t store dtype size skip (suc i) count m) ds count f2
        (length-unpack_all size skip (suc i) count m)

  taken :
      (b : Bool) (o : Outcome (List D)) (l : List D)
      → b ≡ true
      → (if b then o else ok []) ≡ ok l
      → o ≡ ok l
  taken true o l h e = e
  taken false o l h e = absurd (ground arith)

  -- Where the root gathers, it makes as many objects as it sent bytes, whatever the number of ranks.
  pub length-gather :
      (all_gather : Bool) (exchange : Memory → Memory) (ds results : List D) (o : D)
      → rank ≡ root
      → get_data_type t store dtype ≡ ok o
      → gather all_gather exchange ds ≡ ok results
      → length results ≡ t.max_size o * length ds
  unfolding gather
  length-gather all_gather exchange ds results o h g e =
      let (o', e1, f1) = bind-ok (get_data_type t store dtype) _ results e in
      let (buffer, e2, f2) = bind-ok (packed (t.max_size o') ds) _ results f1 in
      subst (λ x. length results ≡ t.max_size x * length ds) (un_ok (sym e1 ∙ g))
        (length-unpack_all (t.max_size o') 0 0 (t.max_size o' * length ds) (exchange buffer) results
          (taken ((rank == root) || all_gather)
            (unwrap (t.max_size o') (t.max_size o' * length ds) (exchange buffer)) results
            (rw ((==_iff rank root).1 h) refl) f2))

  -- A root with as many objects as are scattered sends from no buffer.
  pub scatter_sends_nothing :
      (size count : ℕ) (ds : List D)
      → length ds ≡ count * ranks
      → scatter_buffer size count ds ≡ ok none
  scatter_sends_nothing size count ds h = elim (Bool-cases (rank == root)) [
    | inl at_root ↦ rw (at_root, (==_iff (length ds) (count * ranks)).1 h) refl
    | inr other ↦ rw (other) refl
  ]
