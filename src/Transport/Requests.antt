-- ===== src/Transport/Requests.antt =====
-- Requests: IRequest::unpack of injection/src/base/communication/ICommunicator.cpp.
use mathlib.Core.List.{append_assoc}
use vnv.Base.{
  ℕ, suc, ◌+◌, ◌-◌, ◌*◌, ◌≡◌, refl, ◌∙◌, ap, List, [], ◌∷◌, ◌++◌, Outcome, ok, raise, vnv_exception,
  arith, length, nat_key,
}
use vnv.Base.Dict.{Dict}
use vnv.Transport.{
  Memory, DataType, from, cells, blank, irecv, mark_ready, unpack_all, unpack_buffer,
  request_unpack, bind, cons_ok, get_data_type,
}
use vnv.Transport.Bytes.{from-append, read_le-le_bytes}
use vnv.Transport.Packing.{Travels, chunk, chunks, length-chunk}
use vnv.Transport.RoundTrip.{Registered, made, unpack_all-step}

no_stride : (b : ℕ) → 0 * b ≡ 0
no_stride b = omega arith

module _ {D : Type 0} (t : DataType D) (store : Dict ℕ D) (key size : ℕ) where
  abbrev unpacks : ℕ → Memory → D → Outcome (List D)
  unpacks count m o = unpack_all t store key (t.max_size o) 8 0 count m

  begun :
      (count : ℕ) (o d : D) (rest : Memory)
      → Registered t store key size o
      → unpack_buffer t store count (chunk t store key size d ++ rest)
        ≡ unpack_all t store key size 8 0 count (chunk t store key size d ++ rest)
  unfolding unpack_buffer
  begun count o d rest r =
      let m = chunk t store key size d ++ rest in
      ap
        (λ x. bind x λ k.
          bind (get_data_type t store k) λ o'. unpack_all t store k (t.max_size o') 8 0 count m)
        (read_le-le_bytes 8 key ((cells (t.pack d) ++ blank (size - length (t.pack d))) ++ rest)
          r.is_long)
      ∙ ap (λ x. bind x (unpacks count m)) (made t store key size o r)
      ∙ ap (λ n. unpack_all t store key n 8 0 count m) r.fresh_size

  from-chunk_first :
      (d : D) (rest : Memory)
      → from (0 * size + 8) (chunk t store key size d ++ rest)
        ≡ cells (t.pack d) ++ (blank (size - length (t.pack d)) ++ rest)
  from-chunk_first d rest =
      ap (λ j. from (j + 8) (chunk t store key size d ++ rest)) (no_stride size)
      ∙ append_assoc (cells (t.pack d)) (blank (size - length (t.pack d))) rest

  second_place :
      (d : D) → Travels t store key size d → 1 * size + 8 ≡ length (chunk t store key size d) + 0
  second_place d h = omega (arith, length-chunk t store key size d h.fits)

  from-chunk_second :
      (d : D) (rest : Memory)
      → Travels t store key size d
      → from (1 * size + 8) (chunk t store key size d ++ rest) ≡ rest
  from-chunk_second d rest h =
      ap (λ j. from j (chunk t store key size d ++ rest)) (second_place d h)
      ∙ from-append (chunk t store key size d) rest 0

  first_unpacked :
      (count : ℕ) (o d : D) (rest : Memory)
      → Registered t store key size o
      → Travels t store key size d
      → unpack_buffer t store (suc count) (chunk t store key size d ++ rest)
        ≡ cons_ok t d (unpack_all t store key size 8 1 count (chunk t store key size d ++ rest))
  first_unpacked count o d rest r h =
      begun (suc count) o d rest r
      ∙ unpack_all-step t store key size size 0 count (chunk t store key size d ++ rest)
          (t.set_key key o) d (made t store key size o r)
          (ap (t.unpack (t.set_key key o)) (from-chunk_first d rest)
            ∙ h.reads_back o (blank (size - length (t.pack d)) ++ rest) r.registered)

  -- A ready request that received one object of a registered type, which travels, unpacks to
  -- that object, and throws when it is unpacked again.
  pub unpack_once :
      (o d : D)
      → Registered t store key size o
      → Travels t store key size d
      → let (result, after) =
          request_unpack t store (mark_ready (irecv (chunks t store key size (d ∷ [])) 1)) in
        (result ≡ ok (d ∷ [])) × ((request_unpack t store after).0 ≡ raise vnv_exception)
  unfolding unpack_all
  unpack_once o d r h = rw (first_unpacked 0 o d [] r h) (refl, refl)

  -- Of two objects of a registered type that a request received, of which the first travels,
  -- unpack makes the first, and for the second reads not what it packed but the memory from its
  -- key on.
  pub unpack_second :
      (o d e : D)
      → Registered t store key size o
      → Travels t store key size d
      → unpack_buffer t store 2 (chunks t store key size (d ∷ e ∷ []))
        ≡ cons_ok t d
            (bind (t.unpack (t.set_key key o) (chunks t store key size (e ∷ []))) λ x. ok (x ∷ []))
  unfolding unpack_all
  unpack_second o d e r h =
      let m = chunks t store key size (d ∷ e ∷ []) in
      first_unpacked 1 o d (chunks t store key size (e ∷ [])) r h
      ∙ ap
          (λ x.
            cons_ok t d (bind x λ o'. bind (t.unpack o' (from (1 * size + 8) m)) λ y. ok (y ∷ [])))
          (made t store key size o r)
      ∙ ap (λ x. cons_ok t d (bind (t.unpack (t.set_key key o) x) λ y. ok (y ∷ [])))
          (from-chunk_second d (chunks t store key size (e ∷ [])) h)
