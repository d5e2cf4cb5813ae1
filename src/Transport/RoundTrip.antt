-- ===== src/Transport/RoundTrip.antt =====
-- What is sent is received.
use mathlib.Core.List.{append_assoc}
use native.Mathlib.Nat.{mul-mod_left, mul-div_cancel}
use vnv.Base.{
  lt→ltb, zero_times, suc_times, ℕ, suc, ◌+◌, ◌*◌, ◌-◌, ◌^◌, ◌<◌, ◌≡◌, refl, sym, ◌∙◌, ap, List, [],
  ◌∷◌, ◌++◌, some, ok, arith, length, length-append, All, nat_key,
}
use vnv.Base.Dict.{Dict, find}
use vnv.Transport.{
  Memory, DataType, blank, cells, from, read_le, chunk_size, send, unpack_all, recv, recv_any,
  recv_multiple, bind, cons_ok, get_data_type,
}
use vnv.Transport.Bytes.{from-append, read_le-le_bytes}
use vnv.Transport.Packing.{Travels, chunk, chunks, length-chunk, length-chunks, pack_all-chunks}

module _ {D : Type 0} (t : DataType D) (store : Dict ℕ D) (key size : ℕ) where
  -- The store makes objects of the type, whose key is a long long.
  pub record Registered (o : D) : Type 0 where
    pub registered : find key store ≡ some o
    pub fresh_size : t.max_size (t.set_key key o) ≡ size
    pub is_long : key < 256 ^ 8

  from-chunk :
      (i : ℕ) (a : Memory) (d : D) (ds : List D)
      → i * (size + 8) ≡ length a
      → from (i * (size + 8) + 8) (a ++ chunks t store key size (d ∷ ds))
        ≡ cells (t.pack d) ++ (blank (size - length (t.pack d)) ++ chunks t store key size ds)
  from-chunk i a d ds e =
      ap (λ j. from (j + 8) (a ++ chunks t store key size (d ∷ ds))) e
      ∙ from-append a (chunks t store key size (d ∷ ds)) 8
      ∙ append_assoc (cells (t.pack d)) (blank (size - length (t.pack d)))
          (chunks t store key size ds)

  further :
      (i : ℕ) (a : Memory) (d : D)
      → i * (size + 8) ≡ length a
      → Travels t store key size d
      → suc i * (size + 8) ≡ length (a ++ chunk t store key size d)
  further i a d e h = omega (
    arith,
    e,
    suc_times i (size + 8),
    length-append a (chunk t store key size d),
    length-chunk t store key size d h.fits,
  )

  pub made : (o : D) → Registered o → get_data_type t store key ≡ ok (t.set_key key o)
  made o r = rw (get_data_type, r.registered) refl

  pub unpack_all-step :
      (stride i n : ℕ) (m : Memory) (o d : D)
      → get_data_type t store key ≡ ok o
      → t.unpack o (from (i * stride + 8) m) ≡ ok d
      → unpack_all t store key stride 8 i (suc n) m
        ≡ cons_ok t d (unpack_all t store key stride 8 (suc i) n m)
  unfolding unpack_all
  unpack_all-step stride i n m o d e f =
      let rest = unpack_all t store key stride 8 (suc i) n m in
      ap (λ x. bind x λ o'. bind (t.unpack o' (from (i * stride + 8) m)) λ d'. cons_ok t d' rest) e
      ∙ ap (λ x. bind x λ d'. cons_ok t d' rest) f

  pub unpack_all-chunks :
      (o : D) (ds : List D) (i : ℕ) (a : Memory)
      → Registered o
      → i * (size + 8) ≡ length a
      → All (Travels t store key size) ds
      → unpack_all t store key (size + 8) 8 i (length ds) (a ++ chunks t store key size ds) ≡ ok ds
  unfolding unpack_all
  unpack_all-chunks o [] i a r e h = refl
  unpack_all-chunks o (d ∷ ds) i a r e (h, hs) =
      unpack_all-step (size + 8) i (length ds) (a ++ chunks t store key size (d ∷ ds))
        (t.set_key key o) d (made o r)
        (ap (t.unpack (t.set_key key o)) (from-chunk i a d ds e)
          ∙ h.reads_back o (blank (size - length (t.pack d)) ++ chunks t store key size ds)
              r.registered)
      ∙ ap (cons_ok t d) (
          ap (unpack_all t store key (size + 8) 8 (suc i) (length ds))
            (sym (append_assoc a (chunk t store key size d) (chunks t store key size ds)))
          ∙ unpack_all-chunks o ds (suc i) (a ++ chunk t store key size d) r (further i a d e h) hs)

  sent :
      (d : D) (ds : List D)
      → All (Travels t store key size) (d ∷ ds)
      → send t (d ∷ ds)
        ≡ ok (record {
          buffer = chunks t store key size (d ∷ ds);
          count = length (d ∷ ds);
          size = size + 8;
        })
  unfolding send
  sent d ds (h, hs) =
      rw
        (
          h.has_size,
          h.has_key,
          pack_all-chunks t store key size (d ∷ ds) 0 [] (sym (zero_times (size + 8))) (h, hs),
        )
        refl

  unpacked :
      (o : D) (d : D) (ds : List D)
      → Registered o
      → All (Travels t store key size) (d ∷ ds)
      → unpack_all t store key
          (chunk_size t (t.set_key key o))
          8
          0
          (length (d ∷ ds))
          (chunks t store key size (d ∷ ds))
        ≡ ok (d ∷ ds)
  unpacked o d ds r h =
      ap
        (λ n.
          unpack_all t store key (n + 8) 8 0 (length (d ∷ ds)) (chunks t store key size (d ∷ ds)))
        r.fresh_size
      ∙ unpack_all-chunks o (d ∷ ds) 0 [] r (sym (zero_times (size + 8))) h

  -- At least one object, all of one registered type whose key is a long long, that pack no more
  -- than the size of the type and are read back by a fresh object from what they packed,
  -- whatever follows it: Recv of that type makes them, in their order, from the buffer and the
  -- count that Send hands over.
  pub recv-send :
      (o : D) (d : D) (ds : List D)
      → Registered o
      → All (Travels t store key size) (d ∷ ds)
      → bind (send t (d ∷ ds)) (λ p. recv t store key p.count p.buffer) ≡ ok (d ∷ ds)
  unfolding recv
  recv-send o d ds r h =
      ap (λ x. bind x λ p. recv t store key p.count p.buffer) (sent d ds h)
      ∙ ap
          (λ x. bind x λ o'.
            unpack_all t store key (chunk_size t o') 8 0 (length (d ∷ ds))
              (chunks t store key size (d ∷ ds)))
          (made o r)
      ∙ unpacked o d ds r h

  long_enough :
      (d : D) (ds : List D)
      → All (Travels t store key size) (d ∷ ds)
      → 0 < size
      → 8 < length (chunks t store key size (d ∷ ds))
  long_enough d ds h z =
      omega (arith, length-chunks t store key size (d ∷ ds) h, suc_times (length ds) (size + 8))

  whole_chunks :
      (m : Memory) (o : D) (n : ℕ)
      → t.max_size o ≡ size
      → length m ≡ n * (size + 8)
      → recv_multiple t store key m o ≡ unpack_all t store key (chunk_size t o) 8 0 n m
  whole_chunks m o n has_size has_length =
      rw
        (
          has_size,
          has_length,
          mul-mod_left n (size + 8),
          mul-div_cancel n {n = size + 8} (omega arith),
        )
        refl

  recv_any-long :
      (m : Memory) (o : D) (n : ℕ)
      → 8 < length m
      → read_le 8 m ≡ ok key
      → get_data_type t store key ≡ ok o
      → t.max_size o ≡ size
      → length m ≡ n * (size + 8)
      → recv_any t store m ≡ unpack_all t store key (chunk_size t o) 8 0 n m
  unfolding recv_any
  recv_any-long m o n long is_key is_made has_size has_length = rw (lt→ltb 8 (length m) long) (
      ap (λ x. bind x λ k. bind (get_data_type t store k) (recv_multiple t store k m)) is_key
      ∙ ap (λ x. bind x (recv_multiple t store key m)) is_made
      ∙ whole_chunks m o n has_size has_length)

  -- At least one object, all of one registered type of a positive size whose key is a long long,
  -- that pack no more than that size and are read back by a fresh object from what they packed,
  -- whatever follows it: Recv without a type makes them, in their order, from the buffer that
  -- Send hands over.
  pub recv_any-send :
      (o : D) (d : D) (ds : List D)
      → Registered o
      → 0 < size
      → All (Travels t store key size) (d ∷ ds)
      → bind (send t (d ∷ ds)) (λ p. recv_any t store p.buffer) ≡ ok (d ∷ ds)
  unfolding recv_any
  recv_any-send o d ds r z h =
      ap (λ x. bind x λ p. recv_any t store p.buffer) (sent d ds h)
      ∙ recv_any-long (chunks t store key size (d ∷ ds)) (t.set_key key o) (length (d ∷ ds))
          (long_enough d ds h z)
          (read_le-le_bytes 8 key
            ((cells (t.pack d) ++ blank (size - length (t.pack d))) ++ chunks t store key size ds)
            r.is_long)
          (made o r) r.fresh_size (length-chunks t store key size (d ∷ ds) h)
      ∙ unpacked o d ds r h
