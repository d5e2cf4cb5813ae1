-- ===== src/Transport/Packing.antt =====
-- The buffer that Send fills.
use mathlib.Core.List.{append_assoc}
use vnv.Base.{
  suc_plus, zero_times, suc_times, ℕ, zero, suc, ◌+◌, ◌*◌, ◌-◌, ◌≤◌, ◌≡◌, sym, ◌∙◌, ap, List, [],
  ◌∷◌, ◌++◌, none, some, ok, arith, length, length-append, All, nat_key,
}
use vnv.Base.Dict.{Dict, find}
use vnv.Transport.{Bytes, Memory, DataType, blank, cells, write, le_bytes, long_size, pack_all}
use vnv.Transport.Bytes.{
  write-append, overlay-blank, length-cells, length-blank, length-le_bytes, append_ok,
}

plus_zero : (a : ℕ) → a ≡ a + 0
plus_zero a = omega arith

pub write-end :
    (a : Memory) (bs : Bytes) (k i n : ℕ)
    → i ≡ length a
    → n ≡ length bs + k
    → write i bs (a ++ blank n) ≡ ok ((a ++ cells bs) ++ blank k)
write-end a bs k i n h g =
    ap (λ j. write j bs (a ++ blank n)) (h ∙ plus_zero (length a))
    ∙ rw (g) (
        write-append a (blank (length bs + k)) 0 bs
        ∙ ap (append_ok a) (overlay-blank bs k)
        ∙ ap ok (sym (append_assoc a (cells bs) (blank k))))

pub blank-plus : (p q : ℕ) → blank (p + q) ≡ blank p ++ blank q
blank-plus zero q = ap blank (omega arith)
blank-plus (suc p) q = ap blank (suc_plus p q) ∙ ap (λ m. none ∷ m) (blank-plus p q)

module _ {D : Type 0} (t : DataType D) (store : Dict ℕ D) (key size : ℕ) where
  -- The plug-in writes no more than it says, and a fresh object of the type reads it back.
  pub record Travels (d : D) : Type 0 where
    pub has_key : t.get_key d ≡ key
    pub has_size : t.max_size d ≡ size
    pub fits : length (t.pack d) ≤ size
    pub reads_back :
        (o : D) (rest : Memory)
        → find key store ≡ some o
        → t.unpack (t.set_key key o) (cells (t.pack d) ++ rest) ≡ ok d

  -- An object in the buffer: the key, what it packs, and what is left of its share.
  abbrev pub chunk : D → Memory
  chunk d = (cells (le_bytes long_size key) ++ cells (t.pack d)) ++ blank (size - length (t.pack d))

  abbrev pub chunks : List D → Memory
  chunks [] = []
  chunks (d ∷ ds) = chunk d ++ chunks ds

  in_place :
      (a : Memory) (d : D)
      → ((a ++ cells (le_bytes long_size key)) ++ cells (t.pack d))
          ++ blank (size - length (t.pack d))
        ≡ a ++ chunk d
  in_place a d =
      ap (λ m. m ++ blank (size - length (t.pack d)))
        (append_assoc a (cells (le_bytes long_size key)) (cells (t.pack d)))
      ∙ append_assoc a (cells (le_bytes long_size key) ++ cells (t.pack d))
          (blank (size - length (t.pack d)))

  pub length-chunk : (d : D) → length (t.pack d) ≤ size → length (chunk d) ≡ size + 8
  length-chunk d h =
      length-append (cells (le_bytes long_size key) ++ cells (t.pack d))
        (blank (size - length (t.pack d)))
      ∙ omega (
        arith,
        length-append (cells (le_bytes long_size key)) (cells (t.pack d)),
        length-cells (t.pack d),
        length-blank (size - length (t.pack d)),
      )

  pub next_place :
      (i : ℕ) (a : Memory) (d : D)
      → i * (size + 8) ≡ length a
      → Travels d
      → length (
          ((a ++ cells (le_bytes long_size key)) ++ cells (t.pack d))
          ++ blank (size - length (t.pack d)))
        ≡ suc i * (size + 8)
  next_place i a d e h =
      ap length (in_place a d)
      ∙ length-append a (chunk d)
      ∙ omega (arith, e, suc_times i (size + 8), length-chunk d h.fits)

  pub length-chunks : (ds : List D) → All Travels ds → length (chunks ds) ≡ length ds * (size + 8)
  length-chunks [] h = zero_times (size + 8)
  length-chunks (d ∷ ds) (h, hs) = omega (
    arith,
    suc_times (length ds) (size + 8),
    length-append (chunk d) (chunks ds),
    length-chunk d h.fits,
    length-chunks ds hs,
  )

  pub pack_all-chunks :
      (ds : List D) (i : ℕ) (a : Memory)
      → i * (size + 8) ≡ length a
      → All Travels ds
      → pack_all t key (size + 8) i ds (a ++ blank (length ds * (size + 8))) ≡ ok (a ++ chunks ds)
  unfolding pack_all
  pack_all-chunks [] i a e h = ap (λ n. ok (a ++ blank n)) (sym (zero_times (size + 8)))
  pack_all-chunks (d ∷ ds) i a e (h, hs) =
      let ks = le_bytes long_size key in
      let n = length ds * (size + 8) in
      let pad = size - length (t.pack d) in
      let b = (a ++ cells ks) ++ cells (t.pack d) in
      rw
        (
          write-end a ks (size + n) (i * (size + 8)) (length (d ∷ ds) * (size + 8)) e
              (omega (arith, suc_times (length ds) (size + 8), length-le_bytes long_size key)),
          write-end (a ++ cells ks) (t.pack d) (pad + n) (i * (size + 8) + 8) (size + n)
              (omega (
                arith,
                e,
                length-append a (cells ks),
                length-cells ks,
                length-le_bytes long_size key,
              ))
              (omega (arith, h.fits)),
          blank-plus pad n,
          sym (append_assoc b (blank pad) (blank n)),
        )
        (pack_all-chunks ds (suc i) (b ++ blank pad) (sym (next_place i a d e h)) hs
          ∙ ap ok (ap (λ m. m ++ chunks ds) (in_place a d) ∙ append_assoc a (chunk d) (chunks ds)))
