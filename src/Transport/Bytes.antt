-- ===== src/Transport/Bytes.antt =====
-- Memory written and read at places, and numbers in eight bytes.
use vnv.Base.{
  ℕ, zero, suc, ◌+◌, ◌/◌, ◌%◌, ◌^◌, ◌<◌, ◌≡◌, refl, ◌∙◌, ap, [], ◌∷◌, ◌++◌, Option, some, Outcome,
  ok, raise, arith, length, suc_plus,
}
use vnv.Transport.{
  Bytes, Memory, blank, cells, and_cell, overlay, write, from, le_bytes, read_le, with_low,
}

abbrev pub append_ok : Memory → Outcome Memory → Outcome Memory
append_ok a (ok m) = ok (a ++ m)
append_ok a (raise e) = raise e

append_ok-nil : (o : Outcome Memory) → o ≡ append_ok [] o
append_ok-nil (ok m) = refl
append_ok-nil (raise e) = refl

and_cell-append_ok :
    (c : Option ℕ) (a : Memory) (o : Outcome Memory)
    → and_cell c (append_ok a o) ≡ append_ok (c ∷ a) o
and_cell-append_ok c a (ok m) = refl
and_cell-append_ok c a (raise e) = refl

zero_plus : (b : ℕ) → 0 + b ≡ b
zero_plus b = omega arith

pub write-append :
    (a m : Memory) (j : ℕ) (bs : Bytes)
    → write (length a + j) bs (a ++ m) ≡ append_ok a (write j bs m)
write-append [] m j bs = ap (λ i. write i bs m) (zero_plus j) ∙ append_ok-nil (write j bs m)
write-append (c ∷ a) m j bs =
    ap (λ i. write i bs (c ∷ (a ++ m))) (suc_plus (length a) j)
    ∙ ap (and_cell c) (write-append a m j bs)
    ∙ and_cell-append_ok c a (write j bs m)

pub from-append : (a m : Memory) (j : ℕ) → from (length a + j) (a ++ m) ≡ from j m
from-append [] m j = ap (λ i. from i m) (zero_plus j)
from-append (c ∷ a) m j =
    ap (λ i. from i (c ∷ (a ++ m))) (suc_plus (length a) j) ∙ from-append a m j

pub overlay-blank :
    (bs : Bytes) (k : ℕ) → overlay bs (blank (length bs + k)) ≡ ok (cells bs ++ blank k)
overlay-blank [] k = ap (λ i. ok (blank i)) (zero_plus k)
overlay-blank (b ∷ bs) k =
    ap (λ i. overlay (b ∷ bs) (blank i)) (suc_plus (length bs) k)
    ∙ ap (and_cell (some b)) (overlay-blank bs k)

pub length-cells : (bs : Bytes) → length (cells bs) ≡ length bs
length-cells [] = refl
length-cells (b ∷ bs) = ap suc (length-cells bs)

pub length-blank : (n : ℕ) → length (blank n) ≡ n
length-blank zero = refl
length-blank (suc n) = ap suc (length-blank n)

pub length-le_bytes : (n k : ℕ) → length (le_bytes n k) ≡ n
length-le_bytes zero k = refl
length-le_bytes (suc n) k = ap suc (length-le_bytes n (k / 256))

pub read_le-le_bytes :
    (n k : ℕ) (m : Memory) → k < 256 ^ n → read_le n (cells (le_bytes n k) ++ m) ≡ ok k
read_le-le_bytes zero k m h = ap ok (omega arith)
read_le-le_bytes (suc n) k m h =
    ap (with_low (k % 256)) (read_le-le_bytes n (k / 256) m (omega arith)) ∙ ap ok (omega arith)
