-- ===== src/Transport.antt =====
-- Objects that travel between ranks: injection/src/base/communication/Communication.cpp, IRequest of
-- injection/src/base/communication/ICommunicator.cpp, and the tables of
-- injection/src/base/stores/DataTypeStore.cpp. A block of memory is the list of its bytes, `none` is
-- a byte that was never written, and a pointer into it is what stands from there on.
pub mod Bytes
pub mod Packing
pub mod RoundTrip
pub mod Requests
pub mod Grid
pub mod Reductions
pub mod Collectives
pub mod Strings
mod Examples
pub use vnv.Base.{bind}
use vnv.Base.{
  ℕ, zero, suc, ◌+◌, ◌*◌, ◌/◌, ◌%◌, Bool, true, false, ◌&&◌, List, [], ◌∷◌, ◌++◌, Option, none,
  some, Outcome, ok, raise, vnv_exception, fault, length, ltb, if◌then◌else◌, ◌==◌, nat_key,
}
use vnv.Base.Dict.{Dict, find, insert}

abbrev pub Bytes : Type 0
Bytes = List ℕ

abbrev pub Memory : Type 0
Memory = List (Option ℕ)

abbrev pub blank : ℕ → Memory
blank zero = []
blank (suc n) = none ∷ blank n

abbrev pub cells : Bytes → Memory
cells [] = []
cells (b ∷ bs) = some b ∷ cells bs

abbrev pub and_cell : Option ℕ → Outcome Memory → Outcome Memory
and_cell c (ok m) = ok (c ∷ m)
and_cell c (raise e) = raise e

abbrev pub overlay : Bytes → Memory → Outcome Memory
overlay [] m = ok m
overlay (b ∷ bs) [] = raise fault
overlay (b ∷ bs) (c ∷ m) = and_cell (some b) (overlay bs m)

-- Writes at a place.
abbrev pub write : ℕ → Bytes → Memory → Outcome Memory
write zero bs m = overlay bs m
write (suc i) bs [] = raise fault
write (suc i) bs (c ∷ m) = and_cell c (write i bs m)

-- The pointer to a place.
abbrev pub from : ℕ → Memory → Memory
from zero m = m
from (suc i) [] = []
from (suc i) (c ∷ m) = from i m

-- A long long takes eight bytes, the lowest first.
abbrev pub long_size : ℕ
long_size = 8

abbrev pub le_bytes : ℕ → ℕ → Bytes
le_bytes zero k = []
le_bytes (suc n) k = k % 256 ∷ le_bytes n (k / 256)

abbrev pub with_low : ℕ → Outcome ℕ → Outcome ℕ
with_low b (ok k) = ok (b + 256 * k)
with_low b (raise e) = raise e

-- Reading memory that was not written, or that is not there, is undefined.
abbrev pub read_le : ℕ → Memory → Outcome ℕ
read_le zero m = ok 0
read_le (suc n) [] = raise fault
read_le (suc n) (none ∷ m) = raise fault
read_le (suc n) (some b ∷ m) = with_low b (read_le n m)

abbrev pub read_long : Memory → Outcome ℕ
read_long m = read_le long_size m

-- IDataType, as the plug-ins implement it. Keys are the bit patterns of a long long.
pub record DataType (D : Type 0) : Type 0 where
  pub get_key : D → ℕ
  pub set_key : ℕ → D → D
  pub max_size : D → ℕ
  pub pack : D → Bytes
  pub unpack : D → Memory → Outcome D

-- What Send hands over to the communicator.
pub record Parcel : Type 0 where
  pub buffer : Memory
  pub count : ℕ
  pub size : ℕ

module _ {D : Type 0} (t : DataType D) where
  -- A maker is the object that it makes.
  abbrev pub get_data_type : Dict ℕ D → ℕ → Outcome D
  get_data_type store key = elim (find key store) [
    | none ↦ raise vnv_exception
    | some fresh ↦ ok (t.set_key key fresh)
  ]

  abbrev pub chunk_size : D → ℕ
  chunk_size d = t.max_size d + long_size

  -- The loop of Send over the objects, with the key of the first.
  unfoldable pub pack_all : (key size i : ℕ) → List D → Memory → Outcome Memory
  pack_all key size i [] m = ok m
  pack_all key size i (d ∷ ds) m = bind (write (i * size) (le_bytes long_size key) m) λ m'.
      bind (write (i * size + long_size) (t.pack d) m') λ m''. pack_all key size (suc i) ds m''

  unfoldable pub send : List D → Outcome Parcel
  send [] = raise fault
  send (d ∷ ds) =
      let size = chunk_size d in
      bind (pack_all (t.get_key d) size 0 (d ∷ ds) (blank (length (d ∷ ds) * size)))
        λ m. ok (record { buffer = m; count = length (d ∷ ds); size = size })

  abbrev pub cons_ok : D → Outcome (List D) → Outcome (List D)
  cons_ok d (ok ds) = ok (d ∷ ds)
  cons_ok d (raise e) = raise e

  module _ (store : Dict ℕ D) (key : ℕ) where
    -- The loops that unwrap `count` objects, each `skip` bytes behind a multiple of the size.
    unfoldable pub unpack_all : (size skip i count : ℕ) → Memory → Outcome (List D)
    unpack_all size skip i zero m = ok []
    unpack_all size skip i (suc count) m = bind (get_data_type store key) λ o.
        bind (t.unpack o (from (i * size + skip) m))
          λ d. cons_ok d (unpack_all size skip (suc i) count m)

    -- Recv of a known type, on what the communicator received.
    unfoldable pub recv : ℕ → Memory → Outcome (List D)
    recv count m = bind (get_data_type store key) λ o. unpack_all (chunk_size o) long_size 0 count m

  module _ (store : Dict ℕ D) where
    abbrev pub recv_multiple : ℕ → Memory → D → Outcome (List D)
    recv_multiple key m o =
        if length m % chunk_size o == 0
        then unpack_all store key (chunk_size o) long_size 0 (length m / chunk_size o) m
        else raise vnv_exception

    -- Recv of an unknown type: the message says what it is, and its length how many there are.
    unfoldable pub recv_any : Memory → Outcome (List D)
    recv_any m =
        if ltb long_size (length m)
        then (bind (read_long m) λ key. bind (get_data_type store key) (recv_multiple key m))
        else if length m == 0
        then ok []
        else raise vnv_exception

-- IRequest. The buffer goes when it is unpacked.
pub record Request : Type 0 where
  pub buffer : Option Memory
  pub count : ℕ
  pub is_recv : Bool
  pub ready : Bool

abbrev pub irecv : Memory → ℕ → Request
irecv m count = record { buffer = some m; count = count; is_recv = true; ready = false }

-- Wait and the tests mark a request.
abbrev pub mark_ready : Request → Request
mark_ready r = record r { ready = true }

module _ {D : Type 0} (t : DataType D) (store : Dict ℕ D) where
  -- IRequest::unpack, whose stride is the size of an object without its key.
  unfoldable pub unpack_buffer : ℕ → Memory → Outcome (List D)
  unpack_buffer count m = bind (read_long m) λ key.
      bind (get_data_type t store key)
        λ o. unpack_all t store key (t.max_size o) long_size 0 count m

  abbrev pub after_unpack : Request → Outcome (List D) → Outcome (List D) × Request
  after_unpack r (ok ds) = (ok ds, record r { buffer = none })
  after_unpack r (raise e) = (raise e, r)

  abbrev pub request_unpack : Request → Outcome (List D) × Request
  request_unpack r = elim r.buffer [
    | none ↦ (raise vnv_exception, r)
    | some m ↦
        if r.ready && r.is_recv
        then after_unpack r (unpack_buffer r.count m)
        else (raise vnv_exception, r)
  ]
