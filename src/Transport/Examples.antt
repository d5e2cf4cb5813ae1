-- ===== src/Transport/Examples.antt =====
-- Two strings of at most three bytes that travel, and a grid of two by three of them.
use vnv.Base.{
  ℕ, zero, suc, ◌+◌, ◌*◌, ◌<◌, ◌≡◌, refl, false, List, [], ◌∷◌, ◌++◌, Option, none, some, ok, raise,
  vnv_exception, Str, str, arith, length, get_elem?, nat_key,
}
use vnv.Base.Dict.{Dict, find}
use vnv.Transport.{
  DataType, Memory, send, pack_all, recv, recv_any, bind, cons_ok, irecv, mark_ready,
  request_unpack, unpack_buffer, unpack_all, get_data_type, from,
}
use vnv.Transport.Packing.{Travels, chunks}
use vnv.Transport.RoundTrip.{Registered, recv-send, recv_any-send}
use vnv.Transport.Requests.{unpack_once, unpack_second}
use vnv.Transport.Strings.{StringData, string_type, set_text, string-Travels, set_unbounded}
use vnv.Transport.Reductions.{
  Reducer, reduce_local_vec, reduce_multiple, pack_encoded, op_type_encoded_reduction,
}
use vnv.Transport.Reductions.Pointwise.{Packs, none_left, pair_then}
use vnv.Transport.Reductions.Packed.{handed_over, reduced_pairwise}
use vnv.Transport.Collectives.{pack_plain, broad_cast, gather, scatter}
use vnv.Transport.Grid.{Header, multipliers, place_rank, place_all, unwrap_result}
use vnv.Transport.Grid.Placing.{block_placed}
use vnv.Transport.Grid.Whole.{grid_written}

abbrev word : Str → StringData
word s = record { key = 5; text = s }

abbrev t : DataType StringData
t = string_type 3

abbrev store : Dict ℕ StringData
store = (5, word []) ∷ []

a_Travels : Travels t store 5 4 (word (str "ab"))
a_Travels =
    string-Travels 3 store (word (str "ab")) ((λ e. omega arith), ((λ e. omega arith), tt))
      (omega arith)

c_Travels : Travels t store 5 4 (word (str "c"))
c_Travels = string-Travels 3 store (word (str "c")) ((λ e. omega arith), tt) (omega arith)

known : Registered t store 5 4 (word [])
unfolding find
known = record { registered = refl; fresh_size = refl; is_long = omega arith }

abbrev both : List StringData
both = word (str "ab") ∷ word (str "c") ∷ []

-- The whole way, computed.
sent_and_received : bind (send t both) (λ p. recv_any t store p.buffer) ≡ ok both
unfolding send pack_all recv_any unpack_all find
sent_and_received = refl

recv-send_example : bind (send t both) (λ p. recv t store 5 p.count p.buffer) ≡ ok both
recv-send_example =
    recv-send t store 5 4 (word []) (word (str "ab")) (word (str "c") ∷ []) known
      (a_Travels, (c_Travels, tt))

recv_any-send_example : bind (send t both) (λ p. recv_any t store p.buffer) ≡ ok both
recv_any-send_example =
    recv_any-send t store 5 4 (word []) (word (str "ab")) (word (str "c") ∷ []) known (omega arith)
      (a_Travels, (c_Travels, tt))

unpack_once_sample :
    let (result, after) =
      request_unpack t store (mark_ready (irecv (chunks t store 5 4 (word (str "c") ∷ [])) 1)) in
    (result ≡ ok (word (str "c") ∷ [])) × ((request_unpack t store after).0 ≡ raise vnv_exception)
unpack_once_sample = unpack_once t store 5 4 (word []) (word (str "c")) known c_Travels

unpack_second_sample :
    unpack_buffer t store 2 (chunks t store 5 4 both)
    ≡ cons_ok t
        (word (str "ab"))
        (bind (t.unpack (word []) (chunks t store 5 4 (word (str "c") ∷ []))) λ x. ok (x ∷ []))
unpack_second_sample =
    unpack_second t store 5 4 (word []) (word (str "ab")) (word (str "c")) known a_Travels

-- The second object that is unpacked is the key, read as a string.
second_is_key :
    unpack_buffer t store 2 (chunks t store 5 4 both) ≡ ok (word (str "ab") ∷ word (5 ∷ []) ∷ [])
unfolding unpack_buffer unpack_all find
second_is_key = refl

long_string_set :
    (d : StringData) × (set_text 3 (str "abcd") (word []) ≡ ok d)
    × (t.max_size d < length (t.pack d))
long_string_set = set_unbounded 3 (str "abcd") (word []) (omega arith) (omega arith)

-- Two strings of one byte, each with the zero behind it.
abbrev letters : Memory
letters = some 97 ∷ some 0 ∷ some 98 ∷ some 0 ∷ []

abbrev object : ℕ → StringData
object zero = word (str "a")
object (suc k) = word (str "b")

letters_read :
    (k : ℕ)
    → k < 2
    → (o : StringData) × (get_data_type (string_type 1) store 5 ≡ ok o)
      × ((string_type 1).unpack o (from (k * 2) letters) ≡ ok (object k))
unfolding find
letters_read zero h = (word [], refl, refl)
letters_read (suc zero) h = (word [], refl, refl)
letters_read (suc (suc k)) h = absurd (omega arith)

letters_read_from :
    (k : ℕ)
    → k < 2
    → (o : StringData) × (get_data_type (string_type 1) store 5 ≡ ok o)
      × ((string_type 1).unpack o (from ((0 + k) * 2) letters) ≡ ok (object k))
unfolding find
letters_read_from zero h = (word [], refl, refl)
letters_read_from (suc zero) h = (word [], refl, refl)
letters_read_from (suc (suc k)) h = absurd (omega arith)

block_placed_example :
    (after : List (Option StringData)) × (place_rank
        (string_type 1)
        store
        5
        2
        letters
        (multipliers (2 ∷ 2 ∷ []))
        ((1, 1) ∷ (2, 0) ∷ [])
        2
        0
        (0 ∷ 0 ∷ [])
        (none ∷ none ∷ none ∷ none ∷ [])
      ≡ ok after)
    × (get_elem? after 3 ≡ some (some (word (str "b"))))
block_placed_example =
    block_placed (string_type 1) store 5 2 letters (2 ∷ 2 ∷ []) ((1, 1) ∷ (2, 0) ∷ [])
      (omega arith, (omega arith, tt)) object 2 0 (none ∷ none ∷ none ∷ none ∷ []) (0 ∷ 1 ∷ [])
      letters_read_from (omega arith) refl (omega arith, (omega arith, tt)) (omega arith)

abbrev headers : List Header
headers =
    record { count = 1; axes = (1, 0) ∷ (1, 0) ∷ [] }
    ∷ record { count = 1; axes = (1, 0) ∷ (1, 1) ∷ [] }
    ∷ []

grid_written_example :
    (after : List (Option StringData)) × (unwrap_result
        (string_type 1)
        store
        5
        2
        letters
        (1 ∷ 2 ∷ [])
        2
        (1 ∷ 1 ∷ 0 ∷ 1 ∷ 0 ∷ 1 ∷ 1 ∷ 0 ∷ 1 ∷ 1 ∷ [])
      ≡ ok after)
    × (length after ≡ 2)
grid_written_example =
    grid_written (string_type 1) store 5 2 letters (1 ∷ 2 ∷ []) object headers
      (
        ((omega arith, (omega arith, tt)), omega arith),
        (((omega arith, (omega arith, tt)), omega arith), tt),
      )
      letters_read

grid_result :
    unwrap_result
      (string_type 1)
      store
      5
      2
      letters
      (1 ∷ 2 ∷ [])
      2
      (1 ∷ 1 ∷ 0 ∷ 1 ∷ 0 ∷ 1 ∷ 1 ∷ 0 ∷ 1 ∷ 1 ∷ [])
    ≡ ok (some (word (str "a")) ∷ some (word (str "b")) ∷ [])
unfolding place_all place_rank find
grid_result = refl

-- A reducer that puts two strings together.
abbrev join : Reducer StringData
join x y = record y { text = x.text ++ y.text }

packs : (d : StringData) → Travels t store 5 4 d → Packs t store 5 4 (word []) d
unfolding find
packs d h = record { fits = h.fits; reads_back = λ rest. h.reads_back (word []) rest refl }

joined_Travels : Travels t store 5 4 (word (str "cab"))
joined_Travels =
    string-Travels 3 store (word (str "cab"))
      ((λ e. omega arith), ((λ e. omega arith), ((λ e. omega arith), tt))) (omega arith)

local_join : reduce_local_vec t join both ≡ some (word (str "cab"))
local_join = refl

-- On one rank, the sum is the object itself.
alone : reduce_multiple t store [] 9 5 (λ m. m) both ≡ ok both
unfolding reduce_multiple pack_encoded unpack_all find
alone = refl

reduced_pairwise_example :
    (bind (handed_over t store 5 4 9 (word (str "c") ∷ [])) λ invec.
      bind (handed_over t store 5 4 9 (word (str "ab") ∷ [])) λ outvec.
        bind
          (op_type_encoded_reduction t store ((9, join) ∷ []) invec outvec 1)
          λ after. unpack_all t store 5 20 16 0 1 after)
    ≡ ok (word (str "cab") ∷ [])
unfolding find
reduced_pairwise_example =
    reduced_pairwise t store 5 4 9 ((9, join) ∷ []) join (word []) (word (str "c"))
      (word (str "ab")) [] [] (omega arith) (omega arith) refl refl refl
      (pair_then (word (str "c")) (word (str "ab")) [] [] (packs (word (str "c")) c_Travels)
        (packs (word (str "ab")) a_Travels) (packs (word (str "cab")) joined_Travels) none_left)

-- One string that is broadcast, and two that are gathered and scattered. An object has as many bytes
-- here as there are ranks, so that the root gathers the right number of them.
broad_cast_one :
    broad_cast (string_type 1) store 5 0 0 1 false 1 (λ m. m) (word (str "a") ∷ [])
    ≡ ok (word (str "a") ∷ [])
unfolding broad_cast pack_plain unpack_all find
broad_cast_one = refl

gathered :
    gather (string_type 1) store 5 0 0 2 false (λ m. letters) (word (str "a") ∷ [])
    ≡ ok (word (str "a") ∷ word (str "b") ∷ [])
unfolding gather pack_plain unpack_all find
gathered = refl

scattered :
    scatter (string_type 1) store 5 0 0 2 2 (λ m. letters) (word (str "a") ∷ [])
    ≡ ok (word (str "a") ∷ word (str "b") ∷ [])
unfolding scatter pack_plain unpack_all find
scattered = refl
