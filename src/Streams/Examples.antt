-- ===== src/Streams/Examples.antt =====
-- The theorems on the stream engine at one process that is the root of the world and of a
-- communicator of its own, and rank 1 of a third; and runs of the code.
use vnv.Base.{
  ℕ, ◌+◌, ◌≡◌, refl, Bool, true, false, List, [], ◌∷◌, Option, none, some, Str, str, Outcome, ok,
  arith, ◌==◌, if◌then◌else◌, str_eq, nat_key, ◌>>◌, ◌||◌, ◌++◌, ◌≤◌,
}
use vnv.Base.Dict.{find}
use vnv.Base.Int.{pos}
use vnv.Json.{Json, empty_object}
use vnv.Engine.{Event, single, begin, end, InjectionPointType}
use vnv.Engine
use vnv.Streams.{
  Files, CanWrite, Communicator, Manager, start, set_comm, announce, new_comm, write_line, sync_id,
  get_next_id, long, long_type, write, write_at_root,
}
use vnv.Streams.Calls.{Call, run_calls, perform}
use vnv.Streams.Callbacks.{
  set_from_json, injection_point_started_call_back, test_started_call_back, test_finished_call_back,
  action_started_call_back, action_ended_call_back,
}
use vnv.Streams.Soundness.{IsSound, set_comm-Goes}
use vnv.Streams.Running.{AllFit, run_calls-Sound, start-IsReady}
use vnv.Streams.Agreement.{point_started_orders}
use vnv.Streams.Opening.{initialize_ends, initialize}
use vnv.Streams.Reports.{found_or_none, get_node_map-lists, get_node_map}
use vnv.Streams.Globals.{put_plain_array, put_global_array, PutData}

-- The process is rank 1 of the communicator 2.
abbrev rank_of : ℕ → ℕ
rank_of n = if n == 2 then 1 else 0

abbrev good : Files
good id node = ok tt

all_good : CanWrite good
all_good id node = refl

abbrev world : Communicator
world = record { unique_id = 0; rank = 0; world_ranks = 0 ∷ 1 ∷ [] }

abbrev own : Communicator
own = record { unique_id = 1; rank = 0; world_ranks = 0 ∷ [] }

abbrev other : Communicator
other = record { unique_id = 2; rank = 1; world_ranks = 1 ∷ 0 ∷ [] }

abbrev some_calls : List Call
some_calls =
    Call.point_started own 3 (str "p") (str "loop") begin (str "Begin")
    ∷ Call.test_started (str "p") (str "t") true (pos 7)
    ∷ Call.test_finished true
    ∷ Call.action_started other 9 (str "p") (str "a") Engine.iter
    ∷ Call.action_ended Engine.iter
    ∷ []

abbrev some_events : List Event
some_events =
    Event.point_started 1 (str "p") (str "loop") begin (str "Begin") (str "f") 12
    ∷ Event.test_started (str "p") (str "t") true (pos 7)
    ∷ Event.test_finished true
    ∷ Event.action_started 2 (str "p") (str "a") Engine.iter
    ∷ Event.action_ended Engine.iter
    ∷ []

some_calls-AllFit : AllFit rank_of good all_good some_calls (set_from_json good world start).1
unfolding set_from_json set_comm announce new_comm write_line sync_id get_next_id write
    write_at_root perform injection_point_started_call_back test_started_call_back
    test_finished_call_back action_started_call_back action_ended_call_back
some_calls-AllFit = ((refl, omega arith), (tt, (tt, ((refl, omega arith), (tt, tt)))))

run_calls-Sound_example : ((set_from_json good world >> run_calls good some_calls) start).0 ≡ ok tt
run_calls-Sound_example =
    (run_calls-Sound rank_of good all_good world some_calls refl some_calls-AllFit).0

abbrev set_up : Manager
set_up = (set_comm good world none start).1

set_up-IsSound : IsSound rank_of set_up
set_up-IsSound =
    (set_comm-Goes rank_of good all_good world none start refl tt
      (start-IsReady rank_of good all_good)).1.0

set_up_at_world : set_up.comm ≡ some world
unfolding set_comm announce new_comm write_line
set_up_at_world = refl

-- A rank that has come to the id 8.
abbrev further : Manager
further = record start { id = 8 }

point_started_orders_example :
    ((injection_point_started_call_back good own 8 (str "p") (str "x") single (str "Begin"))
      set_up).0
    ≡ ok tt
unfolding set_comm
point_started_orders_example =
    (point_started_orders good all_good rank_of set_up (further ∷ []) own (str "p") (str "x") single
      (str "Begin") refl refl set_up-IsSound (tt, tt)).0

abbrev ticking : ℕ → ℕ
ticking k = 100 + k

abbrev late_answer : ℕ → Option (Outcome Json)
late_answer k = if k == 3 then some (ok empty_object) else none

abbrev dumped : Json → Str
dumped j = str "{}"

abbrev parsed : Str → Outcome Json
parsed s = ok empty_object

abbrev silence : ℕ → Option (Outcome Json)
silence k = none

-- `r`, `r1` and `r2` are there.
abbrev taken : Str → Bool
taken s = str_eq s (str "r") || str_eq s (str "r1") || str_eq s (str "r2")

abbrev digit : ℕ → Str
digit n = (48 + n) ∷ []

initialize_ends_example :
    (k : ℕ) × (initialize taken (λ s. true) digit 4 (str "r") ≡ some (ok (str "r" ++ digit k)))
    × (taken (str "r" ++ digit k) ≡ false)
    × (1 ≤ k)
    × (k ≤ 3)
    × ((if taken (str "r") then str "r" ++ digit k else str "r") ≡ str "r" ++ digit k)
initialize_ends_example =
    initialize_ends taken (λ s. true) digit 2 (str "r") refl refl (λ s h. refl)

get_node_map-lists_sample : found_or_none (find 5 (get_node_map 0 (5 ∷ 6 ∷ 5 ∷ []))) ≡ 0 ∷ 2 ∷ []
get_node_map-lists_sample = get_node_map-lists 5 (5 ∷ 6 ∷ 5 ∷ [])

abbrev plain : PutData
plain = record { name = str "v"; shape = []; datatype = long_type; values = ok [] }

abbrev three : PutData
three = record plain { values = ok (long (pos 3) ∷ []) }

put_plain_array_sample :
    (put_global_array good 4
      (str "a")
      (some (plain ∷ []))
      (some (three ∷ []) ∷ none ∷ [])
      (2 ∷ [])
      []
      set_up).0
    ≡ ok tt
put_plain_array_sample =
    (put_plain_array good rank_of all_good world set_up 4 (str "a") plain (some (three ∷ []))
      (none ∷ []) (2 ∷ []) [] (long (pos 3) ∷ long (pos 0) ∷ []) set_up_at_world refl set_up-IsSound
      refl (refl, (refl, tt))).0
