-- ===== src/UnitTests.antt =====
-- Unit tests: the tables of injection/src/base/stores/UnitTestStore.cpp, and the loop of runAll that
-- shares the ranks of a communicator among the tests, as one rank sees it. The tests come sorted.
pub mod Ranks
pub mod Ending
mod Examples
use vnv.Base.{
  ℕ, ◌+◌, Bool, true, false, ◌&&◌, List, [], ◌∷◌, ◌++◌, Option, none, some, Str, str_key,
  if◌then◌else◌, ltb, leb,
}
use vnv.Base.Dict.{Dict, find, assign}
use vnv.Testing.{key}

pub record UnitTestStore : Type 0 where
  pub tester_factory : Dict Str (Dict Str ℕ)
  pub tester_cores : Dict Str ℕ

abbrev testers_of : Option (Dict Str ℕ) → Dict Str ℕ
testers_of none = []
testers_of (some m) = m

-- A maker is a number here.
pub add_unit_tester : Str → Str → ℕ → ℕ → UnitTestStore → UnitTestStore
add_unit_tester package_name name maker cores store = record {
  tester_factory =
      assign package_name (assign name maker (testers_of (find package_name store.tester_factory)))
        store.tester_factory;
  tester_cores = assign (key package_name name) cores store.tester_cores;
}

pub get_unit_tester : Str → Str → UnitTestStore → Option ℕ
get_unit_tester package_name name store =
    find name (testers_of (find package_name store.tester_factory))

pub record UnitTest : Type 0 where
  pub cores : ℕ
  pub package_name : Str
  pub name : Str

-- A test on the ranks from `start` to before `stop`.
pub record Placement : Type 0 where
  pub start : ℕ
  pub stop : ℕ
  pub test : UnitTest

-- The variables of the loop. The tests stand in `passed`, the last first, up to the iterator, and in
-- `left` from it on; `mine` is what `myStart`, `myEnd`, `myName` and `myTester` say; `batches` has what
-- this rank ran in each batch, the last first.
pub record Sharing : Type 0 where
  pub passed : List UnitTest
  pub left : List UnitTest
  pub current_buffer : ℕ
  pub mine : Option Placement
  pub batches : List (Option Placement)

abbrev pub begin_sharing : List UnitTest → Sharing
begin_sharing tests = record {
  passed = [];
  left = tests;
  current_buffer = 0;
  mine = none;
  batches = [];
}

abbrev pub back_onto : List UnitTest → List UnitTest → List UnitTest
back_onto [] l = l
back_onto (t ∷ ts) l = back_onto ts (t ∷ l)

-- The iterator at the end goes back to the beginning.
abbrev pub rewind : List UnitTest → List UnitTest → List UnitTest × List UnitTest
rewind passed [] = ([], back_onto passed [])
rewind passed (t ∷ ts) = (passed, t ∷ ts)

abbrev last_of : UnitTest → List UnitTest → UnitTest
last_of t [] = t
last_of t (u ∷ us) = last_of u us

abbrev pub smallest_left : ℕ → List UnitTest → List UnitTest → ℕ
smallest_left size [] [] = size
smallest_left size (t ∷ ts) [] = t.cores
smallest_left size ts (u ∷ us) = (last_of u us).cores

module _ (size rank : ℕ) where
  abbrev pub claimed : ℕ → UnitTest → Option Placement → Option Placement
  claimed buffer t mine =
      if leb buffer rank && ltb rank (buffer + t.cores)
      then some (record { start = buffer; stop = buffer + t.cores; test = t })
      else mine

  -- The test at the iterator is dropped, placed or passed by.
  abbrev pub place : UnitTest → List UnitTest → List UnitTest → Sharing → Sharing
  place t passed rest p =
      if ltb size t.cores
      then record p { passed = passed; left = rest }
      else if leb (p.current_buffer + t.cores) size
      then record p {
        passed = passed;
        left = rest;
        current_buffer = p.current_buffer + t.cores;
        mine = claimed p.current_buffer t p.mine;
      }
      else record p { passed = t ∷ passed; left = rest }

  -- A batch runs where the smallest test that is left does not fit.
  abbrev pub flush : Sharing → Sharing
  flush p =
      if ltb size (p.current_buffer + smallest_left size p.passed p.left)
      then record p { current_buffer = 0; mine = none; batches = p.mine ∷ p.batches }
      else p

  abbrev pub at_iterator : List UnitTest × List UnitTest → Sharing → Sharing
  at_iterator (passed, []) p = p
  at_iterator (passed, t ∷ rest) p = flush (place t passed rest p)

  -- One turn of the loop; without tests it has ended.
  unfoldable pub turn : Sharing → Sharing
  turn p = at_iterator (rewind p.passed p.left) p

  unfoldable pub turns : ℕ → Sharing → Sharing
  turns ℕ.zero p = p
  turns (ℕ.suc n) p = turns n (turn p)
