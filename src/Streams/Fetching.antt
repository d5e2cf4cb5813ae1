-- ===== src/Streams/Fetching.antt =====
-- Asking the reader of a report for input: fetch and Fetch of StreamManager in
-- injection/include/plugins/engines/streamtemplate.h. The clock and what the stream's own fetch finds
-- are given for each turn of the loop, from turn 1 on; clock 0 is read before it. Every turn that
-- finds nothing sleeps for a second.
use vnv.Base.{
  ℕ, zero, suc, ◌+◌, ◌≤◌, ◌≡◌, refl, Bool, true, false, Option, none, some, Str, if◌then◌else◌, ltb,
  ok, raise, Exn, Outcome, arith, Bool-cases, Option-cases, inl, inr, bind, Act, pure, throw, ◌>>=◌,
}
use vnv.Json.{Json, empty_object}
use vnv.Streams.{Files, Node, fetch_success, Manager, write}

-- How the loop ends.
pub data Polled : Type 0 where
  timed_out : Polled
  answered : Json → Polled
  threw : Exn → Polled

module _ (good : Files) (clock : ℕ → ℕ) (answers : ℕ → Option (Outcome Json)) where
  abbrev polled : Outcome Json → Polled
  polled (ok r) = answered r
  polled (raise e) = threw e

  -- The loop, from turn `k` on; `none` where it is still running.
  pub await_answer : (fuel k expiry : ℕ) → Option Polled
  await_answer zero k expiry = none
  await_answer (suc fuel) k expiry = elim (ltb (clock k) expiry) [
    | false ↦ some timed_out
    | true ↦ elim (answers k) [ some o ↦ some (polled o) | none ↦ await_answer fuel (suc k) expiry ]
  ]

  abbrev pub request : ℕ → Str → Json → ℕ → ℕ → Node
  request id message schema timeout jid = Node.fetch schema (clock 0 + timeout) message jid id

  -- Behind the loop, and where the stream does not support it. It is the request that is written.
  abbrev pub give_up : Node → Json → Act Manager (Option (Bool × Json))
  give_up request response = write good request >>= λ _. pure (some (false, response))

  abbrev pub conclude : Node → Json → Option Polled → Act Manager (Option (Bool × Json))
  conclude request response none = pure none
  conclude request response (some timed_out) = give_up request response
  conclude request response (some (answered r)) =
      write good fetch_success >>= λ _. pure (some (true, r))
  conclude request response (some (threw e)) = throw e

  pub fetch :
      (fuel : ℕ) (supports_fetch : Bool) (id : ℕ) (message : Str) (schema : Json) (timeout : ℕ)
      (response : Json) (jid : ℕ)
      → Act Manager (Option (Bool × Json))
  unfolding write await_answer
  fetch fuel supports_fetch id message schema timeout response jid =
      let j = request id message schema timeout jid in
      write good j >>= λ _.
      if supports_fetch
      then conclude j response (await_answer fuel 1 (clock 0 + timeout))
      else give_up j response

  -- What the root broadcasts: the text of the response, or nothing where there is none.
  abbrev pub broadcast_of : (Json → Str) → Option (Bool × Json) → Option (Option Str)
  broadcast_of dump none = none
  broadcast_of dump (some (true, r)) = some (some (dump r))
  broadcast_of dump (some (false, r)) = some none

  -- Fetch, on the root, up to the broadcast. The id is counted on as the call is made.
  pub root_fetch :
      (dump : Json → Str) (fuel : ℕ) (supports_fetch : Bool) (message : Str) (schema : Json)
      (timeout : ℕ)
      → Act Manager (Option (Option Str))
  unfolding fetch
  root_fetch dump fuel supports_fetch message schema timeout s = elim s.comm [
    | none ↦ (raise Exn.fault, s)
    | some c ↦
        (fetch fuel supports_fetch c.unique_id message schema timeout empty_object s.id >>= λ r.
        pure (broadcast_of dump r))
          (record s { id = s.id + 1 })
  ]

  -- Fetch, on every rank, behind the broadcast.
  pub receive : (parse : Str → Outcome Json) → Option Str → Json → Outcome (Bool × Json)
  receive parse none response = ok (false, response)
  receive parse (some line) response = bind (parse line) λ j. ok (true, j)

  -- A loop whose clock goes on by a second in every turn ends within the time allowed.
  await_ends :
      ((k : ℕ) → clock k + 1 ≤ clock (suc k))
      → (fuel k expiry : ℕ) → expiry ≤ clock k + fuel
      → (p : Polled) × (await_answer (suc fuel) k expiry ≡ some p)
  unfolding await_answer
  await_ends ticks zero k expiry h = (timed_out, ground arith)
  await_ends ticks (suc fuel) k expiry h = elim (Bool-cases (ltb (clock k) expiry)) [
    | inl early ↦ elim (Option-cases (answers k)) [
      | inl nothing ↦
          let (p, e) = await_ends ticks fuel (suc k) expiry (omega (arith, ticks k)) in
          (p, rw (await_answer, early, nothing) e)
      | inr (o, found) ↦ (polled o, rw (await_answer, early, found) refl)
    ]
    | inr late ↦ (timed_out, rw (await_answer, late) refl)
  ]
