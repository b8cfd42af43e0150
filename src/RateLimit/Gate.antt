-- ===== src/RateLimit/Gate.antt =====
-- The in-flight gate of crates/http-api/src/rate_limit.rs under interleavings: `try_enter` is a
-- compare-and-swap loop that many request tasks run at once, and `InFlightGuard::drop` gives a
-- slot back. One step is one atomic operation of one task.
use explorer_backend.Base.{
  Bool, List, [], arith, if◌then◌else◌, leb, not, refl, suc, zero, ℕ, ◌&&◌, ◌+◌, ◌-◌, ◌==◌, ◌∷◌,
  ◌≡◌, ◌≤◌,
}

-- Where a task stands: outside, inside the loop with the value that it last observed, or holding a
-- guard.
pub data Task : Type 0 where
  idle : Task
  trying : (current : ℕ) → Task
  holding : Task

-- One atomic operation of a task: the load, one turn of the loop (whose weak exchange may fail
-- spuriously), or the drop of the guard. `try_enter` returns `None` to a task at capacity.
unfoldable pub poll : ℕ → Bool → ℕ → Task → ℕ × Task
poll capacity spurious n idle = (n, trying n)
poll capacity spurious n (trying current) =
    if leb capacity current
    then (n, idle)
    else if (n == current) && not spurious
    then (current + 1, holding)
    else (n, trying n)
poll capacity spurious n holding = (n - 1, idle)

-- The state that the tasks share, and the tasks.
pub record Gate : Type 0 where
  pub in_flight : ℕ
  pub tasks : List Task

poll_nth : ℕ → Bool → ℕ → ℕ → List Task → ℕ × List Task
poll_nth capacity spurious n i [] = (n, [])
poll_nth capacity spurious n zero (t ∷ ts) = let (m, u) = poll capacity spurious n t in (m, u ∷ ts)
poll_nth capacity spurious n (suc i) (t ∷ ts) =
    let (m, us) = poll_nth capacity spurious n i ts in (m, t ∷ us)

-- A schedule names the task that moves next, and whether its exchange fails spuriously.
pub run_gate : ℕ → List (ℕ × Bool) → Gate → Gate
run_gate capacity [] g = g
run_gate capacity ((i, spurious) ∷ schedule) g =
    let (n, ts) = poll_nth capacity spurious g.in_flight i g.tasks in
    run_gate capacity schedule (record { in_flight = n; tasks = ts })

abbrev is_holding : Task → ℕ
is_holding idle = 0
is_holding (trying current) = 0
is_holding holding = 1

abbrev pub holders : List Task → ℕ
holders [] = 0
holders (t ∷ ts) = is_holding t + holders ts

pub record GateInv (capacity : ℕ) (g : Gate) : Type 0 where
  pub counted : g.in_flight ≡ holders g.tasks
  pub capped : g.in_flight ≤ capacity

poll_counted :
    (capacity n : ℕ) (spurious : Bool) (t : Task)
    → is_holding t ≤ n
    → n ≤ capacity
    → ((poll capacity spurious n t).0 + is_holding t
        ≡ n + is_holding (poll capacity spurious n t).1)
      × ((poll capacity spurious n t).0 ≤ capacity)
unfolding poll
poll_counted capacity n spurious idle h k = (omega arith, k)
poll_counted capacity n spurious (trying current) h k = ground arith
poll_counted capacity n spurious holding h k = (omega arith, omega arith)

poll_nth_counted :
    (capacity n i : ℕ) (spurious : Bool) (ts : List Task)
    → holders ts ≤ n
    → n ≤ capacity
    → ((poll_nth capacity spurious n i ts).0 + holders ts
        ≡ n + holders (poll_nth capacity spurious n i ts).1)
      × ((poll_nth capacity spurious n i ts).0 ≤ capacity)
unfolding poll_nth
poll_nth_counted capacity n zero spurious [] h k = (refl, k)
poll_nth_counted capacity n (suc i) spurious [] h k = (refl, k)
poll_nth_counted capacity n zero spurious (t ∷ ts) h k =
    let (counted, capped) = poll_counted capacity n spurious t (omega arith) k in
    (omega (arith, counted), capped)
poll_nth_counted capacity n (suc i) spurious (t ∷ ts) h k =
    let (counted, capped) = poll_nth_counted capacity n i spurious ts (omega arith) k in
    (omega (arith, counted), capped)

-- From a consistent state, under every interleaving of any number of request tasks, spurious failures of the exchange
-- included, the in-flight counter stays the number of tasks that hold a guard, and that number
-- never exceeds the capacity.
pub run_gate-GateInv :
    (capacity : ℕ) (schedule : List (ℕ × Bool)) (g : Gate)
    → GateInv capacity g
    → GateInv capacity (run_gate capacity schedule g)
unfolding run_gate
run_gate-GateInv capacity [] g v = v
run_gate-GateInv capacity ((i, spurious) ∷ schedule) g v =
    let (counted, capped) =
      poll_nth_counted capacity g.in_flight i spurious g.tasks (omega (arith, v.counted))
        v.capped in
    run_gate-GateInv capacity schedule _
      (record { counted = omega (arith, counted, v.counted); capped = capped })
