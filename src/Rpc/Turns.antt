-- ===== src/Rpc/Turns.antt =====
-- The order in which `run_failover` (crates/rpc/src/lib.rs) asks the endpoints.
use explorer_backend.Base.{
  Bool, List, Option, [], length, refl, suc, take, zero, ℕ, ◌%◌, ◌∷◌, ◌≡◌, ◌≤◌,
}
use explorer_backend.Rpc.{Client, Reply, wait_before}
use explorer_backend.Rpc.Rotation.{rotation}

-- Calls of endpoints, one after the other.
pub called : {E : Type 0} → Option ℕ → List E → List (E × Option ℕ) → List (E × Option ℕ)
called timeout [] calls = calls
called timeout (e ∷ es) calls = called timeout es ((e, timeout) ∷ calls)

-- The calls of attempts, each of which asks so many endpoints of the rotation that its counter gives.
pub called_in_turns :
    {E : Type 0}
    → List E
    → (ℕ → Option ℕ)
    → ℕ
    → ℕ
    → List ℕ
    → List (E × Option ℕ)
    → List (E × Option ℕ)
called_in_turns endpoints timeout counter attempt [] calls = calls
called_in_turns endpoints timeout counter attempt (k ∷ ks) calls =
    called_in_turns endpoints timeout (suc counter) (suc attempt) ks
      (called (timeout attempt) (take k (rotation (counter % length endpoints) endpoints)) calls)

module _ {S T E : Type 0} (is_http : S → Bool) (answer : ℕ → E → Option ℕ → Reply S T)
    (endpoints : List E) where
  abbrev turn : ℕ → List E
  turn start = rotation (start % length endpoints) endpoints

  -- A round asks a front of the rest of its rotation.
  Fronts : List E → Option ℕ → Client E → Reply S T × Client E → Type 0
  Fronts rest timeout c r =
      (r.1.next_endpoint ≡ c.next_endpoint)
      × ((k : ℕ) × (r.1.calls ≡ called timeout (take k rest) c.calls))

  -- One round: it asks a front of its rotation, and moves the counter by one.
  Round : Option ℕ → Client E → Reply S T × Client E → Type 0
  Round timeout c r =
      (r.1.next_endpoint ≡ suc c.next_endpoint)
      × ((k : ℕ) × (r.1.calls ≡ called timeout (take k (turn c.next_endpoint)) c.calls))

  wait_before-same :
      (attempt : ℕ) (c : Client E)
      → ((wait_before is_http answer endpoints attempt c).next_endpoint ≡ c.next_endpoint)
        × ((wait_before is_http answer endpoints attempt c).calls ≡ c.calls)
  wait_before-same zero c = (refl, refl)
  wait_before-same (suc attempt) c = (refl, refl)

  -- Calls of at most so many attempts, in turns.
  abbrev pub InTurns : (ℕ → Option ℕ) → ℕ → ℕ → Client E → Reply S T × Client E → Type 0
  InTurns timeout attempt left c r =
      (ks : List ℕ) × (length ks ≤ left)
      × (r.1.calls ≡ called_in_turns endpoints timeout c.next_endpoint attempt ks c.calls)
