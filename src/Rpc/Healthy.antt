-- ===== src/Rpc/Healthy.antt =====
-- One healthy endpoint is enough for `run_failover` of crates/rpc/src/lib.rs.
use native.Mathlib.Nat.{mod-lt, mod-eq_of_lt, mod-add-mod, add-mod_right}
use explorer_backend.Base.{
  Bool, Bool-cases, List, Option, ap, arith, get_elem?, inl, inr, leb, length, none, refl, some,
  suc, sym, true, zero, ℕ, ◌%◌, ◌+◌, ◌-◌, ◌<◌, ◌==◌, ◌∙◌, ◌≡◌, ◌≢◌, ◌≤◌,
}
use explorer_backend.Rpc.Rounds.{
  get_elem?-below, index_post, on_error_post, try_offsets-Spent, try_offsets-waits,
}
use explorer_backend.Rpc.{
  Client, Reply, RpcError, ask, attempt_timeout, attempts_from, err, ok, on_error, panicked,
  run_failover, try_endpoints_once, try_offsets, usize_modulus,
}

-- Counting up from any start, the indices modulo `n` come by `j` within `n` steps.
rotation_reaches : (start n j : ℕ) → j < n → (k : ℕ) × (k < n) × ((start + k) % n ≡ j)
rotation_reaches start n j h =
    let r : start % n < n = mod-lt start (omega arith) in
    elim (Bool-cases (leb (start % n) j)) [
      | inl before ↦
          let e : start % n + (j - start % n) ≡ j = ground arith in
          (
            j - start % n,
            ground arith,
            sym (mod-add-mod start n (j - start % n)) ∙ ap (λ t. t % n) e ∙ mod-eq_of_lt h,
          )
      | inr after ↦
          let e : start % n + (j + n - start % n) ≡ j + n = ground arith in
          (
            j + n - start % n,
            ground arith,
            sym (mod-add-mod start n (j + n - start % n))
                ∙ ap (λ t. t % n) e
                ∙ add-mod_right j n
                ∙ mod-eq_of_lt h,
          )
    ]

module _ {S T E : Type 0} (is_http : S → Bool) (answer : ℕ → E → Option ℕ → Reply S T)
    (endpoints : List E) where
  -- Every call is answered, and endpoint `j` always with a value.
  pub record Healthy (j : ℕ) : Type 0 where
    pub answered : (k : ℕ) (e : E) (t : Option ℕ) → answer k e t ≢ panicked
    pub endpoint : E
    pub listed : get_elem? endpoints j ≡ some endpoint
    pub serves : (k : ℕ) (t : Option ℕ) → (v : T) × (answer k endpoint t ≡ ok v)

  abbrev Succeeds : Reply S T × Client E → Type 0
  Succeeds r = (v : T) × (r.0 ≡ ok v)

  reply-Succeeds :
      (r : Reply S T) → r ≢ panicked → ((error : RpcError S) → r ≢ err error) → (v : T) × (r ≡ ok v)
  reply-Succeeds (ok v) p f = (v, refl)
  reply-Succeeds (err e) p f = absurd (f e refl)
  reply-Succeeds panicked p f = absurd (p refl)

  serving :
      (i j : ℕ) (y : E) (error : RpcError S) (timeout : Option ℕ) (c : Client E)
      → Healthy j
      → get_elem? endpoints i ≡ some y
      → i ≡ j
      → (ask is_http answer endpoints timeout c y).0 ≢ err error
  unfolding ask
  serving i j y error timeout c h at same failed =
      let e : some y ≡ some h.endpoint = sym at ∙ ap (get_elem? endpoints) same ∙ h.listed in
      let (v, served) = h.serves (length c.calls) timeout in cc

  try_offsets-Succeeds :
      (start offset k left j : ℕ) (timeout : Option ℕ) (last : Option (RpcError S)) (c : Client E)
      → Healthy j
      → j < length endpoints
      → start + offset + left ≤ usize_modulus
      → k < left
      → (start + offset + k) % length endpoints ≡ j
      → Succeeds (try_offsets is_http answer endpoints start offset timeout last c left)
  unfolding try_offsets ask
  try_offsets-Succeeds start offset k zero j timeout last c h b w lt e = elim lt [ ]
  try_offsets-Succeeds start offset k (suc left) j timeout last c h b w lt e =
      let small : start + offset < usize_modulus = omega arith in
      let i = (start + offset) % usize_modulus % length endpoints in
      let here : i ≡ (start + offset) % length endpoints =
        ap (λ s. s % length endpoints) (mod-eq_of_lt small) in
      let (x, found) = get_elem?-below endpoints i (mod-lt _ (omega arith)) in
      index_post Succeeds (get_elem? endpoints i) c _ (λ out. absurd (cc))
        λ y at.
          on_error_post Succeeds (ask is_http answer endpoints timeout c y) _
            (λ error failed. elim (Bool-cases (k == 0)) [
              | inl now ↦ absurd (serving i j y error timeout c h at (here ∙ first now) failed)
              | inr later ↦
                  let k' : suc (k - 1) ≡ k = ground arith in
                  try_offsets-Succeeds start (suc offset) (k - 1) left j timeout (some error) _ h b
                    (omega arith) (omega arith) (ap (λ s. s % length endpoints) (shift k') ∙ e)
            ])
            (λ ended. reply-Succeeds _ (h.answered _ y timeout) ended)
    where
      first : (k == 0) ≡ true → (start + offset) % length endpoints ≡ j
      first z =
          let e' : start + offset ≡ start + offset + k = ground arith in
          ap (λ s. s % length endpoints) e' ∙ e

      shift : suc (k - 1) ≡ k → start + suc offset + (k - 1) ≡ start + offset + k
      shift z = omega arith

  first_round :
      (base left j : ℕ) (escalate : Bool) (c : Client E)
      → Healthy j
      → j < length endpoints
      → c.next_endpoint + length endpoints ≤ usize_modulus
      → let r = attempts_from is_http answer endpoints base escalate 0 none c (suc left) in
        ((v : T) × (r.0 ≡ ok v))
        × (r.1.waits ≡ c.waits)
        × (length r.1.calls ≤ length c.calls + length endpoints)
  unfolding attempts_from on_error try_endpoints_once
  first_round base left j escalate c h b w =
      let timeout = attempt_timeout base 0 escalate in
      let (k, lt, e) = rotation_reaches c.next_endpoint (length endpoints) j b in
      let started = record c { next_endpoint = (c.next_endpoint + 1) % usize_modulus } in
      let plus : c.next_endpoint + 0 + k ≡ c.next_endpoint + k = omega arith in
      let (v, ok_v) =
        try_offsets-Succeeds c.next_endpoint 0 k (length endpoints) j timeout none started h b
          (omega arith) lt (ap (λ s. s % length endpoints) plus ∙ e) in
      let (spent, _) =
        try_offsets-Spent is_http answer endpoints c.next_endpoint 0 (length endpoints) timeout none
          started in
      let waits =
        try_offsets-waits is_http answer endpoints c.next_endpoint 0 (length endpoints) timeout none
          started in
      on_error_post
        (λ r.
          ((v : T) × (r.0 ≡ ok v))
          × (r.1.waits ≡ c.waits)
          × (length r.1.calls ≤ length c.calls + length endpoints))
        (try_endpoints_once is_http answer endpoints timeout c) _ (λ error failed. absurd (cc))
        (λ ended. ((v, ok_v), waits, spent))

  -- If one endpoint always serves the call, no call goes unanswered, there is an attempt and the
  -- counter does not wrap around in the round, `run_failover` succeeds in its first round, wherever
  -- the round-robin starts and whatever errors the other endpoints give,
  -- with at most one call of each endpoint and without a wait.
  pub run_failover-Succeeds :
      (base attempts j : ℕ) (escalate : Bool) (c : Client E)
      → Healthy j
      → j < length endpoints
      → 0 < attempts
      → c.next_endpoint + length endpoints ≤ usize_modulus
      → let r = run_failover is_http answer endpoints base attempts escalate c in
        ((v : T) × (r.0 ≡ ok v))
        × (r.1.waits ≡ c.waits)
        × (length r.1.calls ≤ length c.calls + length endpoints)
  unfolding run_failover
  run_failover-Succeeds base zero j escalate c h b a w = elim a [ ]
  run_failover-Succeeds base (suc left) j escalate c h b a w =
      first_round base left j escalate c h b w
