-- ===== src/RateLimit/Window/Slots.antt =====
-- The slots of `SlidingWindow` (crates/http-api/src/rate_limit.rs) against the log of the requests that it admitted.
use explorer_backend.Base.{
  All, Bool-cases, List, [], ap, arith, if◌then◌else◌, inl, inr, leb, length, ltb, refl, suc, sym,
  zero, ℕ, ◌%◌, ◌&&◌, ◌+◌, ◌<◌, ◌==◌, ◌∙◌, ◌∷◌, ◌≡◌, ◌≢◌, ◌≤◌, ◌⊎◌,
}
use explorer_backend.RateLimit.Window.{
  Bucket, empty_bucket, roll, saturating_add_u32, u32_max, window_start,
}

-- How many logged requests lie in the trailing window that ends at a segment.
unfoldable pub in_window : ℕ → List ℕ → ℕ
in_window now [] = 0
in_window now (e ∷ log) = (if leb now (e + 5) then 1 else 0) + in_window now log

-- Those whose segment belongs to slot `i`.
unfoldable pub in_slot : ℕ → ℕ → List ℕ → ℕ
in_slot now i [] = 0
in_slot now i (e ∷ log) = (if leb now (e + 5) && (e % 6 == i) then 1 else 0) + in_slot now i log

-- Those of one segment, if it belongs to slot `i`.
unfoldable pub of_segment : ℕ → ℕ → List ℕ → ℕ
of_segment i s [] = 0
of_segment i s (e ∷ log) = (if (e == s) && (e % 6 == i) then 1 else 0) + of_segment i s log

-- What a slot knows of the log at time `t`.
pub record Slot (t : ℕ) (log : List ℕ) (i : ℕ) (b : Bucket) : Type 0 where
  pub owned : All (λ e. e % 6 ≡ i → (e ≡ b.segment) ⊎ (e + 5 < t)) log
  pub counted : t ≤ b.segment + 5 → b.count ≡ of_segment i b.segment log
  pub past : b.segment ≤ t

abbrev pub Slots : ℕ → List ℕ → ℕ → List Bucket → Type 0
Slots t log i [] = Unit {0}
Slots t log i (b ∷ bs) = Slot t log i b × Slots t log (suc i) bs

pub of_segment-le : (t i s : ℕ) (log : List ℕ) → t ≤ s + 5 → of_segment i s log ≤ in_window t log
unfolding of_segment in_window
of_segment-le t i s [] h = omega arith
of_segment-le t i s (e ∷ log) h = ground (arith, of_segment-le t i s log h)

pub of_segment-zero :
    (i s : ℕ) (log : List ℕ) → All (λ e. e % 6 ≡ i → e ≢ s) log → of_segment i s log ≡ 0
unfolding of_segment
of_segment-zero i s [] h = refl
of_segment-zero i s (e ∷ log) (h, hs) = ground (arith, of_segment-zero i s log hs)

pub owned_later :
    (t u i s : ℕ) (log : List ℕ)
    → t ≤ u
    → All (λ e. e % 6 ≡ i → (e ≡ s) ⊎ (e + 5 < t)) log
    → All (λ e. e % 6 ≡ i → (e ≡ s) ⊎ (e + 5 < u)) log
owned_later t u i s [] h a = tt
owned_later t u i s (e ∷ log) h (a, more) = (
  (λ c. elim (a c) [ inl p ↦ inl p | inr q ↦ inr (omega arith) ]),
  owned_later t u i s log h more,
)

owned_dead :
    (t u i s z : ℕ) (log : List ℕ)
    → t ≤ u
    → s + 5 < u
    → All (λ e. e % 6 ≡ i → (e ≡ s) ⊎ (e + 5 < t)) log
    → All (λ e. e % 6 ≡ i → (e ≡ z) ⊎ (e + 5 < u)) log
owned_dead t u i s z [] h d a = tt
owned_dead t u i s z (e ∷ log) h d (a, more) = (
  (λ c. inr (elim (a c) [ inl p ↦ omega arith | inr q ↦ omega arith ])),
  owned_dead t u i s z log h d more,
)

-- A slot's share of the window is its counter, or nothing once it has rolled out.
in_slot-live :
    (t i s : ℕ) (log : List ℕ)
    → t ≤ s + 5
    → All (λ e. e % 6 ≡ i → (e ≡ s) ⊎ (e + 5 < t)) log
    → in_slot t i log ≡ of_segment i s log
unfolding in_slot of_segment
in_slot-live t i s [] h a = refl
in_slot-live t i s (e ∷ log) h (a, more) = ground (arith, in_slot-live t i s log h more)

in_slot-dead :
    (t i s : ℕ) (log : List ℕ)
    → s + 5 < t
    → All (λ e. e % 6 ≡ i → (e ≡ s) ⊎ (e + 5 < t)) log
    → in_slot t i log ≡ 0
unfolding in_slot
in_slot-dead t i s [] h a = refl
in_slot-dead t i s (e ∷ log) h (a, more) = ground (arith, in_slot-dead t i s log h more)

-- The window is the sum of the six slots' shares.
pub in_window-split :
    (t : ℕ) (log : List ℕ)
    → in_window t log
      ≡ in_slot t 0 log
        + in_slot t 1 log
        + in_slot t 2 log
        + in_slot t 3 log
        + in_slot t 4 log
        + in_slot t 5 log
unfolding in_window in_slot
in_window-split t [] = refl
in_window-split t (e ∷ log) = ground (arith, in_window-split t log)

-- Time moves on: the loop of `try_admit` keeps the slots in step with the log, and its total is the
-- sum of their shares.
pub shares : ℕ → List ℕ → ℕ → ℕ → ℕ
shares u log i zero = 0
shares u log i (suc n) = in_slot u i log + shares u log (suc i) n

pub shares-six : (u : ℕ) (log : List ℕ) → shares u log 0 6 ≡ in_window u log
unfolding shares
shares-six u log = omega (arith, in_window-split u log)

Slot-kept :
    (t u i : ℕ) (log : List ℕ) (b : Bucket)
    → t ≤ u
    → u ≤ b.segment + 5
    → Slot t log i b
    → Slot u log i b × (in_slot u i log ≡ b.count)
Slot-kept t u i log b h live s =
    let owned = owned_later t u i b.segment log h s.owned in
    (
      record {
        owned = owned;
        counted = λ _. s.counted (omega arith);
        past = omega (arith, s.past);
      },
      in_slot-live u i b.segment log live owned ∙ sym (s.counted (omega arith)),
    )

pub Slot-reset :
    (t u i : ℕ) (log : List ℕ) (b : Bucket)
    → t ≤ u
    → b.segment + 5 < u
    → Slot t log i b
    → Slot u log i empty_bucket × (in_slot u i log ≡ 0)
Slot-reset t u i log b h dead s = (
  record {
    owned = owned_dead t u i b.segment 0 log h dead s.owned;
    counted = λ early. absurd (omega arith);
    past = omega arith;
  },
  in_slot-dead u i b.segment log dead (owned_later t u i b.segment log h s.owned),
)

pub roll-Slots :
    (t u total i : ℕ) (log : List ℕ) (bs : List Bucket)
    → t ≤ u
    → total + shares u log i (length bs) ≤ u32_max
    → Slots t log i bs
    → Slots u log i (roll (window_start u) total bs).1
      × ((roll (window_start u) total bs).0 ≡ total + shares u log i (length bs))
      × (length (roll (window_start u) total bs).1 ≡ length bs)
unfolding roll shares
roll-Slots t u total i log [] h small s = (tt, omega arith, refl)
roll-Slots t u total i log (b ∷ bs) h small (s, rest) =
    elim (Bool-cases (ltb b.segment (window_start u))) [
      | inl dead ↦
          let (reset, gone) = Slot-reset t u i log b h (ground arith) s in
          let ih = roll-Slots t u total (suc i) log bs h (omega arith) rest in
          rw dead ((reset, ih.0), omega (arith, ih.1), ap suc ih.2)
      | inr live ↦
          let (kept, share) = Slot-kept t u i log b h (ground arith) s in
          let sum : saturating_add_u32 total b.count ≡ total + b.count = ground arith in
          let ih = roll-Slots t u (total + b.count) (suc i) log bs h (omega arith) rest in
          rw (live, sum) ((kept, ih.0), omega (arith, ih.1), ap suc ih.2)
    ]
