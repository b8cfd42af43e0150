-- ===== src/RateLimit/Window/Updates.antt =====
-- The slots of `SlidingWindow` (crates/http-api/src/rate_limit.rs) when a request is recorded, when
-- time moves on, and when a window is dropped or new.
use explorer_backend.Base.{
  All, Bool-cases, List, [], any, ap, arith, false, inl, inr, leb, length, refl, replicate, suc,
  sym, zero, ℕ, ◌%◌, ◌+◌, ◌<◌, ◌==◌, ◌∷◌, ◌≡◌, ◌≢◌, ◌≤◌, ◌⊎◌,
}
use explorer_backend.RateLimit.Window.{
  Bucket, empty_bucket, record_in, saturating_add_u32, u32_max, update_at, window_start,
}
use explorer_backend.RateLimit.Window.Slots.{
  Slot, Slots, in_window, of_segment, of_segment-le, of_segment-zero, owned_later, Slot-reset,
}

-- One more request at the current segment: only its own slot changes.
Slot-skip :
    (now i : ℕ) (log : List ℕ) (b : Bucket)
    → now % 6 ≢ i
    → Slot now log i b
    → Slot now (now ∷ log) i b
unfolding of_segment
Slot-skip now i log b h s = record {
  owned = ((λ c. absurd (h c)), s.owned);
  counted = λ live. ground (arith, s.counted live);
  past = s.past;
}

Slots-skip :
    (now i : ℕ) (log : List ℕ) (bs : List Bucket)
    → now % 6 < i
    → Slots now log i bs
    → Slots now (now ∷ log) i bs
Slots-skip now i log [] h s = tt
Slots-skip now i log (b ∷ bs) h (s, rest) =
    (Slot-skip now i log b (omega arith) s, Slots-skip now (suc i) log bs (omega arith) rest)

absent_now :
    (now i s : ℕ) (log : List ℕ)
    → now % 6 ≡ i
    → s < now
    → All (λ e. e % 6 ≡ i → (e ≡ s) ⊎ (e + 5 < now)) log
    → All (λ e. e % 6 ≡ i → e ≢ now) log
absent_now now i s [] c h a = tt
absent_now now i s (e ∷ log) c h (a, more) = (
  (λ d same. elim (a d) [ inl p ↦ omega arith | inr q ↦ omega arith ]),
  absent_now now i s log c h more,
)

owned_now :
    (now i s : ℕ) (log : List ℕ)
    → now % 6 ≡ i
    → s < now
    → All (λ e. e % 6 ≡ i → (e ≡ s) ⊎ (e + 5 < now)) log
    → All (λ e. e % 6 ≡ i → (e ≡ now) ⊎ (e + 5 < now)) log
owned_now now i s [] c h a = tt
owned_now now i s (e ∷ log) c h (a, more) = (
  (λ d. elim (a d) [ inl p ↦ inr (omega arith) | inr q ↦ inr q ]),
  owned_now now i s log c h more,
)

Slot-hit :
    (now i : ℕ) (log : List ℕ) (b : Bucket)
    → now % 6 ≡ i
    → in_window now log < u32_max
    → Slot now log i b
    → Slot now (now ∷ log) i (record_in now b)
unfolding record_in of_segment
Slot-hit now i log b c small s = elim (Bool-cases (b.segment == now)) [
  | inl same ↦
      let e : b.segment ≡ now = ground arith in
      let le = of_segment-le now i b.segment log (omega arith) in
      let k = s.counted (omega arith) in
      let sum : saturating_add_u32 b.count 1 ≡ b.count + 1 = ground arith in
      rw (same, sum)
        (record {
          owned = ((λ _. inl (sym e)), s.owned);
          counted = λ live. ground (arith, k);
          past = s.past;
        })
  | inr other ↦
      let older : b.segment < now = ground (arith, s.past) in
      rw other (record {
        owned = ((λ _. inl refl), owned_now now i b.segment log c older s.owned);
        counted = λ live.
            ground
              (arith, of_segment-zero i now log (absent_now now i b.segment log c older s.owned));
        past = omega arith;
      })
]

pub update_at-Slots :
    (now i k : ℕ) (log : List ℕ) (bs : List Bucket)
    → now % 6 ≡ i + k
    → in_window now log < u32_max
    → Slots now log i bs
    → Slots now (now ∷ log) i (update_at k (record_in now) bs)
unfolding update_at
update_at-Slots now i zero log [] c small s = tt
update_at-Slots now i (suc k) log [] c small s = tt
update_at-Slots now i zero log (b ∷ bs) c small (s, rest) =
    (Slot-hit now i log b (omega arith) small s, Slots-skip now (suc i) log bs (omega arith) rest)
update_at-Slots now i (suc k) log (b ∷ bs) c small (s, rest) = (
  Slot-skip now i log b (omega arith) s,
  update_at-Slots now (suc i) k log bs (omega arith) small rest,
)

pub length-update_at :
    (k : ℕ) (f : Bucket → Bucket) (bs : List Bucket) → length (update_at k f bs) ≡ length bs
unfolding update_at
length-update_at zero f [] = refl
length-update_at (suc k) f [] = refl
length-update_at zero f (b ∷ bs) = refl
length-update_at (suc k) f (b ∷ bs) = ap suc (length-update_at k f bs)

-- Time alone keeps the slots in step, whether or not they are reset.
pub Slots-later :
    (t u i : ℕ) (log : List ℕ) (bs : List Bucket) → t ≤ u → Slots t log i bs → Slots u log i bs
Slots-later t u i log [] h s = tt
Slots-later t u i log (b ∷ bs) h (s, rest) = (
  record {
    owned = owned_later t u i b.segment log h s.owned;
    counted = λ live. s.counted (omega arith);
    past = omega (arith, s.past);
  },
  Slots-later t u (suc i) log bs h rest,
)

pub Slots-dead :
    (t u i : ℕ) (log : List ℕ) (bs : List Bucket)
    → t ≤ u
    → any (λ b. leb (window_start u) b.segment) bs ≡ false
    → Slots t log i bs
    → Slots u log i (replicate (length bs) empty_bucket)
Slots-dead t u i log [] h dead s = tt
Slots-dead t u i log (b ∷ bs) h dead (s, rest) = (
  (Slot-reset t u i log b h (ground arith) s).0,
  Slots-dead t u (suc i) log bs h (ground arith) rest,
)

pub Slots-empty : (n i : ℕ) → Slots 0 [] i (replicate n empty_bucket)
unfolding of_segment
Slots-empty zero i = tt
Slots-empty (suc n) i =
    (record { owned = tt; counted = λ live. refl; past = omega arith }, Slots-empty n (suc i))
