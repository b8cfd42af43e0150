-- ===== src/Staking/Curve.antt =====
-- The daily points of `build_stake_snapshot_daily_points` (crates/db/src/staking.rs), each against a
-- replay of its own.
use explorer_backend.Base.{
  All, Bool-cases, List, Option, [], ap, arith, false, inl, inr, length, map, none, refl, some, suc,
  true, zero, ℕ, ◌*◌, ◌∙◌, ◌∷◌, ◌≡◌,
}
use explorer_backend.Base.Int.{eq_of_parts, int_laws, ltb_ℤ, pos, ℤ, ◌+ℤ◌, ◌≤ℤ◌}
use explorer_backend.Staking.{Replay, StakeSnapshotState}
use explorer_backend.Staking.Transactions.{beq_ℤ}
use explorer_backend.Staking.Daily.{
  StakeSnapshotBuildOutput, build_from, build_stake_snapshot_daily_points, close_day, daily_point,
  days_between, seconds_per_day, stake_snapshot_day_end,
}
use explorer_backend.Staking.Grouping.{Separate, Transaction}
use explorer_backend.Staking.Forward.{
  apply_day-replay_until, left_after, left_after-Separate, replay_until, replay_until-replay_until,
  rows_of,
}

-- So many days from a day on.
pub days_from : ℤ → ℕ → List ℤ
days_from day zero = []
days_from day (suc n) = day ∷ days_from (day +ℤ pos seconds_per_day) n

module _ (ts : List Transaction) (start : Replay) (to_exclusive : ℤ) where
  pub state_at : ℤ → StakeSnapshotState
  state_at day = (replay_until (stake_snapshot_day_end day) ts start).state

  abbrev pub IsClosed : Option (ℤ × StakeSnapshotState) → Type 0
  IsClosed none = Unit
  IsClosed (some (day, s)) = (day +ℤ pos (2 * seconds_per_day) ≡ to_exclusive) × (s ≡ state_at day)

  -- The points are those of the days up to the end, each of the replay up to the end of the day.
  pub record IsCurve (from_day : ℤ) (output : StakeSnapshotBuildOutput) : Type 0 where
    pub days : ℕ
    pub points :
        output.points ≡ map (λ day. daily_point day (state_at day)) (days_from from_day days)
    pub inside : All (λ day. ltb_ℤ day to_exclusive ≡ true) (days_from from_day days)
    pub whole : to_exclusive ≤ℤ from_day +ℤ pos (seconds_per_day * days)
    pub closed : IsClosed output.closed_day_state

  close_day-IsClosed :
      (day : ℤ) (s : StakeSnapshotState) (closed : Option (ℤ × StakeSnapshotState))
      → s ≡ state_at day
      → IsClosed closed
      → IsClosed (close_day day to_exclusive s closed)
  close_day-IsClosed day s closed e c =
      elim (Bool-cases (beq_ℤ (day +ℤ pos (2 * seconds_per_day)) to_exclusive)) [
        | inl last ↦ rw last (eq_of_parts _ _ (ground (arith, last)), e)
        | inr other ↦ rw other c
      ]

  ltb-le : (a b : ℤ) → ltb_ℤ b a ≡ false → a ≤ℤ b
  ltb-le a b h = ground (arith, h)

  IsCurve-next :
      (day : ℤ) (s : StakeSnapshotState) (output : StakeSnapshotBuildOutput)
      → ltb_ℤ day to_exclusive ≡ true
      → s ≡ state_at day
      → IsCurve (day +ℤ pos seconds_per_day) output
      → IsCurve day (record output { points = daily_point day s ∷ output.points })
  unfolding days_from
  IsCurve-next day s output more e p = record {
    days = suc p.days;
    points =
        ap (λ x. daily_point day x ∷ output.points) e
        ∙ ap (λ l. daily_point day (state_at day) ∷ l) p.points;
    inside = (more, p.inside);
    whole = omega (int_laws, p.whole);
    closed = p.closed;
  }

  build_from-IsCurve :
      (left : ℕ) (day : ℤ) (us : List Transaction) (closed : Option (ℤ × StakeSnapshotState))
      (r : Replay)
      → Separate us
      → ((time : ℤ)
          → stake_snapshot_day_end day ≤ℤ time
          → replay_until time us r ≡ replay_until time ts start)
      → IsClosed closed
      → to_exclusive ≤ℤ day +ℤ pos (seconds_per_day * left)
      → IsCurve day (build_from left day to_exclusive (rows_of us) closed r)
  unfolding build_from days_from
  build_from-IsCurve zero day us closed r separate same c enough = record {
    days = 0;
    points = refl;
    inside = tt;
    whole = enough;
    closed = c;
  }
  build_from-IsCurve (suc left) day us closed r separate same c enough =
      elim (Bool-cases (ltb_ℤ day to_exclusive)) [
        | inl more ↦
            let time = stake_snapshot_day_end day in
            let state_then : (replay_until time us r).state ≡ state_at day =
              unfold state_at in ap (λ x. x.state) (same time (omega arith)) in
            rw (more, apply_day-replay_until (length (rows_of us)) time us r separate (omega arith))
              (IsCurve-next day (replay_until time us r).state _ more state_then (
                build_from-IsCurve left (day +ℤ pos seconds_per_day) (left_after time us) _ _
                  (left_after-Separate time us separate)
                  (λ later h.
                    replay_until-replay_until time later us r (omega (int_laws, h))
                    ∙ same later (omega (int_laws, h)))
                  (close_day-IsClosed day _ closed state_then c) (omega (int_laws, enough))))
        | inr done ↦ rw done (record {
          days = 0;
          points = refl;
          inside = tt;
          whole = omega (int_laws, ltb-le to_exclusive day done);
          closed = c;
        })
      ]

-- For rows that are those of some transactions, one after the other, each with a row at least and with
-- another ID than its neighbours: the forward build gives a point for each day from the first one to
-- the end of its range. Each point states the totals of the replay, from the start, of all transactions
-- up to the first one that is later than the day's end; and the state to resume from, if there is one,
-- is that of the day two days before the end of the range.
pub build_stake_snapshot_daily_points-IsCurve :
    (ts : List Transaction) (from_day to_exclusive : ℤ) (r : Replay)
    → Separate ts
    → IsCurve ts r to_exclusive from_day
        (build_stake_snapshot_daily_points (rows_of ts) from_day to_exclusive r)
unfolding build_stake_snapshot_daily_points
build_stake_snapshot_daily_points-IsCurve ts from_day to_exclusive r separate =
    build_from-IsCurve ts r to_exclusive (days_between from_day to_exclusive) from_day ts none r
      separate (λ time h. refl) tt (omega int_laws)
