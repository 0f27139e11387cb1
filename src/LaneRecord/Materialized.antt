-- ===== src/LaneRecord/Materialized.antt =====
-- minireplayer/lane_record.py: which operations are active when the recording is materialized, and
-- get a tail.
use minireplayer.Prelude.{
  ℕ, ◌≡◌, refl, sym, ap, ◌∙◌, Bool, true, false, not, List, [], ok, bind-ok, ok_injective, length,
  keep, elem, In, ◌↔◌, true, String, In-of_keep, subst, string_eq,
}
use minireplayer.Json.{Fields}
use minireplayer.Boundary.{Python, Ledger}
use minireplayer.Boundary.Start.{Fresh}
use minireplayer.Boundary.Account.{has_unexpected_active}
use minireplayer.Boundary.Freeze.{freeze-IsFrozen}
use minireplayer.LaneRecord.{Logs}
use minireplayer.LaneRecord.Events.{Timed, events, check_events}
use minireplayer.LaneRecord.Materialize.{Playing, nothing_played, play, materialize_lane_recording}
use minireplayer.LaneRecord.Timely.{Ascending, Ascending-by_time, timely, play-timely-ok}
use minireplayer.LaneRecord.Tracked.{IsTracked, nothing-IsTracked}
use minireplayer.LaneRecord.Opened.{continue-inv}
use minireplayer.LaneRecord.Sorted.{In-of_by_time}
use minireplayer.LaneRecord.Matched.{
  Names, IsKnown, check_events-IsKnown, nothing-started, nothing-completed,
}
use minireplayer.LaneRecord.Played.{play-Recording}

not-true : (b : Bool) → not b ≡ true → b ≡ false
not-true true h = cc
not-true false h = refl

-- A new ledger in record mode; the identifiers that are drawn are all different.
pub record IsFresh (draw : ℕ → Fresh) (l : Ledger) : Type 0 where
  pub records : l.setting.replay ≡ false
  pub idle : l.active ≡ []
  pub all_different : (i j : ℕ) → (draw i).reservation_id ≡ (draw j).reservation_id → i ≡ j

-- What the loop remembers of the events up to the cutoff, `p`, and the ledger that is left.
pub record IsMaterialized (py : Python) (draw : ℕ → Fresh) (cutoff : ℕ) (logs : Logs)
    (l l' : Ledger) (tails : List Fields) : Type 0 where
  pub in_time : List Timed
  pub read_as :
      (ts : List Timed) × (events logs ≡ ok ts) × (in_time ≡ keep (timely py draw cutoff) ts)
  pub played : Playing
  pub closed : Ledger
  pub by_play : play py draw cutoff in_time nothing_played l ≡ (closed, ok played)
  pub started_by : (k : String) → (elem k played.started ≡ true) ↔ Names py "start" k in_time
  pub completed_by : (k : String) → (elem k played.completed ≡ true) ↔ Names py "complete" k in_time
  pub tracked : IsTracked (λ i. (draw i).reservation_id) played l'.active
  pub one_tail_each : length tails ≡ length l'.active
  pub all_truncated : has_unexpected_active l' ≡ false

-- When the logs of a recording are materialized on a new ledger in record mode, whose identifiers
-- are all different, and this returns: the events up to the cutoff alone play to the end; the
-- reservations that the loop then holds as started, and as completed, are exactly those that a start
-- or a completion among these events names; the operations that are active are exactly those that
-- started and did not complete; the ledger keeps them active, writes one tail for each, and has all
-- of them truncated.
pub materialize_lane_recording-IsMaterialized :
    (py : Python) (draw : ℕ → Fresh) (cutoff : ℕ) (logs : Logs) (l l' : Ledger)
    (tails : List Fields)
    → IsFresh draw l
    → materialize_lane_recording py draw cutoff logs l ≡ (l', ok tails)
    → IsMaterialized py draw cutoff logs l l' tails
unfolding materialize_lane_recording events
materialize_lane_recording-IsMaterialized py draw cutoff logs l l' tails new h =
    let (ts, e, k) = continue-inv (l, events logs) _ l' tails h in
    let (values, v, sorted) = bind-ok (check_events _) _ ts e in
    let (q, d, k') = continue-inv (play py draw cutoff ts nothing_played l) _ l' tails k in
    let l₁ = (play py draw cutoff ts nothing_played l).0 in
    let (p, run) =
      play-timely-ok py draw cutoff 0 ts nothing_played q l l₁
        (subst (Ascending 0) (ok_injective _ _ sorted) (Ascending-by_time values))
        (ap (λ c. (l₁, c)) d) in
    let (m, tracked) =
      play-Recording py draw new.all_different cutoff (keep (timely py draw cutoff) ts)
        nothing_played p l l₁ (λ t i. not-true _ (In-of_keep (timely py draw cutoff) t ts i).1) run
        (new.records, subst (IsTracked _ nothing_played) (sym new.idle) (nothing-IsTracked _)) in
    let known : (t : Timed) → In t (keep (timely py draw cutoff) ts) → IsKnown t = λ t i.
      check_events-IsKnown _ values v t (
        In-of_by_time t values (
          subst (In t) (sym (ok_injective _ _ sorted))
            (In-of_keep (timely py draw cutoff) t ts i).0)) in
    let frozen = freeze-IsFrozen py cutoff l₁ tails (ap (λ c. c.1) k') in
    let here = ap (λ c. c.0) k' in
    let same = sym (ap (λ c. c.active) here) ∙ frozen.0.0 in
    record {
      in_time = keep (timely py draw cutoff) ts;
      read_as = (ts, e, refl);
      played = p;
      closed = l₁;
      by_play = run;
      started_by =
          λ k. nothing-started py draw cutoff k (keep (timely py draw cutoff) ts) p l l₁ run;
      completed_by = λ k.
          nothing-completed py draw cutoff k (keep (timely py draw cutoff) ts) p l l₁ known run;
      tracked = subst (IsTracked (λ i. (draw i).reservation_id) p) (sym same) tracked;
      one_tail_each = frozen.0.1 ∙ ap length (sym same);
      all_truncated = ap has_unexpected_active (sym here) ∙ frozen.1;
    }
