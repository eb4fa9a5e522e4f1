-- ===== src/Service/Drain.antt =====
-- The tasks of driver/brave_rewards_service_impl.cc in the order of a scheduler, until none is left,
-- as TestingJoinAllRunningTasks waits for, or one ends by an exception or a fault, which ends the
-- process. Tasks that a timer or a callback of the ledger starts meanwhile are not part of it.
pub mod Followers
use bat_native_ledger_isolat.Prelude.{
  ℕ, zero, suc, ◌+◌, ◌≤◌, ◌<◌, Bool, true, false, List, [], ◌∷◌, ◌++◌, length, Option, none, some,
  ◌≡◌, refl, sym, subst, ap, ◌&&◌, ◌==ℤ◌, if◌then◌else◌, arith,
}
use bat_native_ledger_isolat.Ledger.{Ledger, ledger_ok, ledger_error}
use bat_native_ledger_isolat.Database.{Sqlite}
use bat_native_ledger_isolat.Database.Action.{
  Outcome, returned, threw, faulted, Ends, pure, modify, ◌>>=◌, continue, continue-Ends,
}
use bat_native_ledger_isolat.Database.Engine.{Db}
use bat_native_ledger_isolat.Database.Queries.{get_recurring_donations, get_tips}
use bat_native_ledger_isolat.Service.{
  ListCallback, of_ledger, recurring_donation_updated, Task, media_publisher_info_loaded,
  media_publisher_info_saved, publisher_info_saved, publisher_info_loaded,
  publisher_info_list_loaded, contribution_info_saved, recurring_donation_saved,
  recurring_donations_data, tips_updated_data, removed_recurring, state_loaded, state_saved,
  remove_answer, Clock, Service,
}
use bat_native_ledger_isolat.Service.Core.{Srv, on_backend, with_backend, run_task}
use bat_native_ledger_isolat.Service.Publishers.{
  on_media_publisher_info_loaded, on_media_publisher_info_saved, on_publisher_info_saved,
  on_publisher_info_loaded, on_publisher_info_list_loaded,
}
use bat_native_ledger_isolat.Service.Donations.{
  load_recurring_donations, update_recurring_donations_list, tips_updated,
  on_contribution_info_saved, on_recurring_donation_saved, on_recurring_donations_data,
  on_tips_updated_data, on_removed_recurring,
}
use bat_native_ledger_isolat.Service.Files.{on_state_loaded, on_state_saved}
use bat_native_ledger_isolat.Service.Dispatch.{pick_behind, pick, run, run_picked, run_pending}
use bat_native_ledger_isolat.Service.Answers.{Ready, on_backend-tasks}
use bat_native_ledger_isolat.Service.Safety.Tasks.{HasInfo, run-Safe}
use bat_native_ledger_isolat.Service.Drain.Followers.{
  followers, rank, total, AllInfo, Grows, Grows-total, Grows-AllInfo, run-Grows,
}

module _ {D : Type 0} where
  total-zero : (ts : List (Task D)) → total ts ≤ 0 → ts ≡ []
  total-zero [] h = refl
  total-zero (t ∷ ts) h = absurd (omega arith)

  abbrev Picked : Option (Task D × List (Task D)) → ℕ → List (Task D) → Type 0
  Picked none n ts = length ts ≤ n
  Picked (some (t, rest)) n ts =
      (total ts ≡ rank t + total rest) × (AllInfo ts → HasInfo t × AllInfo rest)

  behind-Picked :
      (t : Task D) (o : Option (Task D × List (Task D))) (n : ℕ) (ts : List (Task D))
      → Picked o n ts
      → Picked (pick_behind t o) (suc n) (t ∷ ts)
  behind-Picked t none n ts h = omega arith
  behind-Picked t (some (u, us)) n ts h =
      (omega (arith, h.0), λ i. ((h.1 i.1).0, (i.0, (h.1 i.1).1)))

  pick-Picked : (n : ℕ) (ts : List (Task D)) → Picked (pick n ts) n ts
  pick-Picked n [] = omega arith
  pick-Picked zero (t ∷ ts) = (refl, λ i. i)
  pick-Picked (suc n) (t ∷ ts) = behind-Picked t (pick n ts) n ts (pick-Picked n ts)

module _ {D Conn Disk : Type 0} (l : Ledger D) (q : Sqlite D Conn Disk) (clock : Clock) where
  -- A state from which so many picks are enough.
  abbrev Todo : ℕ → Service D Conn Disk → Type 0
  Todo k s = (total s.tasks ≤ k) × AllInfo s.tasks × Ready s

  Todo-ran :
      (n k : ℕ) (ts : List (Task D)) (r : Outcome (Unit {0}) × Service D Conn Disk)
      → Ends (λ _. Ready) Ready r
      → Grows n ts r.1.tasks
      → total ts + n ≤ k
      → AllInfo ts
      → Ends (λ _. Todo k) Ready r
  Todo-ran n k ts (returned a, s) e g small i =
      (omega (arith, Grows-total g, small), Grows-AllInfo g i, e)
  Todo-ran n k ts (threw, s) e g small i = e
  Todo-ran n k ts (faulted, s) e g small i = e

  run_picked-Todo :
      (o : Option (Task D × List (Task D))) (n k : ℕ) (s : Service D Conn Disk)
      → Picked o n s.tasks
      → n < length s.tasks
      → Todo (suc k) s
      → Ends (λ _. Todo k) Ready (run_picked l q clock o s)
  unfolding ◌>>=◌ modify
  run_picked-Todo none n k s p h v = absurd (omega arith)
  run_picked-Todo (some (t, ts)) n k s p h v =
      let u = record s { tasks = ts } in
      let i = p.1 v.1 in
      Todo-ran (followers t) k ts (run l q clock t u) ((run-Safe l q clock t i.0).at u v.2)
        (run-Grows l q clock t u) (omega (arith, p.0, v.0)) i.1

  run_pending-Todo :
      (n k : ℕ) (s : Service D Conn Disk) (ts : List (Task D))
      → s.tasks ≡ ts
      → (0 < length s.tasks → n < length s.tasks)
      → Todo (suc k) s
      → Ends (λ _. Todo k) Ready (run_pending l q clock n s)
  unfolding run_pending pure
  run_pending-Todo n k s [] e h v =
      subst (λ us. Ends (λ _. Todo k) Ready (run_picked l q clock (pick n us) s)) (sym e)
        (omega (arith, ap total e), v.1, v.2)
  run_pending-Todo n k s (t ∷ ts) e h v =
      run_picked-Todo (pick n s.tasks) n k s (pick-Picked n s.tasks)
        (h (subst (λ (us : List (Task D)). 0 < length us) (sym e) (omega arith))) v

  -- The tasks that a scheduler picks, at most as many as the fuel, up to one that throws or faults.
  unfoldable pub join_all : (Service D Conn Disk → ℕ) → ℕ → Srv D Conn Disk (Unit {0})
  unfolding run_pending pure
  join_all choose zero s = pure tt s
  join_all choose (suc fuel) s =
      continue (run_pending l q clock (choose s) s) (λ _. join_all choose fuel)

  -- A scheduler that picks a pending task wherever there is one.
  abbrev pub IsScheduler : (Service D Conn Disk → ℕ) → Type 0
  IsScheduler choose = (s : Service D Conn Disk) → 0 < length s.tasks → choose s < length s.tasks

  -- From a state whose database, if it has one, has a flag that implies its connection, and none of
  -- whose tasks is the answer of a media key that was not found: with any scheduler that picks a
  -- pending task wherever there is one, and as many picks as the total of the ranks says, all tasks
  -- have run, those that they start too, or the last one that ran threw; no task goes through a null
  -- pointer. Timers and callbacks of the ledger start no task meanwhile.
  pub join_all-finishes :
      (choose : Service D Conn Disk → ℕ) (fuel : ℕ) (s : Service D Conn Disk)
      → IsScheduler choose
      → total s.tasks ≤ fuel
      → AllInfo s.tasks
      → Ready s
      → Ends (λ _ t. (t.tasks ≡ []) × Ready t) Ready (join_all choose fuel s)
  unfolding join_all pure
  join_all-finishes choose zero s fair small i v = (total-zero s.tasks small, v)
  join_all-finishes choose (suc fuel) s fair small i v =
      continue-Ends (run_pending l q clock (choose s) s) (λ _. join_all choose fuel)
        (run_pending-Todo (choose s) fuel s s.tasks refl (fair s) (small, i, v))
        (λ _. record { at = λ t w. join_all-finishes choose fuel t fair w.0 w.1 w.2 })
