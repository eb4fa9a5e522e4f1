-- ===== src/Service/States.antt =====
-- States that driver/brave_rewards_service_impl.cc saves to their files.
use bat_native_ledger_isolat.Prelude.{
  ℕ, String, Bool, true, false, [], ◌∷◌, ◌++◌, if◌then◌else◌, ◌&&◌, ◌≡◌, refl, ap,
}
use bat_native_ledger_isolat.Ledger.{ledger_ok, Ledger}
use bat_native_ledger_isolat.Database.{Sqlite}
use bat_native_ledger_isolat.Database.Action.{returned}
use bat_native_ledger_isolat.Service.{
  StateFile, ledger_state, publisher_state, publisher_list, state_saved, saved_answer, Clock,
  Service,
}
use bat_native_ledger_isolat.Service.Files.{same_file, save_result, save_state, on_state_saved}
use bat_native_ledger_isolat.Service.Dispatch.{run}

save_result-true : (f : StateFile) → save_result f true ≡ ledger_ok
unfolding save_result
save_result-true ledger_state = refl
save_result-true publisher_state = refl
save_result-true publisher_list = refl

and_false : (b c : Bool) → c ≡ false → (b && c) ≡ false
and_false true c h = h
and_false false c h = refl

module _ {D Conn Disk : Type 0} (l : Ledger D) (q : Sqlite D Conn Disk) (clock : Clock) where
  -- A save to a file that does not open for writing leaves every file as it was, and still starts a
  -- task that, whenever it runs, answers LEDGER_OK.
  pub save_state-reports_success :
      (file other : StateFile) (text : String) (saver : ℕ) (s later : Service D Conn Disk)
      → s.writable file ≡ false
      → ((save_state file text saver s).1.files other ≡ s.files other)
        × ((save_state file text saver s).1.tasks ≡ s.tasks ++ state_saved file saver true ∷ [])
        × (run l q clock (state_saved file saver true) later ≡ (
          returned tt,
          record later { events = later.events ++ saved_answer file saver ledger_ok ∷ [] },
        ))
  unfolding save_state run on_state_saved
  save_state-reports_success file other text saver s later w = (
    ap (λ b. if b then text else s.files other) (and_false (same_file other file) _ w),
    refl,
    ap
        (λ r.
          (returned tt, record later { events = later.events ++ saved_answer file saver r ∷ [] }))
        (save_result-true file),
  )
