-- ===== src/Service/Files.antt =====
-- The state that driver/brave_rewards_service_impl.cc keeps in files. A stream that does not open
-- throws nothing, as the standard library's streams do unless told otherwise.
use bat_native_ledger_isolat.Prelude.{ℕ, ◌&&◌, String, empty, Bool, true, false, if◌then◌else◌}
use bat_native_ledger_isolat.Ledger.{
  LedgerResult, ledger_ok, ledger_error, no_ledger_state, no_publisher_list,
}
use bat_native_ledger_isolat.Database.Action.{gets, modify, ◌>>=◌, ◌>>◌}
use bat_native_ledger_isolat.Service.{
  StateFile, ledger_state, publisher_state, publisher_list, Task, state_loaded, state_saved,
  loaded_answer, saved_answer,
}
use bat_native_ledger_isolat.Service.Core.{Srv, run_task, emit}

unfoldable pub same_file : StateFile → StateFile → Bool
same_file ledger_state ledger_state = true
same_file publisher_state publisher_state = true
same_file publisher_list publisher_list = true
same_file f g = false

-- What the handler is told of a text that was read: `OnLedgerStateLoaded` and its two like.
unfoldable pub load_result : StateFile → String → LedgerResult
load_result ledger_state text = if empty text then ledger_error else ledger_ok
load_result publisher_state text = if empty text then ledger_error else ledger_ok
load_result publisher_list text = if empty text then no_publisher_list else ledger_ok

unfoldable pub save_result : StateFile → Bool → LedgerResult
save_result ledger_state success = if success then ledger_ok else no_ledger_state
save_result publisher_state success = if success then ledger_ok else ledger_error
save_result publisher_list success = if success then ledger_ok else ledger_error

module _ {D Conn Disk : Type 0} where
  unfoldable pub load_state : StateFile → ℕ → Srv D Conn Disk (Unit {0})
  unfolding ◌>>=◌ run_task
  load_state file handler = do
    text ← gets (λ s. s.files file)
    run_task (state_loaded file handler text)

  unfoldable pub on_state_loaded : StateFile → ℕ → String → Srv D Conn Disk (Unit {0})
  unfolding emit load_result
  on_state_loaded file handler text = emit (loaded_answer file handler (load_result file text) text)

  -- `std::ofstream f(path); f << text; f.close();`
  unfoldable pub write_file : StateFile → String → Srv D Conn Disk (Unit {0})
  unfolding modify same_file
  write_file file text = modify (λ s. record s {
    files = λ f. if same_file f file && s.writable file then text else s.files f;
  })

  -- The task is the handler of the save, with whether it was written.
  abbrev pub post_write_callback : (Bool → Task D) → Bool → Srv D Conn Disk (Unit {0})
  post_write_callback callback write_success = run_task (callback write_success)

  unfoldable pub save_state : StateFile → String → ℕ → Srv D Conn Disk (Unit {0})
  unfolding ◌>>=◌ write_file run_task
  save_state file text handler = do
    write_file file text
    post_write_callback (state_saved file handler) true

  unfoldable pub on_state_saved : StateFile → ℕ → Bool → Srv D Conn Disk (Unit {0})
  unfolding emit save_result
  on_state_saved file handler success = emit (saved_answer file handler (save_result file success))

  unfoldable pub load_ledger_state : ℕ → Srv D Conn Disk (Unit {0})
  unfolding load_state
  load_ledger_state handler = load_state ledger_state handler

  unfoldable pub on_ledger_state_loaded : ℕ → String → Srv D Conn Disk (Unit {0})
  unfolding on_state_loaded
  on_ledger_state_loaded handler text = on_state_loaded ledger_state handler text

  unfoldable pub load_publisher_state : ℕ → Srv D Conn Disk (Unit {0})
  unfolding load_state
  load_publisher_state handler = load_state publisher_state handler

  unfoldable pub on_publisher_state_loaded : ℕ → String → Srv D Conn Disk (Unit {0})
  unfolding on_state_loaded
  on_publisher_state_loaded handler text = on_state_loaded publisher_state handler text

  unfoldable pub load_publisher_list : ℕ → Srv D Conn Disk (Unit {0})
  unfolding load_state
  load_publisher_list handler = load_state publisher_list handler

  unfoldable pub on_publisher_list_loaded : ℕ → String → Srv D Conn Disk (Unit {0})
  unfolding on_state_loaded
  on_publisher_list_loaded handler text = on_state_loaded publisher_list handler text

  unfoldable pub save_ledger_state : String → ℕ → Srv D Conn Disk (Unit {0})
  unfolding save_state
  save_ledger_state text handler = save_state ledger_state text handler

  unfoldable pub on_ledger_state_saved : ℕ → Bool → Srv D Conn Disk (Unit {0})
  unfolding on_state_saved
  on_ledger_state_saved handler success = on_state_saved ledger_state handler success

  unfoldable pub save_publisher_state : String → ℕ → Srv D Conn Disk (Unit {0})
  unfolding save_state
  save_publisher_state text handler = save_state publisher_state text handler

  unfoldable pub on_publisher_state_saved : ℕ → Bool → Srv D Conn Disk (Unit {0})
  unfolding on_state_saved
  on_publisher_state_saved handler success = on_state_saved publisher_state handler success

  unfoldable pub save_publishers_list : String → ℕ → Srv D Conn Disk (Unit {0})
  unfolding save_state
  save_publishers_list text handler = save_state publisher_list text handler

  unfoldable pub on_publishers_list_saved : ℕ → Bool → Srv D Conn Disk (Unit {0})
  unfolding on_state_saved
  on_publishers_list_saved handler success = on_state_saved publisher_list handler success
