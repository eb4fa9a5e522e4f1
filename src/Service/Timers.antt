-- ===== src/Service/Timers.antt =====
-- SetTimer and AllowTimersRun of driver/brave_rewards_service_impl.cc. The counters are `uint32_t`; a
-- timer stands here as its offset and its id, with the thread that waits for it.
pub mod Limits
pub mod Waits
mod Tests
use bat_native_ledger_isolat.Prelude.{
  ℕ, ◌+◌, ◌-◌, ◌%◌, ◌==◌, ◌&&◌, ltb, not, u32_mod, Bool, List, [], ◌∷◌, ◌++◌, if◌then◌else◌,
}

-- `faked` is the function's own `FAKED_TIMER_ID`.
pub record Timers : Type 0 where
  pub timer_id : ℕ
  pub max_number_timers : ℕ
  pub faked : ℕ
  pub timers : List (ℕ × ℕ)

-- A new service.
abbrev pub no_timers : Timers
no_timers = record { timer_id = 0; max_number_timers = 0; faked = u32_mod - 1; timers = [] }

unfoldable pub exceeded : Timers → Bool
exceeded s = not (s.max_number_timers == 0) && not (ltb s.timer_id s.max_number_timers)

-- The id that the ledger is told, and the timers.
unfoldable pub set_timer : ℕ → Timers → ℕ × Timers
unfolding exceeded
set_timer time_offset s =
    let id = (s.timer_id + 1) % u32_mod in
    if exceeded s
    then (s.faked, record s { faked = (s.faked + (u32_mod - 1)) % u32_mod })
    else (id, record s { timer_id = id; timers = s.timers ++ (time_offset, id) ∷ [] })

unfoldable pub allow_timers_run : ℕ → Timers → Timers
allow_timers_run timers s =
    if timers == 0
    then record s { max_number_timers = timers }
    else record s { max_number_timers = (s.timer_id + timers) % u32_mod }

-- Timers asked for in turn.
unfoldable pub set_timers : List ℕ → Timers → Timers
unfolding set_timer
set_timers [] s = s
set_timers (offset ∷ offsets) s = set_timers offsets (set_timer offset s).1
