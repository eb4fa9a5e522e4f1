-- ===== src/Service/Timers/Limits.antt =====
-- How many timers driver/brave_rewards_service_impl.cc lets run.
use bat_native_ledger_isolat.Prelude.{
  ℕ, zero, suc, ◌+◌, ◌-◌, ◌%◌, ◌<◌, ◌==◌, u32_mod, u32_of_small, true, false, List, [], ◌∷◌, ◌++◌,
  take, ◌≡◌, refl, ap, ◌∙◌,
}
use mathlib.Core.Path.{sym}
use mathlib.Core.List.{append_assoc, append-nil}
use bat_native_ledger_isolat.Service.Timers.{
  Timers, exceeded, set_timer, set_timers, allow_timers_run,
}
use native.Mathlib.Omega.{arith}

-- The offsets with the ids behind `k`, in turn.
unfoldable pub numbered : ℕ → List ℕ → List (ℕ × ℕ)
numbered k [] = []
numbered k (offset ∷ offsets) = (offset, k + 1) ∷ numbered (k + 1) offsets

exceeded-true :
    (s : Timers) → s.max_number_timers ≡ s.timer_id → 0 < s.max_number_timers → exceeded s ≡ true
unfolding exceeded
exceeded-true s e h = ground arith

exceeded-false : (s : Timers) → s.timer_id < s.max_number_timers → exceeded s ≡ false
unfolding exceeded
exceeded-false s h = ground arith

set_timer-exceeded :
    (offset : ℕ) (s : Timers)
    → exceeded s ≡ true
    → (set_timer offset s).1 ≡ record s { faked = (s.faked + (u32_mod - 1)) % u32_mod }
unfolding set_timer
set_timer-exceeded offset s e = rw e

set_timer-set :
    (offset : ℕ) (s : Timers)
    → exceeded s ≡ false
    → s.timer_id + 1 < u32_mod
    → (set_timer offset s).1
      ≡ record s { timer_id = s.timer_id + 1; timers = s.timers ++ (offset, s.timer_id + 1) ∷ [] }
unfolding set_timer
set_timer-set offset s e small = rw (e, u32_of_small (s.timer_id + 1) small)

set_timers-limited :
    (n : ℕ) (offsets : List ℕ) (s : Timers)
    → s.max_number_timers ≡ s.timer_id + n
    → 0 < s.max_number_timers
    → s.max_number_timers < u32_mod
    → (set_timers offsets s).timers ≡ s.timers ++ numbered s.timer_id (take n offsets)
unfolding set_timers numbered
set_timers-limited zero [] s e h small = sym (append-nil s.timers)
set_timers-limited (suc n) [] s e h small = sym (append-nil s.timers)
set_timers-limited zero (o ∷ os) s e h small =
    ap (λ t. (set_timers os t).timers) (set_timer-exceeded o s (exceeded-true s (omega arith) h))
    ∙ set_timers-limited zero os _ e h small
set_timers-limited (suc n) (o ∷ os) s e h small =
    ap (λ t. (set_timers os t).timers)
      (set_timer-set o s (exceeded-false s (omega arith)) (omega arith))
    ∙ set_timers-limited n os
        (record s { timer_id = s.timer_id + 1; timers = s.timers ++ (o, s.timer_id + 1) ∷ [] })
        (omega arith) h small
    ∙ append_assoc s.timers ((o, s.timer_id + 1) ∷ []) _

-- After AllowTimersRun of a number n above zero, where the highest id stays in 32 bits, the timers
-- that are set are the first n of those asked for, with ids that follow the last one given.
pub set_timers-allow_timers_run :
    (n : ℕ) (offsets : List ℕ) (s : Timers)
    → 0 < n
    → s.timer_id + n < u32_mod
    → (set_timers offsets (allow_timers_run n s)).timers
      ≡ s.timers ++ numbered s.timer_id (take n offsets)
unfolding allow_timers_run
set_timers-allow_timers_run n offsets s h small =
    ap (λ t. (set_timers offsets t).timers) (allowed)
    ∙ set_timers-limited n offsets (record s { max_number_timers = s.timer_id + n }) refl
        (omega arith) small
  where
    is_positive : (n == 0) ≡ false
    is_positive = ground arith

    allowed : allow_timers_run n s ≡ record s { max_number_timers = s.timer_id + n }
    allowed = rw (is_positive, u32_of_small (s.timer_id + n) small)
