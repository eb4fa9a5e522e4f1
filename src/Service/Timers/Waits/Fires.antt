-- ===== src/Service/Timers/Waits/Fires.antt =====
-- How often OnTimer is called in driver/brave_rewards_service_impl.cc.
use bat_native_ledger_isolat.Prelude.{
  ℕ, zero, suc, ◌+◌, ◌-◌, ◌%◌, ◌≤◌, ◌<◌, ◌==◌, u32_mod, u32_of_small, Bool, true, false, List, [],
  ◌∷◌, ◌++◌, length, Option, none, some, if◌then◌else◌, ◌≡◌, refl, sym, subst, arith, inl, inr,
  Bool-cases,
}
use bat_native_ledger_isolat.Service.Dispatch.{pick_behind, pick}
use bat_native_ledger_isolat.Service.Timers.{exceeded, allow_timers_run}
use bat_native_ledger_isolat.Service.Timers.Waits.{
  WaitError, success, operation_aborted, failure, Waits, assign_wait, begin_wait, wake,
  call_on_timer, run_on_timer, TimerEvent, set_one, allow, woken, ran, step_set, step_allow,
  step_woken, step_ran, step_shut_down, Reach, here, next,
}

abbrev pub count : ℕ → List ℕ → ℕ
count id [] = 0
count id (x ∷ xs) = (if x == id then 1 else 0) + count id xs

-- How often the wait of an id ended without an error.
abbrev pub expirations : ℕ → List TimerEvent → ℕ
expirations id [] = 0
expirations id (woken x success ∷ es) = (if x == id then 1 else 0) + expirations id es
expirations id (e ∷ es) = expirations id es

count-append :
    (id x : ℕ) (xs : List ℕ) → count id (xs ++ x ∷ []) ≡ count id xs + (if x == id then 1 else 0)
count-append id x [] = ground arith
count-append id x (y ∷ ys) = omega (arith, count-append id x ys)

abbrev Taken : Option (ℕ × List ℕ) → List ℕ → Type 0
Taken none xs = Unit {0}
Taken (some (x, rest)) xs = (id : ℕ) → count id xs ≡ (if x == id then 1 else 0) + count id rest

behind-Taken :
    (x : ℕ) (o : Option (ℕ × List ℕ)) (xs : List ℕ) → Taken o xs → Taken (pick_behind x o) (x ∷ xs)
behind-Taken x none xs h = tt
behind-Taken x (some (y, rest)) xs h = λ id. omega (arith, h id)

pick-Taken : (n : ℕ) (xs : List ℕ) → Taken (pick n xs) xs
pick-Taken n [] = tt
pick-Taken zero (x ∷ xs) = λ id. refl
pick-Taken (suc n) (x ∷ xs) = behind-Taken x (pick n xs) xs (pick-Taken n xs)

-- No id above the last one given waits or was woken, and none is woken twice.
record Inv (es : List TimerEvent) (s : Waits) : Type 0 where
  bounded : s.timers.timer_id ≤ length es
  unused : (id : ℕ) → s.timers.timer_id < id → (s.waits id ≡ false) × (expirations id es ≡ 0)
  counted : (id : ℕ) → count id s.pending + count id s.called ≡ expirations id es
  once : (id : ℕ) → (if s.waits id then 1 else 0) + expirations id es ≤ 1

begin_wait-exceeded :
    (offset : ℕ) (s : Waits)
    → exceeded s.timers ≡ true
    → begin_wait offset s
      ≡ record s { timers = record s.timers { faked = (s.timers.faked + (u32_mod - 1)) % u32_mod } }
unfolding begin_wait
begin_wait-exceeded offset s e = rw e

begin_wait-set :
    (offset : ℕ) (s : Waits)
    → exceeded s.timers ≡ false
    → s.timers.timer_id + 1 < u32_mod
    → let id = s.timers.timer_id + 1 in
      begin_wait offset s ≡ record s {
        timers = record s.timers { timer_id = id; timers = s.timers.timers ++ (offset, id) ∷ [] };
        waits = assign_wait s.waits id true;
      }
unfolding begin_wait
begin_wait-set offset s e small = rw (e, u32_of_small (s.timers.timer_id + 1) small)

set-Inv :
    (es : List TimerEvent) (s : Waits) (offset : ℕ) (timers : List (ℕ × ℕ))
    → Inv es s
    → Inv (set_one offset ∷ es) (record s {
      timers = record s.timers { timer_id = s.timers.timer_id + 1; timers = timers };
      waits = assign_wait s.waits (s.timers.timer_id + 1) true;
    })
set-Inv es s offset timers v = record {
  bounded = omega (arith, v.bounded);
  unused = λ id h. let u = v.unused id (omega (arith, h)) in (ground (arith, u.0), u.1);
  counted = v.counted;
  once = λ id. ground (arith, v.once id, v.unused id);
}

begin_wait-Inv :
    (es : List TimerEvent) (offset : ℕ) (s : Waits)
    → suc (length es) < u32_mod
    → Inv es s
    → Inv (set_one offset ∷ es) (begin_wait offset s)
begin_wait-Inv es offset s small v = elim (Bool-cases (exceeded s.timers)) [
  | inl e ↦ subst (Inv (set_one offset ∷ es)) (sym (begin_wait-exceeded offset s e)) (record {
    bounded = omega (arith, v.bounded);
    unused = v.unused;
    counted = v.counted;
    once = v.once;
  })
  | inr e ↦
      subst (Inv (set_one offset ∷ es))
        (sym (begin_wait-set offset s e (omega (arith, v.bounded, small))))
        (set-Inv es s offset _ v)
]

wake-Inv :
    (es : List TimerEvent) (id : ℕ) (e : WaitError) (s : Waits)
    → s.waits id ≡ true
    → Inv es s
    → Inv (woken id e ∷ es) (wake id e s)
unfolding wake
wake-Inv es id success s w v = record {
  bounded = omega (arith, v.bounded);
  unused = λ other h. ground (arith, v.unused other, w);
  counted = λ other. ground (arith, count-append other id s.pending, v.counted other);
  once = λ other. ground (arith, v.once other, w);
}
wake-Inv es id operation_aborted s w v = record {
  bounded = omega (arith, v.bounded);
  unused = λ other h. ground (arith, v.unused other);
  counted = v.counted;
  once = λ other. ground (arith, v.once other);
}
wake-Inv es id failure s w v = record {
  bounded = omega (arith, v.bounded);
  unused = λ other h. ground (arith, v.unused other);
  counted = v.counted;
  once = λ other. ground (arith, v.once other);
}

allow-Inv :
    (es : List TimerEvent) (limit : ℕ) (s : Waits)
    → Inv es s
    → Inv (allow limit ∷ es) (record s { timers = allow_timers_run limit s.timers })
unfolding allow_timers_run
allow-Inv es limit s v = record {
  bounded = ground (arith, v.bounded);
  unused = λ id h. ground (arith, v.unused id);
  counted = v.counted;
  once = v.once;
}

call_on_timer-Inv :
    (es : List TimerEvent) (n : ℕ) (o : Option (ℕ × List ℕ)) (ledger : Bool) (s : Waits)
    → Taken o s.pending
    → Inv es s
    → Inv (ran n ∷ es) (call_on_timer o ledger s).1
unfolding call_on_timer
call_on_timer-Inv es n none ledger s p v = record {
  bounded = omega (arith, v.bounded);
  unused = v.unused;
  counted = v.counted;
  once = v.once;
}
call_on_timer-Inv es n (some (id, rest)) true s p v = record {
  bounded = omega (arith, v.bounded);
  unused = v.unused;
  counted = λ other. omega (arith, v.counted other, p other, count-append other id s.called);
  once = v.once;
}
call_on_timer-Inv es n (some (id, rest)) false s p v = record {
  bounded = omega (arith, v.bounded);
  unused = v.unused;
  counted = v.counted;
  once = v.once;
}

Reach-Inv : {es : List TimerEvent} {s : Waits} → Reach es s → length es < u32_mod → Inv es s
unfolding run_on_timer
Reach-Inv here h = record {
  bounded = omega arith;
  unused = λ id h. (refl, refl);
  counted = λ id. refl;
  once = λ id. omega arith;
}
Reach-Inv (next {es} {e} {s} r (step_set offset)) h =
    begin_wait-Inv es offset s h (Reach-Inv r (omega (arith, h)))
Reach-Inv (next {es} {e} {s} r (step_allow limit)) h =
    allow-Inv es limit s (Reach-Inv r (omega (arith, h)))
Reach-Inv (next {es} {e} {s} r (step_woken id error w)) h =
    wake-Inv es id error s w (Reach-Inv r (omega (arith, h)))
Reach-Inv (next {es} {e} {s} r (step_ran n returns)) h =
    call_on_timer-Inv es n (pick n s.pending) s.ledger s (pick-Taken n s.pending)
      (Reach-Inv r (omega (arith, h)))
Reach-Inv (next {es} {e} {s} r step_shut_down) h =
    let v = Reach-Inv r (omega (arith, h)) in
    record {
      bounded = omega (arith, v.bounded);
      unused = v.unused;
      counted = v.counted;
      once = v.once;
    }

-- Behind every history of a new service of fewer than 2^32 events, none of which is a task that
-- faults, the tasks of an id that have called OnTimer and those that still wait to run are as many as
-- the waits of that id that ended without an error, which is one at most, and the last id given is at
-- most the number of the events.
pub Reach-called :
    {es : List TimerEvent} {s : Waits} (id : ℕ)
    → Reach es s
    → length es < u32_mod
    → (count id s.pending + count id s.called ≡ expirations id es)
      × (expirations id es ≤ 1)
      × (s.timers.timer_id ≤ length es)
Reach-called id r h = let v = Reach-Inv r h in (v.counted id, omega (arith, v.once id), v.bounded)
