-- ===== src/Service/Exchange/Adds.antt =====
-- What an action of the service of driver/brave_rewards_service_impl.cc adds to the callbacks that
-- have been called or are to be called.
use bat_native_ledger_isolat.Prelude.{
  ℕ, Bool, true, false, ◌+◌, ◌≤◌, List, [], ◌∷◌, ◌++◌, Option, none, some, ◌≡◌, refl, subst, arith,
}
use bat_native_ledger_isolat.Database.{PublisherInfoDatabase}
use bat_native_ledger_isolat.Database.Action.{
  Outcome, returned, threw, faulted, pure, gets, modify, ◌>>=◌, continue,
}
use bat_native_ledger_isolat.Database.Engine.{Db}
use bat_native_ledger_isolat.Service.{Task, Event, Notice, Service}
use bat_native_ledger_isolat.Service.Core.{
  Srv, put_back, on_backend, with_backend, run_task, emit, told, trigger, guarded, through_ledger,
}
use bat_native_ledger_isolat.Service.Exchange.{owed_by, answered_by, owed, answered, account}

module _ {D : Type 0} (k : ℕ) where
  owed-append : (ts : List (Task D)) (t : Task D) → owed k (ts ++ t ∷ []) ≡ owed k ts + owed_by k t
  owed-append [] t = omega arith
  owed-append (u ∷ us) t = omega (arith, owed-append us t)

  answered-append :
      (es : List (Event D)) (e : Event D)
      → answered k (es ++ e ∷ []) ≡ answered k es + answered_by k e
  answered-append [] e = omega arith
  answered-append (x ∷ xs) e = omega (arith, answered-append xs e)

  answered-told :
      (es : List (Event D)) (n : Notice D) (observers : List ℕ)
      → answered k (es ++ told n observers) ≡ answered k es
  unfolding told
  answered-told [] n [] = refl
  answered-told [] n (o ∷ os) = omega (arith, answered-told [] n os)
  answered-told (x ∷ xs) n os = omega (arith, answered-told xs n os)

-- What the account is behind an action: as it says where that returned, and no more where not.
abbrev pub Within : {D Conn Disk A : Type 0} → ℕ → ℕ → Outcome A × Service D Conn Disk → Type 0
Within k n (returned a, s) = account k s ≡ n
Within k n (threw, s) = account k s ≤ n
Within k n (faulted, s) = account k s ≤ n

module _ {D Conn Disk : Type 0} (k : ℕ) where
  pub record Adds (d : ℕ) {A : Type 0} (m : Srv D Conn Disk A) : Type 0 where
    pub at : (s : Service D Conn Disk) → Within k (account k s + d) (m s)

  pub Within-eq :
      {A : Type 0} {n n' : ℕ} (r : Outcome A × Service D Conn Disk)
      → n ≡ n'
      → Within k n r
      → Within k n' r
  Within-eq r e w = subst (λ n. Within k n r) e w

  continue-Within :
      {A B : Type 0} (n b : ℕ) (r : Outcome A × Service D Conn Disk) (f : A → Srv D Conn Disk B)
      → Within k n r
      → ((a : A) → Adds b (f a))
      → Within k (n + b) (continue r f)
  continue-Within n b (returned a, s) f w h = Within-eq (f a s) (omega (arith, w)) ((h a).at s)
  continue-Within n b (threw, s) f w h = omega (arith, w)
  continue-Within n b (faulted, s) f w h = omega (arith, w)

  pub Adds-bind :
      {A B : Type 0} (a b : ℕ) {m : Srv D Conn Disk A} {f : A → Srv D Conn Disk B}
      → Adds a m
      → ((x : A) → Adds b (f x))
      → Adds (a + b) (m >>= f)
  unfolding ◌>>=◌
  Adds-bind a b {m} {f} h g = record {
    at = λ s. Within-eq _ (omega arith) (continue-Within (account k s + a) b (m s) f (h.at s) g);
  }

  pub Adds-pure : {A : Type 0} (a : A) → Adds 0 (pure a)
  unfolding pure
  Adds-pure a = record { at = λ s. omega arith }

  pub Adds-gets : {A : Type 0} (f : Service D Conn Disk → A) → Adds 0 (gets f)
  unfolding gets
  Adds-gets f = record { at = λ s. omega arith }

  pub Adds-run_task : (t : Task D) → Adds (owed_by k t) (run_task t)
  unfolding run_task modify
  Adds-run_task t = record { at = λ s. omega (arith, owed-append k s.tasks t) }

  pub Adds-emit : (e : Event D) → Adds (answered_by k e) (emit e)
  unfolding emit modify
  Adds-emit e = record { at = λ s. omega (arith, answered-append k s.events e) }

  pub Adds-trigger : (n : Notice D) → Adds 0 (trigger n)
  unfolding trigger modify
  Adds-trigger n = record { at = λ s. omega (arith, answered-told k s.events n s.observers) }

  put_back-Within :
      {A : Type 0} (s : Service D Conn Disk) (r : Outcome A × PublisherInfoDatabase Conn Disk)
      → Within k (account k s + 0) (put_back s r)
  put_back-Within s (returned a, b) = omega arith
  put_back-Within s (threw, b) = omega arith
  put_back-Within s (faulted, b) = omega arith

  on_backend-Within :
      {A : Type 0} (o : Option (PublisherInfoDatabase Conn Disk)) (a : A) (m : Db Conn Disk A)
      (s : Service D Conn Disk)
      → Within k (account k s + 0) (on_backend o a m s)
  on_backend-Within none a m s = omega arith
  on_backend-Within (some b) a m s = put_back-Within s (m b)

  pub Adds-with_backend : {A : Type 0} (a : A) (m : Db Conn Disk A) → Adds 0 (with_backend a m)
  unfolding with_backend
  Adds-with_backend a m = record { at = λ s. on_backend-Within s.backend a m s }

  pub Adds-eq : {A : Type 0} {d d' : ℕ} {m : Srv D Conn Disk A} → d ≡ d' → Adds d m → Adds d' m
  Adds-eq {m} e h = record { at = λ s. Within-eq (m s) (omega (arith, e)) (h.at s) }

  pub Adds-then :
      {A B : Type 0} {b : ℕ} {m : Srv D Conn Disk A} {f : A → Srv D Conn Disk B}
      → Adds 0 m
      → ((x : A) → Adds b (f x))
      → Adds b (m >>= f)
  Adds-then {b} h g = Adds-eq (omega arith) (Adds-bind 0 b h g)

  -- The task that a call starts is owed its answer, whatever the database gave.
  pub Adds-task :
      {A : Type 0} {d : ℕ} {m : Srv D Conn Disk A} (t : A → Task D)
      → Adds 0 m
      → ((x : A) → owed_by k (t x) ≡ d)
      → Adds d (m >>= λ x. run_task (t x))
  Adds-task t h e = Adds-then h (λ x. Adds-eq (e x) (Adds-run_task (t x)))

  guarded-Within :
      {A : Type 0} {d : ℕ} (b : Bool) {m : Srv D Conn Disk A} (s : Service D Conn Disk)
      → Adds d m
      → Within k (account k s + d) (guarded b m s)
  guarded-Within true s h = h.at s
  guarded-Within false s h = omega arith

  pub Adds-through_ledger :
      {A : Type 0} {d : ℕ} {m : Srv D Conn Disk A} → Adds d m → Adds d (through_ledger m)
  unfolding through_ledger
  Adds-through_ledger h = record { at = λ s. guarded-Within s.ledger s h }
