-- ===== src/Database/Safety/Init/Transaction.antt =====
-- How the transaction of `Init` of driver/publisher_info_database.cc ends.
use bat_native_ledger_isolat.Prelude.{Bool, true, false, [], if◌then◌else◌, ◌≡◌, refl, ap}
use bat_native_ledger_isolat.Database.{Sqlite, PublisherInfoDatabase}
use bat_native_ledger_isolat.Database.Action.{
  Outcome, returned, threw, faulted, Ends, settle, continue, pure, gets, modify, attempt, ◌>>=◌,
}
use bat_native_ledger_isolat.Database.Engine.{Db, exec}
use bat_native_ledger_isolat.Database.Schema.{recover, create_schema, begin_transaction, init}
use bat_native_ledger_isolat.Database.Safety.{Inv, Opened, Shut, exec-Steady}
use bat_native_ledger_isolat.Database.Safety.Init.{
  Answers, begin-Opens, create_schema-Answers, init-Answers,
}

module _ {D Conn Disk : Type 0} (q : Sqlite D Conn Disk) where
  abbrev Result : Type 0
  Result = Outcome Bool × PublisherInfoDatabase Conn Disk

  -- `Init` ends as the rollback does, without success.
  abbrev pub Undone : Outcome (Unit {0}) × PublisherInfoDatabase Conn Disk → Result → Type 0
  Undone (returned x, t) r = r ≡ (returned false, t)
  Undone (threw, t) r = r ≡ (threw, t)
  Undone (faulted, t) r = ⊥

  -- Behind what stands in the transaction: its answer, with the flag as it says, or the rollback.
  abbrev pub Decided : Result → Result → Type 0
  Decided (returned b, t) r = (r ≡ (returned b, t)) × (t.initialized ≡ b)
  Decided (threw, t) r = Undone (exec q "rollback;" [] (record t { initialized = false })) r
  Decided (faulted, t) r = ⊥

  abbrev pub Begun : Outcome (Unit {0}) × PublisherInfoDatabase Conn Disk → Result → Type 0
  Begun (returned x, t) r = Decided (create_schema q t) r
  Begun (threw, t) r = r ≡ (returned false, record t { initialized = false })
  Begun (faulted, t) r = ⊥

  abbrev pub Concluded : Bool → PublisherInfoDatabase Conn Disk → Result → Type 0
  Concluded true s r = r ≡ (returned true, s)
  Concluded false s r = Begun (begin_transaction q s) r

  undone_lem :
      (x : Outcome (Unit {0}) × PublisherInfoDatabase Conn Disk)
      → Ends (λ _. Opened false) (Opened false) x
      → Undone x (continue x (λ _. gets (λ s. s.initialized)))
  unfolding gets
  undone_lem (returned x, t) o = ap (λ (b : Bool). (returned b, t)) o.flagged
  undone_lem (threw, t) o = refl
  undone_lem (faulted, t) o = o

  recover-Undone :
      (t : PublisherInfoDatabase Conn Disk)
      → Opened false t
      → Undone (exec q "rollback;" [] (record t { initialized = false })) (recover q true t)
  unfolding recover ◌>>=◌ modify
  recover-Undone t o = undone_lem (exec q "rollback;" [] (record t { initialized = false })) (
      (exec-Steady q "rollback;" []).at (record t { initialized = false })
        (record { is_open = o.is_open; flagged = refl }))

  decided_lem :
      (y : Result) → Ends (Answers q) (Opened false) y → Decided y (settle y pure (recover q true))
  unfolding pure
  decided_lem (returned b, t) a = (refl, a.0)
  decided_lem (threw, t) o = recover-Undone t o
  decided_lem (faulted, t) o = o

  begun_lem :
      (x : Outcome (Unit {0}) × PublisherInfoDatabase Conn Disk)
      → Ends (λ _. Opened false) Shut x
      → Begun x (settle x (λ _. attempt (create_schema q) pure (recover q true)) (recover q false))
  unfolding attempt recover ◌>>=◌ modify gets pure
  begun_lem (returned x, t) o = decided_lem (create_schema q t) ((create_schema-Answers q).at t o)
  begun_lem (threw, t) o = refl
  begun_lem (faulted, t) o = o

  unfoldable opening : Db Conn Disk Bool
  opening =
      attempt (begin_transaction q) (λ _. attempt (create_schema q) pure (recover q true))
        (recover q false)

  init_at :
      (b : Bool) (s : PublisherInfoDatabase Conn Disk)
      → s.initialized ≡ b
      → init q s ≡ (if b then pure true else opening) s
  unfolding init ◌>>=◌ gets opening
  init_at b s e = ap (λ (b : Bool). (if b then pure true else opening) s) e

  opening-Concluded :
      (b : Bool) (s : PublisherInfoDatabase Conn Disk)
      → s.initialized ≡ b
      → Concluded b s ((if b then pure true else opening) s)
  unfolding pure opening attempt
  opening-Concluded true s e = refl
  opening-Concluded false s e =
      begun_lem (begin_transaction q s) ((begin-Opens q).at s (record { flagged = e }))

  -- From an object whose flag implies its connection, Init goes through no null pointer, and where
  -- it answers, it answers with the flag that it leaves, which implies the connection; an exception
  -- leaves the flag down. With its flag up it does nothing and answers true. Else, where its
  -- beginning throws, it answers false; where what stands in the transaction answers, it answers
  -- that; and where that throws, the flag goes down and the rollback is sent, and Init answers false
  -- behind it, or throws where that throws.
  pub init-Concluded :
      (s : PublisherInfoDatabase Conn Disk)
      → Inv s
      → Ends (Answers q) Shut (init q s) × Concluded s.initialized s (init q s)
  init-Concluded s v = (
    (init-Answers q).at s v,
    rw (init_at s.initialized s refl) (opening-Concluded s.initialized s refl),
  )
