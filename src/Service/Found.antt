-- ===== src/Service/Found.antt =====
-- The loads of publishers of driver/brave_rewards_service_impl.cc, down to the rows of the database.
mod Tests
use bat_native_ledger_isolat.Prelude.{
  ℕ, ◌+◌, ◌%◌, ◌^◌, ◌==◌, length, if◌then◌else◌, int_of_u32, String, Bool, false, true, List, [],
  ◌∷◌, ◌++◌, take, Option, none, some, ◌≡◌, refl, sym, ap, ◌∙◌,
}
use bat_native_ledger_isolat.Ledger.{
  PublisherInfo, PublisherInfoFilter, ledger_ok, not_found, too_many_results, Ledger,
}
use bat_native_ledger_isolat.Database.{Sqlite, PublisherInfoDatabase}
use bat_native_ledger_isolat.Database.Action.{Outcome, returned, pure, modify, ◌>>=◌, continue}
use bat_native_ledger_isolat.Database.Queries.{find}
use bat_native_ledger_isolat.Database.Selection.{keep, window, Join, sorted, Evaluates}
use bat_native_ledger_isolat.Database.Selection.Texts.{positive, above_one, orders, selection_of}
use bat_native_ledger_isolat.Database.Selection.Found.{wants, find-wants}
use bat_native_ledger_isolat.Service.{
  Task, publisher_info_loaded, publisher_info_list_loaded, Event, info_answer, list_answer, Clock,
  Service,
}
use bat_native_ledger_isolat.Service.Core.{
  put_back, on_backend, with_backend, run_task, emit, guarded, through_ledger,
}
use bat_native_ledger_isolat.Service.Publishers.{
  next_record, listed, load_list, load_publisher_info, on_publisher_info_loaded,
  load_publisher_info_list, on_publisher_info_list_loaded,
}
use bat_native_ledger_isolat.Service.Dispatch.{run}
use bat_native_ledger_isolat.Service.Paging.{shown}

-- What a lookup of one publisher answers.
abbrev pub one_answer : {D : Type 0} → ℕ → List (PublisherInfo D) → Event D
one_answer callback [] = info_answer callback not_found none
one_answer callback (info ∷ []) = info_answer callback ledger_ok (some info)
one_answer callback (info ∷ other ∷ more) = info_answer callback too_many_results none

-- The filter that LoadPublisherInfoList makes.
abbrev pub of_month : Clock → ℕ → PublisherInfoFilter → PublisherInfoFilter
of_month clock stamp f = record f {
  month = clock.month;
  year = clock.year;
  reconcile_stamp = stamp;
}

module _ {D Conn Disk : Type 0} (l : Ledger D) (q : Sqlite D Conn Disk) (j : Join q) where
  -- The rows of the join that a filter wants, in its order.
  abbrev pub rows_for :
      PublisherInfoFilter
      → Option (String × Bool)
      → Conn
      → PublisherInfoDatabase Conn Disk
      → List (PublisherInfo D)
  rows_for f order c b = sorted q j order (keep (wants l f) (j.joined c b.disk))

  load_list-shown :
      (start limit : ℕ) (order : Option (String × Bool)) (f : PublisherInfoFilter)
      (s : Service D Conn Disk) {b : PublisherInfoDatabase Conn Disk} {c : Conn}
      → s.backend ≡ some b
      → b.initialized ≡ true
      → b.db ≡ some c
      → f.order_by ≡ orders order
      → Evaluates q j (selection_of l (int_of_u32 start) (int_of_u32 limit) order f)
      → load_list l q start limit f s ≡ (returned (shown start limit (rows_for f order c b)), s)
  unfolding load_list with_backend ◌>>=◌ pure
  load_list-shown start limit order f s {b} {c} here ready o ordered evaluates =
      ap
        (λ k.
          continue
            (on_backend k (false, some [])
              (find l q (int_of_u32 start) (int_of_u32 limit) f (some [])) s)
            (λ r. pure (listed l q r)))
        here
      ∙ ap (λ r. continue (put_back s r) (λ r. pure (listed l q r)))
          (find-wants l q j (int_of_u32 start) (int_of_u32 limit) order f [] b ready o ordered
            evaluates)
      ∙ ap (λ k. (returned (shown start limit (rows_for f order c b)), record s { backend = k }))
          (sym here)

  -- A read, and the task that is bound to its list.
  load_behind :
      (start limit : ℕ) (f : PublisherInfoFilter) (t : List (PublisherInfo D) → Task D)
      (s : Service D Conn Disk) {rows : List (PublisherInfo D)}
      → load_list l q start limit f s ≡ (returned rows, s)
      → (load_list l q start limit f >>= λ list. run_task (t list)) s
        ≡ (returned tt, record s { tasks = s.tasks ++ t rows ∷ [] })
  unfolding ◌>>=◌ run_task modify
  load_behind start limit f t s e = ap (λ r. continue r (λ list. run_task (t list))) e

  on_publisher_info_loaded-take :
      (callback : ℕ) (rows : List (PublisherInfo D)) (later : Service D Conn Disk)
      → on_publisher_info_loaded l q callback (take 2 rows) later
        ≡ (returned tt, record later { events = later.events ++ one_answer callback rows ∷ [] })
  unfolding on_publisher_info_loaded emit modify
  on_publisher_info_loaded-take callback [] later = refl
  on_publisher_info_loaded-take callback (info ∷ []) later = refl
  on_publisher_info_loaded-take callback (info ∷ other ∷ more) later = refl

  module _ (clock : Clock) where
    -- Over an initialized database whose engine answers the query as it means, with an order of one
    -- column at most, LoadPublisherInfo starts one task and does nothing else. Whenever that task
    -- runs, it says one thing: NOT_FOUND where the filter wants no row, LEDGER_OK with the info where
    -- it wants one row, and TOO_MANY_RESULTS without an info where it wants more.
    pub load_publisher_info-one_answer :
        (f : PublisherInfoFilter) (order : Option (String × Bool)) (callback : ℕ)
        (s later : Service D Conn Disk) {b : PublisherInfoDatabase Conn Disk} {c : Conn}
        → s.backend ≡ some b
        → b.initialized ≡ true
        → b.db ≡ some c
        → f.order_by ≡ orders order
        → Evaluates q j (selection_of l (int_of_u32 0) (int_of_u32 2) order f)
        → (task : Task D) × (load_publisher_info l q f callback s
            ≡ (returned tt, record s { tasks = s.tasks ++ task ∷ [] }))
          × (run l q clock task later ≡ (
            returned tt,
            record later {
              events = later.events ++ one_answer callback (rows_for f order c b) ∷ [];
            },
          ))
    unfolding load_publisher_info run
    load_publisher_info-one_answer f order callback s later {b} {c} here ready o ordered evaluates =
        (
          publisher_info_loaded callback (take 2 (rows_for f order c b)),
          load_behind 0 2 f (publisher_info_loaded callback) s
              (load_list-shown 0 2 order f s here ready o ordered evaluates),
          on_publisher_info_loaded-take callback (rows_for f order c b) later,
        )

    -- With its ledger, over an initialized database whose engine answers the query as it means, with
    -- an order of one column at most, LoadPublisherInfoList starts one task and does nothing else.
    -- Whenever that task runs, it says one thing: it answers with the rows that the filter wants,
    -- with this month and the ledger's reconcile stamp put into it, from `start` on where that is
    -- above one and `limit` above zero, as many as `limit` says where that is above zero; both
    -- numbers are read as an `int`. The next record that it tells is `start + limit + 1`, in 32 bits,
    -- where it answers with as many rows as `limit` says, and zero where not.
    pub load_publisher_info_list-shown :
        (stamp start limit : ℕ) (f : PublisherInfoFilter) (order : Option (String × Bool))
        (callback : ℕ) (s later : Service D Conn Disk) {b : PublisherInfoDatabase Conn Disk}
        {c : Conn}
        → s.ledger ≡ true
        → s.backend ≡ some b
        → b.initialized ≡ true
        → b.db ≡ some c
        → f.order_by ≡ orders order
        → Evaluates q j
            (selection_of l (int_of_u32 start) (int_of_u32 limit) order (of_month clock stamp f))
        → (let rows = shown start limit (rows_for (of_month clock stamp f) order c b) in
            (task : Task D) × (load_publisher_info_list l q clock stamp start limit f callback s
              ≡ (returned tt, record s { tasks = s.tasks ++ task ∷ [] }))
            × (run l q clock task later ≡ (
              returned tt,
              record later {
                events =
                    later.events
                    ++ list_answer callback rows
                        (if length rows == limit then (start + limit + 1) % 2 ^ 32 else 0)
                      ∷ [];
              },
            )))
    unfolding load_publisher_info_list run on_publisher_info_list_loaded next_record emit modify
        through_ledger
    load_publisher_info_list-shown stamp start limit f order callback s later {b} {c} there here
          ready o ordered evaluates =
        let f' = of_month clock stamp f in
        (
          publisher_info_list_loaded start limit callback
              (shown start limit (rows_for f' order c b)),
          ap
                (λ b.
                  guarded b
                    (load_list l q start limit f' >>= λ list.
                      run_task (publisher_info_list_loaded start limit callback list))
                    s)
                there
              ∙ load_behind start limit f' (publisher_info_list_loaded start limit callback) s
                  (load_list-shown start limit order f' s here ready o ordered evaluates),
          refl,
        )
