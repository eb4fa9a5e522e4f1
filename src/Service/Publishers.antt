-- ===== src/Service/Publishers.antt =====
-- The publishers' half of driver/brave_rewards_service_impl.cc: each call reads or writes the
-- database and starts the task that answers.
use bat_native_ledger_isolat.Prelude.{
  ℕ, ◌+◌, ◌%◌, ◌==◌, u32_mod, int_of_u32, String, Bool, false, List, [], ◌∷◌, length, Option, none,
  some, if◌then◌else◌,
}
use bat_native_ledger_isolat.Ledger.{
  PublisherInfo, PublisherInfoFilter, ledger_ok, ledger_error, not_found, too_many_results, Ledger,
}
use bat_native_ledger_isolat.Database.{Sqlite}
use bat_native_ledger_isolat.Database.Action.{faulted, pure, ◌>>=◌, ◌>>◌}
use bat_native_ledger_isolat.Service.{
  ContentSite, media_publisher_info_loaded, media_publisher_info_saved, publisher_info_saved,
  publisher_info_loaded, publisher_info_list_loaded, content_site_updated, info_answer, list_answer,
  Clock,
}
use bat_native_ledger_isolat.Service.Core.{
  Srv, with_backend, run_task, emit, trigger, through_ledger,
}
use bat_native_ledger_isolat.Database.Writes.{
  insert_or_update_publisher_info, insert_or_update_media_publisher_info,
}
use bat_native_ledger_isolat.Database.Queries.{find, get_media_publisher_info}

-- The next record that a list's callback is told, computed in `uint32_t`.
unfoldable pub next_record : {A : Type 0} → ℕ → ℕ → List A → ℕ
next_record start limit list = if length list == limit then (start + limit + 1) % u32_mod else 0

module _ {D Conn Disk : Type 0} (l : Ledger D) (q : Sqlite D Conn Disk) where
  -- `PublisherInfoToContentSite`
  unfoldable pub content_site_of : PublisherInfo D → ContentSite D
  content_site_of info = record {
    id = info.id;
    percentage = l.double_of_ℕ info.percent;
    verified = info.verified;
    excluded = info.excluded;
    name = info.name;
    favicon_url = info.favicon_url;
    url = info.url;
    provider = info.provider;
    reconcile_stamp = info.reconcile_stamp;
  }

  unfoldable pub content_sites : List (PublisherInfo D) → List (ContentSite D)
  unfolding content_site_of
  content_sites [] = []
  content_sites (info ∷ list) = content_site_of info ∷ content_sites list

  -- `GetContentSiteListInternal`: what the callback gets.
  unfoldable pub content_site_list : List (PublisherInfo D) → ℕ → List (ContentSite D) × ℕ
  unfolding content_sites
  content_site_list publisher_list next_record = (content_sites publisher_list, next_record)

  abbrev pub listed : Bool × Option (List (PublisherInfo D)) → List (PublisherInfo D)
  listed (found, none) = []
  listed (found, some list) = list

  -- `LoadPublisherInfoListOnFileTaskRunner`, which does not look at what `Find` answers.
  unfoldable pub load_list : ℕ → ℕ → PublisherInfoFilter → Srv D Conn Disk (List (PublisherInfo D))
  unfolding ◌>>=◌ with_backend
  load_list start limit filter = do
    r ←
        with_backend (false, some [])
          (find l q (int_of_u32 start) (int_of_u32 limit) filter (some []))
    pure (listed r)

  unfoldable pub load_publisher_info : PublisherInfoFilter → ℕ → Srv D Conn Disk (Unit {0})
  unfolding load_list run_task
  load_publisher_info filter callback = do
    list ← load_list 0 2 filter
    run_task (publisher_info_loaded callback list)

  unfoldable pub on_publisher_info_loaded : ℕ → List (PublisherInfo D) → Srv D Conn Disk (Unit {0})
  unfolding emit
  on_publisher_info_loaded callback [] = emit (info_answer callback not_found none)
  on_publisher_info_loaded callback (info ∷ []) = emit (info_answer callback ledger_ok (some info))
  on_publisher_info_loaded callback (info ∷ other ∷ more) =
      emit (info_answer callback too_many_results none)

  unfoldable pub load_current_publisher_info_list :
      ℕ → ℕ → PublisherInfoFilter → ℕ → Srv D Conn Disk (Unit {0})
  unfolding load_list run_task
  load_current_publisher_info_list start limit filter callback = do
    list ← load_list start limit filter
    run_task (publisher_info_list_loaded start limit callback list)

  -- `stamp` is `ledger_->GetReconcileStamp()`.
  unfoldable pub load_publisher_info_list :
      Clock → ℕ → ℕ → ℕ → PublisherInfoFilter → ℕ → Srv D Conn Disk (Unit {0})
  unfolding load_list run_task through_ledger
  load_publisher_info_list clock stamp start limit filter callback = through_ledger (do
    list ←
        load_list start limit
          (record filter { month = clock.month; year = clock.year; reconcile_stamp = stamp })
    run_task (publisher_info_list_loaded start limit callback list))

  unfoldable pub on_publisher_info_list_loaded :
      ℕ → ℕ → ℕ → List (PublisherInfo D) → Srv D Conn Disk (Unit {0})
  unfolding emit next_record
  on_publisher_info_list_loaded start limit callback list =
      emit (list_answer callback list (next_record start limit list))

  unfoldable pub save_publisher_info : PublisherInfo D → ℕ → Srv D Conn Disk (Unit {0})
  unfolding ◌>>=◌ with_backend run_task
  save_publisher_info info callback = do
    success ← with_backend false (insert_or_update_publisher_info q info)
    run_task (publisher_info_saved callback info success)

  unfoldable pub on_publisher_info_saved : ℕ → PublisherInfo D → Bool → Srv D Conn Disk (Unit {0})
  unfolding ◌>>=◌ emit trigger
  on_publisher_info_saved callback info success = do
    emit (info_answer callback (if success then ledger_ok else ledger_error) (some info))
    trigger content_site_updated

  abbrev pub load_media_publisher_info_list_on_file_task_runner :
      String → Srv D Conn Disk (Option (PublisherInfo D))
  load_media_publisher_info_list_on_file_task_runner media_key =
      with_backend none (get_media_publisher_info l q media_key)

  unfoldable pub load_media_publisher_info : String → ℕ → Srv D Conn Disk (Unit {0})
  unfolding ◌>>=◌ with_backend run_task
  load_media_publisher_info media_key callback = do
    info ← load_media_publisher_info_list_on_file_task_runner media_key
    run_task (media_publisher_info_loaded callback info)

  -- The copy `*info` is made of a null pointer too.
  unfoldable pub on_media_publisher_info_loaded :
      ℕ → Option (PublisherInfo D) → Srv D Conn Disk (Unit {0})
  unfolding emit
  on_media_publisher_info_loaded callback none s = (faulted, s)
  on_media_publisher_info_loaded callback (some info) s =
      emit (info_answer callback ledger_ok (some info)) s

  abbrev pub save_media_publisher_info_on_file_task_runner : String → String → Srv D Conn Disk Bool
  save_media_publisher_info_on_file_task_runner media_key publisher_id =
      with_backend false (insert_or_update_media_publisher_info q media_key publisher_id)

  unfoldable pub save_media_publisher_info : String → String → Srv D Conn Disk (Unit {0})
  unfolding ◌>>=◌ with_backend run_task
  save_media_publisher_info media_key publisher_id = do
    success ← save_media_publisher_info_on_file_task_runner media_key publisher_id
    run_task (media_publisher_info_saved success)

  -- Only a line is logged.
  unfoldable pub on_media_publisher_info_saved : Bool → Srv D Conn Disk (Unit {0})
  unfolding pure
  on_media_publisher_info_saved success = pure tt
