-- ===== src/Lib.antt =====
-- The driver of the isolated test environment for bat-native-ledger (driver/): the stores that keep
-- publishers and donations, the fetcher of URLs, and the service that ties them to the ledger.
--
-- The service (driver/brave_rewards_service_impl.cc) is the ledger's client. It keeps publishers in
-- an SQLite database (driver/publisher_info_database.cc), fetches URLs through libcurl
-- (driver/URLFetcher.cpp), and runs each continuation as a task of its own.
-- driver/publisher_info_backend.cc is an older store of the same kind over LevelDB.
--
-- Database.antt is the database object and the engine that it calls. Database/Action.antt has the
-- actions on an object, with C++ exceptions and the fault of a null pointer; Database/Engine.antt
-- the statements sent through db_; Database/Tables.antt and Database/Schema.antt Init and what it
-- calls; Database/Writes.antt and Database/Queries.antt the methods; Database/QueryText.antt the
-- texts that are built. Database/Selection.antt has the queries of Find as data, with a text and a
-- meaning, and Database/Placeholders.antt reads the texts for their placeholders. Proofs:
-- Database/Safety.antt and below, with the end of the transaction of Init in
-- Database/Safety/Init/Transaction.antt, Database/Reports.antt, Database/Activity.antt and below,
-- Database/QueryText/Clauses.antt, Database/Selection/Texts.antt, Database/Selection/Found.antt,
-- Database/Selection/Counted.antt, and below Database/Placeholders.antt, where an engine that notes
-- what is sent to another takes its place. Conditions that actions keep, however they end, are in
-- Database/Action/Keeping.antt.
-- Backend.antt is the LevelDB store; Backend/Pages.antt and Backend/Scans.antt have its proofs. Its
-- loops take fuel; one more than the number of entries is enough.
-- UrlFetcher.antt is one transfer; UrlFetcher/Headers.antt has its proofs.
-- Service.antt is the service where it calls the database and the files: its state, its tasks and
-- what it says. Service/Core.antt reaches the database and starts tasks (RunTask);
-- Service/Publishers.antt, Service/Donations.antt and Service/Files.antt are the calls and the
-- handlers of their tasks; Service/Dispatch.antt runs a task, and Service/Exchange.antt puts calls
-- and tasks into one order. Service/Timers.antt has the timers, with their waits as steps in
-- Service/Timers/Waits.antt, and Service/Loads.antt the loads of URLs. Service/Loads/Started.antt
-- adds the start of a loader. Proofs: Service/Answers.antt, Service/Found.antt, over the meaning of
-- the queries, Service/Paging.antt, Service/States.antt, Service/Safety.antt,
-- Service/Safety/Tasks.antt, Service/Drain.antt with Service/Drain/Followers.antt (the fuel is the
-- total of the ranks of the pending tasks, which the tasks that they start are counted in),
-- Service/Timers/Limits.antt, Service/Timers/Waits/Fires.antt, Service/Loads/Once.antt,
-- Service/Loads/Answers.antt, Service/Loads/Requests.antt, Service/Loads/Started.antt,
-- Service/Exchange/Adds.antt and Service/Exchange/Once.antt.
-- Session.antt is the service where it only talks to the ledger and the observers: `said` keeps
-- both in order, and a call through a null ledger_ is a fault. Session/Settings.antt has the
-- methods that pass their arguments on, Session/Wallet.antt the wallet's, and Session/Visits.antt
-- those of a visited page; Session/Methods.antt puts all of them into one type, for histories of
-- calls. Proofs: Session/Wallet/Reports.antt, Session/Visits/Activity.antt,
-- Session/Methods/Pointer.antt, and, over Session/Methods/Keeping.antt, Session/Methods/Once.antt
-- and Session/Methods/Heard.antt.
-- Url.antt is parseUrl, with proofs in Url/Domains.antt. Values.antt has the plain values that the
-- driver passes around (driver/balance_report.cc and its like); Values/Copies.antt says what their
-- copies are. Driver.antt is main of driver/driver.cpp, over the timers and the session.
-- Ledger.antt names what the driver uses of the ledger library.
--
-- Parameters, since they are not part of this repository's own code: the ledger library (the
-- numbers of its enumerators, its default objects), SqliteModernCpp and SQLite, LevelDB, libcurl
-- and Boost. A law about one of them is a field of a record or a hypothesis, and Tests modules have
-- a concrete instance of each. `double` is a type of which only conversions are known.
--
-- Not modelled: logging (Log and its levels), GenerateGUID, URIEncode, LoadNicewareList and
-- FetchFavIcon, which is not implemented; how the profile's folder is found; memory that runs out;
-- exceptions that are not of the engine; and the parts that only call Windows. Assertions are
-- compiled out. The text of a file is read back as it was written: the line ends that a stream in
-- text mode translates on Windows are left out. SQLite's own sources (sqllite/), the build files and
-- the patches are copies of other projects or configuration.
pub mod Prelude
pub mod Ledger
pub mod Database
pub mod Backend
pub mod UrlFetcher
pub mod Values
pub mod Url
pub mod Driver
pub mod Session
pub mod Service
