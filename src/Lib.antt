-- ===== src/Lib.antt =====
-- ai-home-assistant: the service of src/ai_ha, which listens to a Home Assistant instance,
-- keeps its registries (areas, devices, entities) and its events in a SQLite database, and
-- serves them.
--
-- The parts and how they interact. A refresh of the registries goes through
-- topology/orchestrator.py: topology/snapshot_store.py stores the payload unless one with its
-- hash is stored, store/dao.py upserts the rows, and topology/entity_index.py is rebuilt in
-- memory. An event goes through ingest/pipeline.py: privacy/hide_matcher.py may drop it, else
-- it is buffered, and a batch of events is attributed with the index and written through
-- store/dao.py, with the counters of ingest/counters.py.
--
-- Store models store/dao.py: Store/Rows the row types, Store/Exec the database of
-- store/migrations/001_initial.sql and the transactions of `Database.connect` (store/db.py),
-- Store/Dao one function per method of `StoreDAO`. A table is an association list, whose order
-- is that of the first insertions; `list_entities`, which has no ORDER BY, gives its rows in
-- the order of the primary key, as SQLite stores that table. A method that writes is one
-- transaction in the monad Exec, whose state is the database and the faults to come: SQLite is
-- not modelled, and any of its write transactions may fail, by an explicit list of faults. A
-- method that reads is a function of the database. Times, counts and ids are natural numbers;
-- the time filters and the cursor of a query are integers, since a client sends them.
--
-- Topology models topology/: Topology/Payload what is read of a registry item,
-- Topology/EntityIndex entity_index.py, Topology/Orphans orphan_detector.py, Topology/Snapshots
-- snapshot_store.py, Topology/Orchestrator orchestrator.py. An item is a list of keys with
-- texts or null, which is what the code reads of it. JSON and SHA-256 are the parameters of
-- `Codec`.
--
-- Privacy models privacy/hide_matcher.py. The search of `_REDOS_RE` is written out over the
-- code points of the pattern; Python's `re.compile` and `fullmatch` are parameters.
--
-- Ingest models ingest/: Ingest/Batch the part of `_commit_locked` that gathers a batch and
-- writes it, Ingest/Pipeline the methods of `IngestPipeline`, Ingest/Run the sequences of
-- calls, with the swaps of the matcher and of the index by the rest of the program. A method
-- holds the lock while it writes, so a run is a sequence of whole calls; the background task is
-- one call for each time that it wakes.
--
-- Store/Migrations models the migration loop of store/db.py, over statements that are
-- parameters; Store/Migrations/Names and Store/Migrations/Files which files it takes, and in
-- which order, Store/Migrations/Version the version in kv_meta. Health models
-- health/metrics.py, with the rolling hour of event times. Web/Stream models `EventBroadcaster`
-- of web/routes/stream.py, Web/Events the route of web/routes/events.py, Web/Auth web/auth.py,
-- Web/Areas web/routes/areas.py, Web/Topology web/routes/topology.py, Web/Entities
-- web/routes/entities.py and Web/Pages what the pages of web/routes/pages.py show. Web/App is
-- the table of the routes of web/app.py, with the check of the admin before each of them but
-- two. Adapter/Registry models ha_adapter/topology_fetcher.py, Adapter/Rest the retries of
-- ha_adapter/client.py and Adapter/Socket the connection and reconnection of
-- ha_adapter/ws_client.py; what the network does is an explicit list. Archive models
-- archive/jsonl_writer.py, with the buffer of the open file: Archive/View is what a file holds
-- together with that buffer, Archive/Append the operation `append`, Archive/Log any sequence of
-- operations, Archive/Crash the end of the process without a close. A file holds the text that
-- was written to it; that a gzip stream was cut by such an end, so that Python's gzip cannot
-- read the file in full, is kept beside it. Ingest/Run/Inbox is the abstract view of the
-- pipeline, a log of events with the counts of the dropped ones; Ingest/Run/Loss is about runs
-- with faults, Ingest/Run/Bounds and Ingest/Run/Progress about how many events wait, and how
-- long.
--
-- Config models config/: Config/Toml what a TOML text denotes, Config/Classes and Config/Schema
-- the classes of loader.py and their validation, Config/Loader `load_config` with the
-- environment overrides, Config/Watcher the loop of watcher.py. Web/Settings models
-- web/routes/settings.py, which writes the file that the watcher reads.
--
-- Service models main.py, where these parts meet: Service/Startup `_run` up to the running
-- pipeline and the first token, Service/Messages the messages of the socket and the first
-- refresh, Service/Session sequences of messages, wakings of the background task and changes of
-- the configuration, up to the shutdown (Service/Session/Kept is about the events,
-- Service/Session/Hiding and Service/Session/Private about hidden entities,
-- Service/Session/Archived about the archive, Service/Session/Sound and Service/Session/Stored
-- about a session where no write fails), Service/Main the whole run from the environment to the
-- exit code; a state change goes to the pipeline, the archive, the browsers and the health
-- report, and a new configuration swaps the matcher.
--
-- Loops are structural recursion, on the list that they go through or the retries that are
-- left; no fuel is used. The tests, with an example of each result, are in Tests.
--
-- Not modelled: the templates, the web server of main.py, whose end a signal asks for, SQLite,
-- JSON, TOML and the regular expression engine themselves. A wait and a clock reading are
-- arguments; the rounding of the database size, `str.strip`, `int`, `str` and what pydantic
-- makes of one value are parameters.
pub mod Prelude
pub mod Store
pub mod Topology
pub mod Privacy
pub mod Ingest
pub mod Health
pub mod Web
pub mod Adapter
pub mod Archive
pub mod Service
pub mod Config
mod Tests
