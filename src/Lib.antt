-- ===== src/Lib.antt =====
-- A model of the dashboard of hybrid-tls-lab: the Python program under dashboard/ that stores the
-- reports of TLS handshakes, summarises them, and rates vendors by their readiness for post-quantum
-- cryptography; and of the C programs under tls/ that make the handshakes and send the reports.
--
-- The parts, and the code of each:
--   Prelude      what Python and its library do: texts, dicts, the stable sort, round, floats, csv, json
--   Tprm         dashboard/app/tprm.py: yn, derive_tier, pqc_display, load_vendors (on rows; on the
--                text of the file in File)
--   GenTprmRows  dashboard/gen_tprm_rows.py: the same columns as rows of a static page, and main
--                (Program)
--   Qvi          dashboard/app/qvi.py: load_targets, qvi_summary
--   Compliance   dashboard/app/compliance.py: MANDATES, compute_compliance, compliance_summary
--   Hndl         dashboard/app/hndl.py: load_hndl_inputs, build_exposure, exposure_summary
--   Roadmap      dashboard/app/roadmap.py: build_roadmap
--   Score        dashboard/app/score.py: the formula (Formula), the certificate cache (Certs),
--                load_scored (Score itself) and score_summary (Summary)
--   Cbom         dashboard/app/cbom.py: build_cbom
--   Schemas      dashboard/app/schemas.py: the payloads and their constraints, and the payload of a body (Body)
--   Db           dashboard/app/db.py: the tables and their constraints (Tables), the writes under
--                their transaction (Db itself), sequences of writes (History), the queries (Queries),
--                the text of iso_now (Instant), the CSV export (Export), what the writes promise, as
--                two maps (Store), and several connections at once (Concurrent)
--   Analytics    dashboard/app/analytics.py: percentile and describe (Describe), summarize
--   Main         dashboard/app/main.py: what single pages compute, and the application (App): its
--                requests, responses and state, and the handlers of all routes (App.Routes)
--   Tls          tls/: common.c (Common), the options of both programs (Options), tls_server.c (Server)
--                and tls_benchmark.c (Benchmark: the probe; Run in it: main), and what the dashboard makes
--                of a run (Registration), of a probe (Delivery), of both sides of one (Handshake) and of
--                all the probes of a run (Rounds, Completeness)
--   Tests        small runs of the program, on which the theorems are applied, and the assertions of
--                dashboard/tests/test_dashboard.py (Suite)
--
-- The vendors' CSV file goes through Tprm to Qvi, and from there to Compliance, Hndl, Roadmap and
-- Cbom; Score joins the vendors, the inputs of the data owners and the scan. The reports go from
-- Schemas to Db, whose rows Analytics summarises. The C programs of Tls write them as JSON, which
-- Prelude.Json reads and Schemas.Body takes as payloads.
--
-- How the state is modelled. A database is the two tables as lists of rows; a write takes it and
-- returns a result with the database that is left, and `transaction` keeps the old one where the
-- body raises. The global `_CERT_CACHE` is passed in and returned. A CSV file is its text, read by
-- the machine of Prelude.Csv; a json file is what the json module yields for it, where a field
-- that is missing is none; an AttributeError, a KeyError or an IndexError is none as a result, and
-- the status 500 as a response. The year, the instants of `iso_now`, the uuid and the time of a
-- document are inputs; an instant is a number, which orders as its text does (Db.Instant). The
-- writes take a payload that has passed the constraints of Schemas, so that of its numbers only
-- the byte counts can be too large for SQLite.
--
-- How numbers and texts are modelled. A text is the list of its code points; letter case and
-- digits are those of ASCII, but digits in a retention (Hndl.Digits) and white space are those of
-- Unicode. A float is a value num / 2 ^ scale, rounded to the nearest of binary64 after every operation. The search for its exponent has fuel
-- 1074 and 971, the number of exponents that there are below and above; an overflow to infinity is
-- not modelled, and no value here comes near it. The priority of a roadmap record is in
-- hundredths, the ratio of a scored row in tenths, as they are rounded. `str` of a number has more
-- fuel than it has digits.
--
-- SQL leaves the order of rows with equal keys open, so the two ORDER BY clauses are parameters. A
-- request is served at a stroke in Main.App; Db.Concurrent takes the steps of a transaction apart,
-- and dashboard_between has the two reads of the dashboard on two states of the database.
--
-- A C string is its bytes up to the NUL, which stand for characters: what the C programs and the
-- dashboard exchange is taken to be ASCII, and UTF-8 is not decoded. Of a buffer that snprintf fills
-- the model has the text that fits. What OpenSSL, the sockets and the clock return is given, one record for each
-- probe, connection and run; `send_all` has fuel for each character, since each call of send takes
-- one at least. The numbers of C are uint64_t where it subtracts instants, and wrap around.
--
-- Not modelled: the templates, styles and scripts of the pages, the containers, the opening of files,
-- the connection to SQLite, and of the C programs the setup of TLS contexts and listeners, the
-- run id that is made from the clock, and what is printed. FastAPI, pydantic, sqlite3, csv and json are
-- libraries: the model has what their documentation says of the calls that the code makes, where
-- which handler a path reaches, the conversions of pydantic, JSON beyond flat objects, its \u escape
-- and its white space, and the limit of csv on the length of a field are left out.
pub mod Prelude
pub mod Tprm
pub mod GenTprmRows
pub mod Qvi
pub mod Compliance
pub mod Hndl
pub mod Roadmap
pub mod Score
pub mod Cbom
pub mod Analytics
pub mod Schemas
pub mod Db
pub mod Main
pub mod Tls
pub mod Tests
