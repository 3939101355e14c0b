-- ===== src/Lib.antt =====
-- Verification of FRPilot, which monitors and maintains the machines behind an frp server.
--
-- A web server with accounts (internal/auth over the SQLite tables of internal/store) lets
-- administrators register the machines that the frps dashboard reports (internal/registry), give
-- them SSH credentials, which are stored encrypted (internal/store/store.go), and switch their
-- monitoring on; the program then collects their state over SSH in one loop per machine
-- (internal/collector). The configuration is a JSON file next to encrypted secrets in the database
-- (internal/config). A control loop (internal/qos) shares the server's bandwidth among the active
-- machines by tc classes; a monitor (internal/traffic) marks surges of the traffic. On request the
-- program judges the last snapshot of a machine (internal/actions/health.go) and runs cleanups and
-- virus scans over SSH as background tasks (internal/actions/cleanup.go and scan.go).
--
-- The files:
--
-- Prelude       shared names; Boolean tests, lists over native numbers, Go's int, texts and maps
-- Exec          database actions: one SQL statement after the other, each of which may fault;
--               Exec/Keeps has the rules for invariants
-- Platform, Floats, Cipher
--               parameters: Unicode tables and bcrypt; float64; AES-GCM (with EncryptSecret and
--               DecryptSecret of internal/store/store.go)
-- Store         internal/store/users.go (Users, Sessions, Limits) and machines.go (Machines); History
--               (audit.go, health.go, ai.go, retention.go, and the deletions of metrics.go and traffic.go);
--               Valid has the constraints of the schema
-- Auth          internal/auth/auth.go: Register, Login, Manage; the proofs in the other files
-- Web           internal/web: sessionToken, requireAuth, requireAdmin, and the handlers and routes of
--               the requests on accounts that need a session; Settings (handleSaveSettings)
-- Config        internal/config/config.go and secrets.go: Defaults (DefaultConfig, applyDefaults),
--               Secrets (loadOrMigrateSecret, saveSecretIfChanged, the hook; GetSetting and SetSetting
--               of internal/store/machines.go), Manager (Update, persist, LoadOrCreateAt,
--               SyncEncryptedSecrets, and what main.go does with them)
-- Collector     internal/collector/collector.go: the loops and the map of them; Round (collect),
--               Snapshots (SaveSnapshot, GetSnapshot and SaveMetricFor of internal/store/metrics.go),
--               Rates (cpuPct, netRates, memPct, topDiskPct), Scripts; Modules (ParseSecurity) and Listings (ParseCron,
--               ParsePorts, ParseGPU) of modules.go; Parser and Sections (ParseSysInfo, CPUUsage) of
--               parser.go
-- Sshx          internal/sshx/sshx.go: shellQuote, RunSudo; FrpsFile (FindFrpsConfigPath,
--               VerifyTokenInFrpsIni, extractConfigValue, ExtractFrpsConfigValues); Shell reads a
--               command line as a shell does
-- Registry      internal/registry/registry.go: Discover, UpdateCredentials, SetEnabled; Frps
--               (AutoDetectFrpsInfo, VerifyFrpsTokenBaseline)
-- Qos           internal/qos/qos.go: State (classID, releaseIfUnused, setErr), Activity (sample,
--               updateActive), Plan (desired), Commands (the tc and ip commands, runCmds), Apply
--               (applyDirection, clearDirection, cleanupAll), Reconcile (reconcile)
-- Traffic       internal/traffic/traffic.go: pollWithProxies, detectAnomalies; Latest (Latest)
-- Health        internal/actions/health.go: Checks (the sections of RunHealth), Run
-- Tasks         internal/actions/cleanup.go and scan.go: Items, Manager (newTaskLocked, ListTasks,
--               StartCleanup and StartScan up to their goroutines), Remote (the SSH connection, a
--               parameter), Cleanup (runOnMachine, Preview, the goroutine of StartCleanup), Phases
--               (scanPhases), Scan (scanMachine, the goroutine of StartScan)
-- Examples      concrete runs of the theorems
--
-- How the code is read. A time is a number of seconds, one for each call, passed in where the
-- source calls time.Now(). An id is a natural number. A table is the list of its rows and a
-- statement has the meaning that SQL gives it; `fault` decides which statements fail in the engine,
-- and the theorems range over it unless they say otherwise. RegisterLoginFailure is a transaction
-- and takes effect at its commit. A Go map is a list of entries whose order stands for the order of
-- range. float64 is a parameter without laws but those that a theorem names. Sums, differences
-- and durations of int64 that come from outside wrap around. Random tokens, salts and nonces are arguments.
-- Commands for tc and ip are lists of words and numbers before they are formatted. JSON is a
-- parameter: a printer, which may fail, and a parser that reads back what is printed. A mutex is
-- modelled where a call can leave it held (the task manager). The goroutines of the collector and
-- of the requests that switch machines interleave, one access of the shared state at a time; those
-- of the tasks are run from start to end. No function needs fuel but the sort of ListTasks, which
-- recurses on the number of its elements.
--
-- Not modelled: the other web handlers, the dashboard client, the AI diagnosis, the command line,
-- log lines, the calls that write the audit log, the texts of results and details, and the parsing
-- of version texts in health.go, over which the theorems on reports range.
pub mod Prelude
pub mod Exec
pub mod Store
pub mod Platform
pub mod Floats
pub mod Auth
pub mod Qos
pub mod Cipher
pub mod Registry
pub mod Web
pub mod Traffic
pub mod Health
pub mod Tasks
pub mod Collector
pub mod Sshx
pub mod Config
pub mod Examples
