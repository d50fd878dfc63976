-- ===== src/Lib.antt =====
-- A verification library of the Matrix federation scanner (bot/csreg_scanner).
--
-- The bot scans Matrix servers for open registration and keeps a policy room: it classifies what a
-- server's registration endpoint answers (regcheck.py), decides by the room's configuration what a
-- status asks for, and writes or removes ban rules (policy.py), under a cap per registrable domain
-- that the public suffix list defines (psl.py). Names are parsed and validated in util.py and
-- resolver.py.
--
-- Prelude holds the shared names, tests, lists and texts; a text is a list of character codes
-- (Prelude/Text). Json is the decoded JSON that the program receives.
--
-- Util is util.py: strip_port, is_ip_literal, validate_server_name; Util/Ip the parsers of
-- Python's ipaddress module that it calls, after their documentation.
--
-- Resolver/Name is parse_name, Resolver/Body read_json_capped and Resolver/Srv _order_srv with
-- _weighted_pick_index of resolver.py.
--
-- Psl/Version is parse_psl_version, Psl/Rules the parse of PublicSuffixList, Psl/Suffix its
-- public_suffix and etld1, Psl/Holder validate_psl_text and PSLHolder of psl.py. A version is a
-- number that orders the timestamps. The IDNA codec is a parameter, which may raise. The lower
-- case of etld1 is that of ASCII letters: other letters of a host stay as they are, where
-- str.lower folds them.
--
-- Policy/State is the state of PolicyManager with its halts, Policy/Schema the field windows,
-- Policy/BotVersion parse_bot_version, Policy/Config and Policy/Config/Gates _apply_auto_config in
-- the order of its gates, as steps that go on, return or raise; Policy/Glob _glob_to_regex;
-- Policy/Fold the local fold of the room with load_rules, note_rule, _covering_glob and
-- _etld1_ban_count; Policy/Write _write with its throttle and retries; Policy/Reconcile reconcile
-- and consider_stale_cleanup; Policy/Reconcile/Concurrent lets several calls of reconcile
-- interleave, as the scans of bot.py (_launch_scan) do. Policy reads a suffix list through
-- Psl/Suffix and a holder through Psl/Holder.
--
-- Filter is ipfilter.py: the ranges of the configuration, IPRangePolicy and the filtered
-- resolution. Probe/Version is fedversion.py, Probe/Support supportinfo.py, and Probe/Scan the
-- three phases of Scanner.scan of regcheck.py under one budget of time.
--
-- Bot is bot.py: Bot/Ingest _clean, _ingest and webhook_ingest, Bot/Staleness _sanitize_staleness
-- and _required_rate, Bot/Launch the ticks of the scan and the rescan loop with the admission gate
-- and the credit, as steps that interleave at each tick's await, and Bot/Scan _scan_one, which
-- runs a result of Probe/Scan through Store and Policy/Reconcile. Bot/Refresh is _load_psl_local,
-- _psl_refresh_once and the intervals of _psl_refresh_loop: it offers a fetched list to
-- Psl/Holder, stores it in Store/Documents and evaluates the floor of Policy again.
--
-- Regcheck/Flows is classify_register_body and Regcheck/Probes RegistrationChecker.classify with
-- its probes, of regcheck.py.
--
-- Store is db.py: the tables as lists of rows, Store/Queue enqueue and pending, Store/Record
-- record_scan and statuses_for_domain, Store/Overdue most_overdue, Store/Counts the counts,
-- Store/Documents the support documents and the suffix-list cache, Store/Invariant the stores that
-- these methods reach, with a clock that does not run backwards. A transaction is one step.
-- Store/Pinned puts the store under Policy/Reconcile, as the bot does.
--
-- Parameters: the homeserver's answers to each write and their durations, the digest of the state
-- key, the statuses that the database gives, json.loads and json.dumps, the HTTP client, yarl,
-- Python's int on a configuration value, with its exceptions, ip_network, the order of texts in
-- the database, str.isalnum, the random generator. The only hypotheses on them are that draws lie
-- in their documented ranges. The clock of the event loop is a number of milliseconds; theorems on
-- writes ask that it is not before the last write. The loop of _write runs on fuel six: one try
-- and the five retries of _RL_MAX_RETRIES. The loop over a band of SRV records runs on the length
-- of the band, which each pop shortens. Every other loop is structural.
--
-- Not modelled: logging and metrics, package resources, start and stop of the plugin, the download
-- of the suffix list, the jitter of its intervals, the handler of state events, the delegated
-- resolution, the sources of targets, the command line. The write lock is taken to hold: one write
-- runs at a time, and a write in the model is one step. An exception of the database ends a tick
-- or a scan and is modelled only where the loops catch it.
pub mod Prelude
pub mod Util
pub mod Json
pub mod Psl
pub mod Policy
pub mod Resolver
pub mod Regcheck
pub mod Store
pub mod Filter
pub mod Probe
pub mod Bot
