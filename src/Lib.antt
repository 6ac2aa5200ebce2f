-- ===== src/Lib.antt =====
-- Models of AegorX, an endpoint scanner in Python (aegorx/), and what is proved of them.
--
-- The program's parts and how they interact. `ScanEngine` (aegorx/engine.py) scans a file: it
-- asks the signature database (aegorx/signatures/db.py), YARA, a model, the document analysers
-- and, for archives, the bounded extraction (aegorx/scanner/archives.py), scans the extracted
-- entries by recursion, grades what was found, and keeps the result in a cache. Around it stand
-- guards that keep their own state: application control (aegorx/app_control.py), ransomware
-- detection (aegorx/ransomware.py), the DNS filter (aegorx/network/dns_filter.py), the audit log
-- of the real-time monitor (aegorx/realtime/monitor.py), the quarantine vault
-- (aegorx/quarantine/vault.py), the connection monitor (aegorx/network/conn_monitor.py) with the
-- outbound firewall on it (aegorx/firewall.py), and the management server
-- (aegorx/management/server.py). The real-time monitor takes events of the kernel to the engine
-- and to the vault; an agent (aegorx/management/agent.py) executes the signed commands that the
-- server hands out, among them a policy (aegorx/policy.py); signed feeds
-- (aegorx/signing/feed.py) bring signatures and rules (aegorx/rules_store.py), and signed
-- manifests new releases of the program itself (aegorx/update.py); a scanner compares the
-- installed packages with known vulnerabilities (aegorx/vuln_scanner.py). An archive can also be
-- analysed and extracted by a sandbox of its own (aegorx/sandbox/archive_sandbox.py). Pollers
-- hand new downloads (aegorx/browser_guard.py) and new mount points (aegorx/usb_scanner.py) to a
-- scan, the block list is also written into the hosts file (aegorx/network/enforcement.py), and
-- a shield seals the files that the program trusts (aegorx/shield.py). The network protector
-- (aegorx/network/protector.py) puts the DNS filter, the threat feeds
-- (aegorx/network/threat_feeds.py) and the enforcement together. The behavioural monitors hand
-- their events to a bus (aegorx/behavioral/events.py).
--
-- Which file models which part:
--   Prelude: the names that all share: Boolean tests, lists, sets and dictionaries over native
--     numbers.
--   Signatures: `SignatureDB.add`, `lookup`, `import_json`, `count`; `Signatures.Laws` has the
--     theorems.
--   Engine.World: the data of a scan, the calls that the engine makes (`World`), `_verdict`.
--     Engine.Sniff: the tests on a file's first bytes. Engine.Cache: the `OrderedDict` of
--     results. Engine.Scan: `_scan_file` and `_scan_archive_contents`, over the stages of
--     Engine.Scan.Stages. Engine.Descriptor: `scan_file_descriptor` with the descriptors that
--     are open. Theorems: Engine.Verdicts, Engine.Caching, Engine.Depth, Engine.Nested,
--     Engine.Handles.
--   Archives: `_check_budget`, `_write_stream`, `_extract_zip`, `_extract_tar`. Theorems:
--     Archives.Budgets, Archives.Overwritten.
--   AppControl: `ApplicationController`. Theorems: AppControl.Coherence.
--   Ransomware: `RansomwareDetector`; Ransomware.Rate: `VelocityDetector`, `ExtensionMonitor`;
--     Ransomware.Entropy: `EntropyDetector`; Ransomware.Canaries: `CanaryManager`. Theorems:
--     Ransomware.Recent, Blind, Tampered, Log.
--   Dns.Domain: `_normalize`, `_reverse_labels`; Dns.Trie: `_TrieNode` and the walks over it;
--     Dns.Filter: `DNSFilter`. Theorems: Dns.Walk, Dns.Agree, Dns.Files.
--   Audit.Segments: `AuditLog` and `verify_audit_log`. Theorems: Audit.Rotation, Audit.Chain,
--     Audit.Verified, Audit.Resumed.
--   Vault: `QuarantineVault` (aegorx/quarantine/vault.py), over the blobs of Vault.Format.
--     Theorems: Vault.Blobs, Vault.Restored.
--   Fleet: `FleetStore`, over the tables of Fleet.Tables; Fleet.Handlers: the requests of the
--     server. Theorems: Fleet.Pairing, Fleet.Access, Fleet.Delivery, Fleet.Served.
--   Json: the values of a JSON document, with Python's tests on them.
--   Commands: aegorx/management/protocol.py; Commands.Agent and Commands.Rounds: `DASAgent`.
--     Theorems: Commands.Readings, Commands.Verified, Commands.Reports.
--   Monitor: `RealTimeMonitor` (aegorx/realtime/monitor.py). Theorems: Monitor.Steps,
--     Monitor.Dropped.
--   Connections: aegorx/network/conn_monitor.py; Connections.Firewall: `OutboundFirewall`
--     (aegorx/firewall.py). Theorems: Connections.Beacons, Connections.Counted,
--     Connections.Unseen.
--   Policy: aegorx/policy.py. Theorems: Policy.Valid, Policy.Saved.
--   Feeds: aegorx/signing/feed.py; Feeds.Rules: `sanitize_rule_entries` and
--     aegorx/rules_store.py; Feeds.Update: `aegorx feed update` (aegorx/cli.py). Theorems:
--     Feeds.Normal, Feeds.Synced, Feeds.Signed, Feeds.Accepted, Feeds.Replayed, Feeds.Stored.
--   Updates.Versions: `parse_version` and the comparison of tuples of aegorx/update.py; Updates:
--     `verify_manifest` and `check`; Updates.Download: `download_artifact`; Updates.Install:
--     `apply_update` and `auto_apply`. Theorems: Updates.Fetched, Updates.Installed,
--     Updates.Accepted.
--   Events: aegorx/behavioral/events.py. Theorem: Events.Kept.
--   Vulnerabilities: aegorx/vuln_scanner.py. Theorems: Vulnerabilities.Matched,
--     Vulnerabilities.Tallied.
--   Downloads: `BrowserDownloadMonitor` (aegorx/browser_guard.py). Theorem: Downloads.Seen.
--     Mounts: `USBScanner` (aegorx/usb_scanner.py). Theorem: Mounts.Again.
--   Sandbox.Archive: the data, the risk and the verdict of `ArchiveSandbox`
--     (aegorx/sandbox/archive_sandbox.py); Sandbox.Archive.Analyse: `analyze`;
--     Sandbox.Archive.Extract: `extract`. Theorems: Sandbox.Archive.Safe, Sandbox.Archive.Bombs.
--   Shield: `seal`, `verify` and `liveness` (aegorx/shield.py). Theorem: Shield.Sealed.
--   Hosts: `HostsFileEnforcer` (aegorx/network/enforcement.py). Theorems: Hosts.Lines,
--     Hosts.Blocks.
--   Intel: the sources and `update_threat_intel` (aegorx/network/threat_feeds.py);
--     Intel.Extract: the extraction of domains. Theorems: Intel.Words, Intel.Printed,
--     Intel.Tokens, Intel.Spelled.
--   Protector: `NetworkProtector` (aegorx/network/protector.py), over an enforcer of
--     aegorx/network/enforcement.py. Theorems: Protector.Covered, Protector.Lines,
--     Protector.InStep.
--
-- State and operations. A part's state is a record with the fields of the class, and a method is
-- a function from the state to the state with the result. A class guards each method by a lock,
-- so that a method is one step. What Python's library, SQLite, YARA, the model and the file
-- system answer are arguments: fields of a record such as `World`, `Env` or `Files`, or
-- functions such as `digest` and `fingerprint`. Nothing is assumed of them but what a theorem
-- names.
--
-- Numbers. Times, sizes and severities are natural numbers. A probability is a double in [0, 1]
-- and kept as its multiple of 2 ^ -1074; an entropy in [0, 8] is kept in units of 2 ^ -1074 as
-- well; comparisons are then exact, and the roundings of reports are left out. The difference of
-- two entropies and the ratio of a ZIP entry are taken exactly, without the rounding of doubles.
--
-- Bounds and fuel. Three functions run on fuel. `scan_file` gives `scan_at` `max_depth + 1`, as
-- a scan at the depth `max_depth` descends no further. `chunks_of` gets the length of the file,
-- of which each chunk takes a byte at least; `read_tokens` gets one more than the length of the
-- blob, of which each token takes four bytes at least. Loops over lists are structural.
-- `verify_audit_log` reads segments 64 to 1, as the code does.
--
-- Text. `lower` of the DNS filter and of the threat feeds is that of ASCII: texts with capitals
-- beyond it are outside the models of Dns, Intel and Protector.
--
-- Not modelled: threads and callbacks, logging, the reading of malformed JSON files,
-- floating-point features, kernel interfaces, the sandbox for processes, the command line, and
-- the other parts: the enforcement by system commands, the resolver, the scanner of processes,
-- the inventory of packages, and the behavioural scores.
pub mod Prelude
pub mod Signatures
pub mod Engine
pub mod AppControl
pub mod Ransomware
pub mod Dns
pub mod Audit
pub mod Archives
pub mod Fleet
pub mod Vault
pub mod Monitor
pub mod Json
pub mod Commands
pub mod Connections
pub mod Policy
pub mod Feeds
pub mod Updates
pub mod Vulnerabilities
pub mod Events
pub mod Downloads
pub mod Mounts
pub mod Sandbox
pub mod Shield
pub mod Hosts
pub mod Intel
pub mod Protector
