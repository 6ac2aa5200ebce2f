-- ===== src/Audit/Tests.antt =====
-- Runs of the audit log (aegorx/realtime/monitor.py) with one backup and a tiny size limit.
use aegor_x.Prelude.{ℕ, ◌≡◌, ◌+◌, refl, String, Option, none, some, [], ◌∷◌, arith, length}
use aegor_x.Audit.Segments.{Line, entry, Files, Log, put, write, valid, verify_audit_log}
use aegor_x.Audit.Chain.{IsLog, write-IsLog}
use aegor_x.Prelude.{◌≢◌}
use aegor_x.Audit.Verified.{verify_audit_log-write}

-- A body stands for its own digest.
abbrev digest : String → Option ℕ → Option String → String
digest body seq prev = body

abbrev no_files : Files String
no_files k = none

abbrev new_log : Log String
new_log = record { files = no_files; seq = 0; prev_hash = ""; backups = 1; max_bytes = 2 }

new_log-IsLog : IsLog digest new_log
new_log-IsLog = record {
  chain = record { number = 0; hash = ""; linked = (refl, refl) };
  above = λ k h. refl;
  reached = omega arith;
}

abbrev one_record : Log String
one_record = write digest length new_log "start"

write-IsLog_example : IsLog digest (write digest length one_record "scan")
write-IsLog_example =
    write-IsLog digest length one_record "scan"
      (write-IsLog digest length new_log "start" new_log-IsLog)

verify_audit_log-write_example :
    verify_audit_log digest (write digest length one_record "scan").files
    ≡ valid (one_record.seq + 1)
verify_audit_log-write_example =
    verify_audit_log-write digest length one_record "scan"
      (write-IsLog digest length new_log "start" new_log-IsLog)

abbrev line : String → ℕ → String → Line String
line body seq prev =
    entry (record { body = body; seq = some seq; prev = some prev; hash = some body })

-- Two records in the active file.
abbrev two_records : Log String
two_records = record new_log {
  files = put 0 (some (line "start" 1 "" ∷ line "scan" 2 "start" ∷ [])) no_files;
  seq = 2;
  prev_hash = "scan";
}

two_records-IsLog : IsLog digest two_records
two_records-IsLog = record {
  chain = record {
    number = 0;
    hash = "";
    linked = ((refl, refl, refl), ((refl, refl, refl), (refl, refl)));
  };
  above = λ k h. ground arith;
  reached = omega arith;
}

-- A digest that is never empty.
abbrev mark : String → Option ℕ → Option String → String
mark body seq prev = "0"

nonempty : (body : String) (n : Option ℕ) (p : Option String) → mark body n p ≢ ""
nonempty body n p = λ e. cc

new_log-IsMarked : IsLog mark new_log
new_log-IsMarked = record {
  chain = record { number = 0; hash = ""; linked = (refl, refl) };
  above = λ k h. refl;
  reached = omega arith;
}
