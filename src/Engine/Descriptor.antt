-- ===== src/Engine/Descriptor.antt =====
-- `scan_file_descriptor` of aegorx/engine.py: the scan of a descriptor that is open already, with the
-- descriptors that the process holds.
use native.Mathlib.Decide.{ℕ_discrete}
use aegor_x.Prelude.{ℕ, String, none, List, ◌∷◌, ◌++◌, ltb, mem, discard, if◌then◌else◌}
use aegor_x.Engine.World.{
  Engine, FileScanResult, Detection, Hashes, Match, Io, ok, raised, os_error, exceeds_max_size,
  new_result, failed, verdict_of,
}
use aegor_x.Engine.Scan.{signature_detections, yara_detections, with_hashes}

-- What the calls on the descriptor come to: `os.fstat`, `os.dup`, the hashes (which are read through a
-- copy of their own, closed again), `os.lseek`, and the read inside `with os.fdopen(dup)`.
pub record Fd : Type 0 where
  pub path : String  -- path_hint, or "<fd:N>"
  pub fstat : Io ℕ
  pub dup : Io ℕ
  pub hashes : Io Hashes
  pub lseek : Io (Unit {0})
  pub read : Io (List ℕ)
  pub match_bytes : List ℕ → List Match

-- The value of the local variable `dup`: a descriptor, or -1.
pub data Handle : Type 0 where
  fd : ℕ → Handle
  minus_one : Handle

-- The scan's outcome: the descriptors that are open after it, and a result or an `OSError`.
pub record Outcome : Type 0 where
  pub held : List ℕ
  pub result : Io FileScanResult

-- os.close(h): EBADF for -1, and for a descriptor that is not open.
unfoldable pub close : Handle → List ℕ → Io (List ℕ)
close minus_one held = raised "Bad file descriptor"
close (fd n) held =
    if mem ℕ_discrete n held then ok (discard ℕ_discrete n held) else raised "Bad file descriptor"

-- The `finally` clause: what `os.close(dup)` raises replaces the result.
unfoldable pub finally_close : Handle → List ℕ → FileScanResult → Outcome
unfolding close
finally_close h held r = elim (close h held) [
  | ok rest ↦ record { held = rest; result = ok r }
  | raised x ↦ record { held = held; result = raised x }
]

abbrev pub judged : Engine → FileScanResult → List Detection → FileScanResult
judged e r ds = record r { detections = ds; verdict = verdict_of e ds none }

-- The body of the second `try`, from `os.lseek` to the `finally`. Leaving the `with` block closes the
-- descriptor, whether or not the read raised; `dup = -1` follows only where it did not.
unfoldable pub read_and_match : Engine → Fd → ℕ → List ℕ → FileScanResult → List Detection → Outcome
unfolding finally_close
read_and_match e x n held r ds = elim x.lseek [
  | raised _ ↦ finally_close (fd n) held (judged e r ds)
  | ok _ ↦ elim x.read [
    | raised _ ↦ finally_close (fd n) (discard ℕ_discrete n held) (judged e r ds)
    | ok bytes ↦
        finally_close minus_one (discard ℕ_discrete n held)
          (judged e r (ds ++ yara_detections (x.match_bytes bytes)))
  ]
]

unfoldable pub hash_descriptor : Engine → Fd → ℕ → List ℕ → FileScanResult → Io Hashes → Outcome
unfolding read_and_match
hash_descriptor e x n held r (raised why) = record {
  held = discard ℕ_discrete n held;
  result = ok (failed r (os_error why));
}
hash_descriptor e x n held r (ok h) =
    read_and_match e x n held (with_hashes r h) (signature_detections e h)

unfoldable pub dup_descriptor : Engine → Fd → List ℕ → FileScanResult → Io ℕ → Outcome
unfolding hash_descriptor
dup_descriptor e x held r (raised why) = record {
  held = held;
  result = ok (failed r (os_error why));
}
dup_descriptor e x held r (ok n) = hash_descriptor e x n (n ∷ held) r x.hashes

unfoldable pub stat_descriptor : Engine → Fd → List ℕ → Io ℕ → Outcome
unfolding dup_descriptor
stat_descriptor e x held (raised why) = record {
  held = held;
  result = ok (failed (new_result x.path) (os_error why));
}
stat_descriptor e x held (ok size) =
    let r : FileScanResult = record (new_result x.path) { size = size } in
    if ltb e.max_file_size size
    then record { held = held; result = ok (failed r (exceeds_max_size e.max_file_size)) }
    else dup_descriptor e x held r x.dup

unfoldable pub scan_file_descriptor : Engine → Fd → List ℕ → Outcome
unfolding stat_descriptor
scan_file_descriptor e x held = stat_descriptor e x held x.fstat
