-- ===== src/Audit/Segments.antt =====
-- Records, lines and files of the audit log (aegorx/realtime/monitor.py), `write` and `verify_audit_log`.
use aegor_x.Prelude.{
  ℕ, zero, suc, ◌+◌, ◌-◌, String, Bool, true, false, ◌&&◌, not, Option, none, some, List, [], ◌∷◌,
  ◌++◌, ltb, ◌==◌, if◌then◌else◌, ◌≐◌,
}

-- A record read back from a file: any field may be missing.
pub record Rec (Body : Type 0) : Type 0 where
  pub body : Body
  pub seq : Option ℕ
  pub prev : Option String
  pub hash : Option String

pub data Line (Body : Type 0) : Type 0 where
  blank : Line Body
  garbage : Line Body
  entry : Rec Body → Line Body

abbrev pub Files : Type 0 → Type 0
Files Body = ℕ → Option (List (Line Body))

abbrev pub put : {Body : Type 0} → ℕ → Option (List (Line Body)) → Files Body → Files Body
put j v s k = if k == j then v else s k

pub record Log (Body : Type 0) : Type 0 where
  pub files : Files Body
  pub seq : ℕ
  pub prev_hash : String
  pub backups : ℕ
  pub max_bytes : ℕ

module _ {Body : Type 0} where
  abbrev pub lines : Option (List (Line Body)) → List (Line Body)
  lines none = []
  lines (some l) = l

  -- os.replace(path.i, path.(i + 1)), where path.i exists
  abbrev pub shift_one : ℕ → Option (List (Line Body)) → Files Body → Files Body
  shift_one i none s = s
  shift_one i (some l) s = put i none (put (suc i) (some l) s)

  -- for i in range(backups - 1, 0, -1), from i on
  unfoldable pub shift : ℕ → Files Body → Files Body
  shift zero s = s
  shift (suc i) s = shift i (shift_one (suc i) (s (suc i)) s)

  -- The active file is small enough to go on.
  abbrev pub fits : (List (Line Body) → ℕ) → ℕ → Option (List (Line Body)) → Bool
  fits bytes limit none = false
  fits bytes limit (some l) = ltb (bytes l) limit

  -- `_rotate`
  unfoldable pub rotate : (List (Line Body) → ℕ) → Log Body → Files Body
  unfolding shift
  rotate bytes g =
      if fits bytes g.max_bytes (g.files 0)
      then g.files
      else (let s = shift (g.backups - 1) g.files in shift_one 0 (s 0) s)

  -- The record that `write` makes of a body.
  abbrev pub sealed : (Body → Option ℕ → Option String → String) → Log Body → Body → Rec Body
  sealed digest g body = record {
    body = body;
    seq = some (g.seq + 1);
    prev = some g.prev_hash;
    hash = some (digest body (some (g.seq + 1)) (some g.prev_hash));
  }

  unfoldable pub write :
      (Body → Option ℕ → Option String → String)
      → (List (Line Body) → ℕ)
      → Log Body
      → Body
      → Log Body
  unfolding rotate
  write digest bytes g body =
      let s = rotate bytes g in
      record g {
        files = put 0 (some (lines (s 0) ++ entry (sealed digest g body) ∷ [])) s;
        seq = g.seq + 1;
        prev_hash = digest body (some (g.seq + 1)) (some g.prev_hash);
      }

  -- The lines of files n to 0, oldest first.
  abbrev pub collect : ℕ → Files Body → List (Line Body)
  collect zero s = lines (s 0)
  collect (suc n) s = lines (s (suc n)) ++ collect n s

-- What `verify_audit_log` returns: (True, last seq), (False, first broken seq), or the KeyError of a record
-- without "seq".
pub data Check : Type 0 where
  valid : ℕ → Check
  broken : ℕ → Check
  key_error : Check

abbrev pub same_text : Option String → Option String → Bool
same_text none none = true
same_text (some a) (some b) = a ≐ b
same_text _ _ = false

abbrev pub seq_or : Option ℕ → ℕ → ℕ
seq_or none n = n
seq_or (some m) n = m

abbrev pub is_seq : Option ℕ → ℕ → Bool
is_seq none n = false
is_seq (some m) n = m == n

module _ {Body : Type 0} (digest : Body → Option ℕ → Option String → String) where
  -- The loop over the lines: whether a record was seen, the hash that the next must name, and the number
  -- of the last.
  unfoldable pub check_lines : Bool → Option String → ℕ → List (Line Body) → Check
  check_lines anchored expected_prev expected_seq [] = valid expected_seq
  check_lines anchored expected_prev expected_seq (blank ∷ rest) =
      check_lines anchored expected_prev expected_seq rest
  check_lines anchored expected_prev expected_seq (garbage ∷ rest) = broken (expected_seq + 1)
  check_lines anchored expected_prev expected_seq (entry r ∷ rest) =
      let linked = same_text r.prev expected_prev && is_seq r.seq (expected_seq + 1) in
      let here = if anchored then expected_seq else seq_or r.seq 1 in
      let intact = same_text r.hash (some (digest r.body r.seq r.prev)) in
      let onward : Check = elim r.seq [
        | none ↦ key_error
        | some n ↦ check_lines true r.hash n rest
      ] in
      if anchored && not linked
      then broken (seq_or r.seq (expected_seq + 1))
      else if intact
      then onward
      else broken (seq_or r.seq (here + 1))

  -- `verify_audit_log`: segments 64 to 1, then the active file.
  unfoldable pub verify_audit_log : Files Body → Check
  unfolding check_lines
  verify_audit_log s = check_lines false none 0 (collect 64 s)

-- One record of the loop of `_load_chain_state`: the best number and its hash.
abbrev pub better : ℕ × String → Option ℕ → Option String → ℕ × String
better best none h = best
better best (some n) none = best
better best (some n) (some h) = if not (h ≐ "") && ltb best.0 n then (n, h) else best

module _ {Body : Type 0} where
  unfoldable pub best_of : List (Line Body) → ℕ × String → ℕ × String
  best_of [] best = best
  best_of (blank ∷ rest) best = best_of rest best
  best_of (garbage ∷ rest) best = best_of rest best
  best_of (entry r ∷ rest) best = best_of rest (better best r.seq r.hash)

  -- `_segment_paths`: the lines of the rotated segments, oldest first
  abbrev pub segment_lines : ℕ → Files Body → List (Line Body)
  segment_lines zero s = []
  segment_lines (suc n) s = lines (s (suc n)) ++ segment_lines n s

  -- `_load_chain_state`: the active file first, then the segments.
  unfoldable pub load_chain_state : Log Body → Log Body
  unfolding best_of
  load_chain_state g =
      let best = best_of (lines (g.files 0) ++ segment_lines g.backups g.files) (0, "") in
      record g { seq = best.0; prev_hash = best.1 }
