-- ===== src/Audit/Verified.antt =====
-- What `verify_audit_log` (aegorx/realtime/monitor.py) accepts: a log as `write` leaves it, and also one whose
-- last records have been removed.
use aegor_x.Prelude.{
  ℕ, zero, suc, ◌+◌, ◌-◌, ◌≤◌, ◌<◌, String, ◌≡◌, ◌≢◌, refl, ap, inl, inr, sym, ◌∙◌, true, false,
  Option, none, some, List, [], ◌∷◌, ◌++◌, arith, length, append_assoc,
}
use aegor_x.Audit.Segments.{
  Rec, Line, blank, garbage, entry, Files, Log, put, lines, rotate, sealed, write, collect, valid,
  check_lines, verify_audit_log,
}
use aegor_x.Audit.Rotation.{same_or_not, collect-same, put_ne, collect-snoc}
use aegor_x.Audit.Chain.{Linked, IsChain, IsLog, write-IsLog}

module _ {Body : Type 0} (digest : Body → Option ℕ → Option String → String) where
  check_lines-Linked :
      (ls : List (Line Body)) (n : ℕ) (p : String) (m : ℕ) (q : String)
      → Linked digest n p ls m q
      → check_lines digest true (some p) n ls ≡ valid m
  unfolding check_lines
  check_lines-Linked [] n p m q h = ap valid h.0
  check_lines-Linked (entry r ∷ ls) n p m q h =
      let (a, b, c) = h.0 in
      rw (a, b, c, check_lines)
        (ground
          (arith, check_lines-Linked ls (n + 1) (digest r.body (some (n + 1)) (some p)) m q h.1))
  check_lines-Linked (blank ∷ ls) n p m q h = absurd h
  check_lines-Linked (garbage ∷ ls) n p m q h = absurd h

  -- The first record is taken as it is.
  check_lines-first :
      (r : Rec Body) (ls : List (Line Body)) (n : ℕ) (p : String) (m : ℕ) (q : String)
      → Linked digest n p (entry r ∷ ls) m q
      → check_lines digest false none 0 (entry r ∷ ls) ≡ valid m
  unfolding check_lines
  check_lines-first r ls n p m q h =
      let (a, b, c) = h.0 in
      rw (a, b, c, check_lines)
        (ground
          (arith, check_lines-Linked ls (n + 1) (digest r.body (some (n + 1)) (some p)) m q h.1))

  -- A chain with a line is accepted.
  check_lines-IsChain :
      (ls : List (Line Body)) (m : ℕ) (q : String)
      → IsChain digest ls m q
      → ls ≢ []
      → check_lines digest false none 0 ls ≡ valid m
  check_lines-IsChain [] m q h some_line = absurd (some_line refl)
  check_lines-IsChain (entry r ∷ ls) m q h some_line =
      check_lines-first r ls h.number h.hash m q h.linked
  check_lines-IsChain (blank ∷ ls) m q h some_line = absurd h.linked
  check_lines-IsChain (garbage ∷ ls) m q h some_line = absurd h.linked

  pub Linked-length :
      (ls : List (Line Body)) (n : ℕ) (p : String) (m : ℕ) (q : String)
      → Linked digest n p ls m q
      → n + length ls ≡ m
  Linked-length [] n p m q h = omega (arith, h.0)
  Linked-length (entry r ∷ ls) n p m q h =
      omega (arith, Linked-length ls (n + 1) (digest r.body (some (n + 1)) (some p)) m q h.1)
  Linked-length (blank ∷ ls) n p m q h = absurd h
  Linked-length (garbage ∷ ls) n p m q h = absurd h

  -- The front of a chain is a chain.
  Linked-take :
      (xs ys : List (Line Body)) (n : ℕ) (p : String) (m : ℕ) (q : String)
      → Linked digest n p (xs ++ ys) m q
      → (k : String) × Linked digest n p xs (m - length ys) k
  Linked-take [] ys n p m q h = (p, (omega (arith, Linked-length ys n p m q h), refl))
  Linked-take (entry r ∷ xs) ys n p m q h =
      let (k, rest) = Linked-take xs ys (n + 1) (digest r.body (some (n + 1)) (some p)) m q h.1 in
      (k, (h.0, rest))
  Linked-take (blank ∷ xs) ys n p m q h = absurd h
  Linked-take (garbage ∷ xs) ys n p m q h = absurd h

collect-above :
    {Body : Type 0} (n t : ℕ) (s : Files Body)
    → t ≤ n
    → ((j : ℕ) → t < j → s j ≡ none)
    → collect n s ≡ collect t s
collect-above zero t s le h = elim (same_or_not 0 t) [
  | inl same ↦ rw⁻¹ same refl
  | inr other ↦ absurd (omega arith)
]
collect-above (suc n) t s le h = elim (same_or_not (suc n) t) [
  | inl same ↦ rw⁻¹ same refl
  | inr other ↦ rw (h (suc n) (omega arith)) (collect-above n t s (omega arith) h)
]

pub append-ne-nil : {A : Type 0} (xs : List A) (x : A) (ys : List A) → xs ++ x ∷ ys ≢ []
append-ne-nil [] x ys e = cc
append-ne-nil (z ∷ xs) x ys e = cc

put_same :
    {Body : Type 0} (l : List (Line Body)) (s : Files Body) (k : ℕ)
    → s 0 ≡ some l
    → s k ≡ put 0 (some l) s k
put_same l s k h = elim (same_or_not k 0) [
  | inl zero' ↦ rw (zero', h) refl
  | inr other ↦ sym (put_ne 0 k (some l) s other)
]

collect-put_zero :
    {Body : Type 0} (n : ℕ) (l : List (Line Body)) (s : Files Body)
    → collect n (put 0 (some l) s) ≡ collect n (put 0 none s) ++ l
collect-put_zero zero l s = refl
collect-put_zero (suc n) l s =
    rw
      (
        put_ne 0 (suc n) (some l) s (λ e. omega arith),
        put_ne 0 (suc n) none s (λ e. omega arith),
        collect-put_zero n l s,
      )
      (sym (append_assoc (lines (s (suc n))) (collect n (put 0 none s)) l))

module _ {Body : Type 0} (digest : Body → Option ℕ → Option String → String) where
  verify-IsLog :
      (g : Log Body)
      → IsLog digest g
      → collect (suc (g.backups - 1)) g.files ≢ []
      → verify_audit_log digest g.files ≡ valid g.seq
  unfolding verify_audit_log
  verify-IsLog g h some_line =
      rw (collect-above 64 (suc (g.backups - 1)) g.files (omega (arith, h.reached)) h.above) (
        check_lines-IsChain digest (collect (suc (g.backups - 1)) g.files) g.seq g.prev_hash h.chain
          some_line)

-- After any record has been written to a log, through whatever rotation, `verify_audit_log` accepts the files
-- up to that record's number.
pub verify_audit_log-write :
    {Body : Type 0} (digest : Body → Option ℕ → Option String → String)
    (bytes : List (Line Body) → ℕ) (g : Log Body) (body : Body)
    → IsLog digest g
    → verify_audit_log digest (write digest bytes g body).files ≡ valid (g.seq + 1)
unfolding write
verify_audit_log-write digest bytes g body h =
    let top = suc (g.backups - 1) in
    let written = collect-snoc top (entry (sealed digest g body)) (rotate bytes g) in
    verify-IsLog digest (write digest bytes g body) (write-IsLog digest bytes g body h)
      (rw written (append-ne-nil (collect top (rotate bytes g)) (entry (sealed digest g body)) []))

-- A log whose last records have been removed from the active file is accepted as well, as long as one is
-- left in it, up to the number of the last one left.
pub verify_audit_log-truncated :
    {Body : Type 0} (digest : Body → Option ℕ → Option String → String) (g : Log Body)
    (x : Line Body) (kept removed : List (Line Body))
    → IsLog digest g
    → g.files 0 ≡ some (x ∷ kept ++ removed)
    → verify_audit_log digest (put 0 (some (x ∷ kept)) g.files) ≡ valid (g.seq - length removed)
verify_audit_log-truncated digest g x kept removed h active =
    let top = suc (g.backups - 1) in
    let front = collect top (put 0 none g.files) in
    let whole : collect top g.files ≡ (front ++ x ∷ kept) ++ removed =
      collect-same top g.files (put 0 (some (x ∷ kept ++ removed)) g.files)
        (λ k le. put_same (x ∷ kept ++ removed) g.files k active)
      ∙ collect-put_zero top (x ∷ kept ++ removed) g.files
      ∙ sym (append_assoc front (x ∷ kept) removed) in
    let rest = collect-put_zero top (x ∷ kept) g.files in
    let (last, linked) =
      Linked-take digest (front ++ x ∷ kept) removed h.chain.number h.chain.hash g.seq g.prev_hash
        (rw whole at h.chain.linked) in
    let cut = record g {
      files = put 0 (some (x ∷ kept)) g.files;
      seq = g.seq - length removed;
      prev_hash = last;
    } in
    verify-IsLog digest cut
      (record {
        chain = rw rest (record { number = h.chain.number; hash = h.chain.hash; linked = linked });
        above = λ k le. put_ne 0 k (some (x ∷ kept)) g.files (omega arith) ∙ h.above k le;
        reached = h.reached;
      })
      (rw rest (append-ne-nil front x kept))
