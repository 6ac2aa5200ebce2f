-- ===== src/Audit/Resumed.antt =====
-- A log that is opened again (aegorx/realtime/monitor.py, `_load_chain_state`).
use aegor_x.Prelude.{
  ℕ, zero, suc, ◌+◌, ◌-◌, ◌≤◌, ◌<◌, String, ◌≡◌, ◌≢◌, refl, ap, sym, ◌∙◌, Option, some, List, [],
  ◌∷◌, ◌++◌, arith, append_assoc,
}
use aegor_x.Audit.Segments.{
  Rec, Line, blank, garbage, entry, Files, Log, lines, rotate, sealed, write, collect, better,
  best_of, segment_lines, load_chain_state,
}
use aegor_x.Audit.Chain.{Follows, Linked, IsChain, IsLog, Linked-drop, write-IsLog}
use aegor_x.Audit.Verified.{Linked-length, append-ne-nil}

collect-segments :
    {Body : Type 0} (n : ℕ) (s : Files Body) → collect n s ≡ segment_lines n s ++ lines (s 0)
collect-segments zero s = refl
collect-segments (suc n) s =
    rw (collect-segments n s)
      (sym (append_assoc (lines (s (suc n))) (segment_lines n s) (lines (s 0))))

best_of-append :
    {Body : Type 0} (xs ys : List (Line Body)) (best : ℕ × String)
    → best_of (xs ++ ys) best ≡ best_of ys (best_of xs best)
unfolding best_of
best_of-append [] ys best = refl
best_of-append (blank ∷ xs) ys best = best_of-append xs ys best
best_of-append (garbage ∷ xs) ys best = best_of-append xs ys best
best_of-append (entry r ∷ xs) ys best = best_of-append xs ys (better best r.seq r.hash)

module _ {Body : Type 0} (digest : Body → Option ℕ → Option String → String)
    (some_text : (body : Body) (n : Option ℕ) (p : Option String) → digest body n p ≢ "") where
  better-new :
      (r : Rec Body) (n : ℕ) (p : String) (b : ℕ) (hb : String)
      → Follows digest n p r
      → b ≤ n
      → better (b, hb) r.seq r.hash ≡ (n + 1, digest r.body (some (n + 1)) (some p))
  better-new r n p b hb f le =
      let (a, _, c) = f in rw (a, c) (ground (arith, some_text r.body (some (n + 1)) (some p)))

  better-old :
      (r : Rec Body) (n : ℕ) (p : String) (b : ℕ) (hb : String)
      → Follows digest n p r
      → n < b
      → better (b, hb) r.seq r.hash ≡ (b, hb)
  better-old r n p b hb f le = let (a, _, c) = f in rw (a, c) (ground arith)

  -- Going over a chain from where it begins ends where it ends.
  best_of-Linked :
      (ls : List (Line Body)) (n : ℕ) (p : String) (m : ℕ) (q : String)
      → Linked digest n p ls m q
      → best_of ls (n, p) ≡ (m, q)
  unfolding best_of
  best_of-Linked [] n p m q h = rw (h.0, h.1) refl
  best_of-Linked (entry r ∷ ls) n p m q h =
      rw (better-new r n p n p h.0 (omega arith))
        (best_of-Linked ls (n + 1) (digest r.body (some (n + 1)) (some p)) m q h.1)
  best_of-Linked (blank ∷ ls) n p m q h = absurd h
  best_of-Linked (garbage ∷ ls) n p m q h = absurd h

  best_of-first :
      (ls : List (Line Body)) (m : ℕ) (q : String)
      → IsChain digest ls m q
      → ls ≢ []
      → best_of ls (0, "") ≡ (m, q)
  unfolding best_of
  best_of-first [] m q h some_line = absurd (some_line refl)
  best_of-first (entry r ∷ ls) m q h some_line =
      rw (better-new r h.number h.hash 0 "" h.linked.0 (omega arith)) (
        best_of-Linked ls (h.number + 1) (digest r.body (some (h.number + 1)) (some h.hash)) m q
          h.linked.1)
  best_of-first (blank ∷ ls) m q h some_line = absurd h.linked
  best_of-first (garbage ∷ ls) m q h some_line = absurd h.linked

  -- Older records change nothing.
  best_of-older :
      (xs ys : List (Line Body)) (n : ℕ) (p : String) (m : ℕ) (q : String)
      → Linked digest n p (xs ++ ys) m q
      → best_of xs (m, q) ≡ (m, q)
  unfolding best_of
  best_of-older [] ys n p m q h = refl
  best_of-older (entry r ∷ xs) ys n p m q h =
      rw
        (better-old r n p m q h.0 (
          omega (
            arith,
            Linked-length digest (xs ++ ys) (n + 1) (digest r.body (some (n + 1)) (some p)) m q h.1,
          )))
        (best_of-older xs ys (n + 1) (digest r.body (some (n + 1)) (some p)) m q h.1)
  best_of-older (blank ∷ xs) ys n p m q h = absurd h
  best_of-older (garbage ∷ xs) ys n p m q h = absurd h

  best_of-segments :
      (k : ℕ) (s : Files Body) (n : ℕ) (p : String) (m : ℕ) (q : String)
      → Linked digest n p (segment_lines (suc (k - 1)) s ++ lines (s 0)) m q
      → best_of (segment_lines k s) (m, q) ≡ (m, q)
  best_of-segments zero s n p m q h = unfold best_of in refl
  best_of-segments (suc k) s n p m q h =
      let same : suc k - 1 ≡ k = omega arith in
      best_of-older (segment_lines (suc k) s) (lines (s 0)) n p m q (rw same at h)

-- A log that is opened again after a record was written goes on with the number and the hash of that record,
-- as if it had not been closed, where no digest is the empty text.
pub load_chain_state-write :
    {Body : Type 0} (digest : Body → Option ℕ → Option String → String)
    (bytes : List (Line Body) → ℕ) (g : Log Body) (body : Body)
    → ((b : Body) (n : Option ℕ) (p : Option String) → digest b n p ≢ "")
    → IsLog digest g
    → load_chain_state (record (write digest bytes g body) { seq = 0; prev_hash = "" })
      ≡ write digest bytes g body
unfolding load_chain_state write
load_chain_state-write digest bytes g body some_text h =
    let w = write digest bytes g body in
    let c = (write-IsLog digest bytes g body h).chain in
    let top = suc (g.backups - 1) in
    let linked : Linked digest c.number c.hash (segment_lines top w.files ++ lines (w.files 0))
        w.seq w.prev_hash =
      rw (collect-segments top w.files) at c.linked in
    let active =
      Linked-drop digest (segment_lines top w.files) (lines (w.files 0)) c.number c.hash w.seq
        w.prev_hash linked in
    let newest =
      best_of-first digest some_text (lines (w.files 0)) w.seq w.prev_hash active
        (append-ne-nil (lines (rotate bytes g 0)) (entry (sealed digest g body)) []) in
    let best : best_of (lines (w.files 0) ++ segment_lines w.backups w.files) (0, "")
        ≡ (w.seq, w.prev_hash) =
      best_of-append (lines (w.files 0)) (segment_lines w.backups w.files) (0, "")
      ∙ ap (best_of (segment_lines w.backups w.files)) newest
      ∙ best_of-segments digest some_text w.backups w.files c.number c.hash w.seq w.prev_hash
          linked in
    ap (λ (x : ℕ × String). record w { seq = x.0; prev_hash = x.1 }) best
