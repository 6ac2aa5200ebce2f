-- ===== src/Audit/Chain.antt =====
-- The hash chain of the audit log (aegorx/realtime/monitor.py): writing keeps it through every rotation, and
-- `verify_audit_log` accepts it.
use aegor_x.Prelude.{
  ℕ, suc, ◌+◌, ◌-◌, ◌≤◌, ◌<◌, String, ◌≡◌, refl, ◌∙◌, inl, inr, Option, none, some, List, [], ◌∷◌,
  ◌++◌, arith,
}
use aegor_x.Audit.Segments.{
  Rec, Line, blank, garbage, entry, Log, lines, rotate, sealed, write, collect,
}
use aegor_x.Audit.Rotation.{rotate-Loses, rotate-above, collect-snoc, put_ne}

module _ {Body : Type 0} (digest : Body → Option ℕ → Option String → String) where
  -- The record is the one that `write` makes after the number n and the hash p.
  abbrev pub Follows : ℕ → String → Rec Body → Type 0
  Follows n p r =
      (r.seq ≡ some (n + 1))
      × (r.prev ≡ some p)
      × (r.hash ≡ some (digest r.body (some (n + 1)) (some p)))

  -- The lines are records that follow each other from the number n and the hash p on, up to the number m and
  -- the hash q.
  abbrev pub Linked : ℕ → String → List (Line Body) → ℕ → String → Type 0
  Linked n p [] m q = (n ≡ m) × (p ≡ q)
  Linked n p (entry r ∷ rest) m q =
      Follows n p r × Linked (n + 1) (digest r.body (some (n + 1)) (some p)) rest m q
  Linked n p (blank ∷ rest) m q = ⊥
  Linked n p (garbage ∷ rest) m q = ⊥

  -- Lines that follow each other from somewhere, up to the log's number and hash.
  pub record IsChain (ls : List (Line Body)) (m : ℕ) (q : String) : Type 0 where
    pub number : ℕ
    pub hash : String
    pub linked : Linked number hash ls m q

  pub Linked-drop :
      (xs ys : List (Line Body)) (n : ℕ) (p : String) (m : ℕ) (q : String)
      → Linked n p (xs ++ ys) m q
      → IsChain ys m q
  Linked-drop [] ys n p m q h = record { number = n; hash = p; linked = h }
  Linked-drop (entry r ∷ xs) ys n p m q h =
      Linked-drop xs ys (n + 1) (digest r.body (some (n + 1)) (some p)) m q h.1
  Linked-drop (blank ∷ xs) ys n p m q h = absurd h
  Linked-drop (garbage ∷ xs) ys n p m q h = absurd h

  Linked-snoc :
      (ls : List (Line Body)) (r : Rec Body) (n : ℕ) (p : String) (m : ℕ) (q : String)
      → Linked n p ls m q
      → Follows m q r
      → Linked n p (ls ++ entry r ∷ []) (m + 1) (digest r.body (some (m + 1)) (some q))
  Linked-snoc [] r n p m q h f = rw (h.0, h.1) (f, (refl, refl))
  Linked-snoc (entry x ∷ ls) r n p m q h f =
      (h.0, Linked-snoc ls r (n + 1) (digest x.body (some (n + 1)) (some p)) m q h.1 f)
  Linked-snoc (blank ∷ ls) r n p m q h f = absurd h
  Linked-snoc (garbage ∷ ls) r n p m q h f = absurd h

  -- The files of a log are a chain that ends where the log goes on, and there is nothing above its oldest
  -- segment, which `verify_audit_log` reaches.
  pub record IsLog (g : Log Body) : Type 0 where
    pub chain : IsChain (collect (suc (g.backups - 1)) g.files) g.seq g.prev_hash
    pub above : (k : ℕ) → suc (g.backups - 1) < k → g.files k ≡ none
    pub reached : g.backups ≤ 64

  rotate-IsChain :
      (bytes : List (Line Body) → ℕ) (g : Log Body)
      → IsLog g
      → IsChain (collect (suc (g.backups - 1)) (rotate bytes g)) g.seq g.prev_hash
  rotate-IsChain bytes g h = elim (rotate-Loses bytes g) [
    | inl e ↦ rw e h.chain
    | inr e ↦
        Linked-drop (lines (g.files (suc (g.backups - 1))))
          (collect (suc (g.backups - 1)) (rotate bytes g)) h.chain.number h.chain.hash g.seq
          g.prev_hash (rw e at h.chain.linked)
  ]

  -- Writing a record keeps the log a chain, whether the files are rotated for it or not.
  pub write-IsLog :
      (bytes : List (Line Body) → ℕ) (g : Log Body) (body : Body)
      → IsLog g
      → IsLog (write digest bytes g body)
  unfolding write
  write-IsLog bytes g body h =
      let top = suc (g.backups - 1) in
      let s = rotate bytes g in
      let c = rotate-IsChain bytes g h in
      record {
        chain = rw (collect-snoc top (entry (sealed digest g body)) s) (record {
          number = c.number;
          hash = c.hash;
          linked =
              Linked-snoc (collect top s) (sealed digest g body) c.number c.hash g.seq g.prev_hash
                c.linked (refl, refl, refl);
        });
        above = λ k le.
            put_ne 0 k (some (lines (s 0) ++ entry (sealed digest g body) ∷ [])) s (omega arith)
            ∙ rotate-above bytes g k le
            ∙ h.above k le;
        reached = h.reached;
      }
