-- ===== src/Feeds/Stored.antt =====
-- What `aegorx feed update` (aegorx/cli.py, `cmd_feed`, over aegorx/signing/feed.py) leaves in the signature database.
use aegor_x.Prelude.{
  ℕ, ◌≡◌, inl, inr, refl, Bool, Option, none, some, List, [], ◌∷◌, arith, Option-cases,
}
use aegor_x.Json.{Json, Fields}
use aegor_x.Signatures.{Row}
use aegor_x.Signatures.Laws.{IsTable, add-IsTable}
use aegor_x.Feeds.{
  World, Outcome, ok, bad, crash, apply_entries, apply_feed, entry_of, passed, raised, entered,
  Entry, signatures_of,
}
use aegor_x.Feeds.Rules.{Compiler}
use aegor_x.Feeds.Update.{Machine, with_rules, apply_document, examine, update}

module _ (w : World) (now : ℕ) where
  entry-IsTable :
      (x : Json) (xs : List Json) (rows : List Row) (n : ℕ) (c : Entry)
      → entry_of w x ≡ c
      → IsTable rows
      → ((rows : List Row) (n : ℕ) → IsTable rows → IsTable (apply_entries w now xs rows n).0)
      → IsTable (apply_entries w now (x ∷ xs) rows n).0
  unfolding apply_entries
  entry-IsTable x xs rows n passed e h rest = rw (apply_entries, e) (rest rows n h)
  entry-IsTable x xs rows n raised e h rest = rw (apply_entries, e) h
  entry-IsTable x xs rows n (entered row) e h rest =
      rw (apply_entries, e) (rest _ _ (add-IsTable w.database now row rows h))

  apply_entries-IsTable :
      (xs : List Json) (rows : List Row) (n : ℕ)
      → IsTable rows
      → IsTable (apply_entries w now xs rows n).0
  unfolding apply_entries
  apply_entries-IsTable [] rows n h = h
  apply_entries-IsTable (x ∷ xs) rows n h =
      entry-IsTable x xs rows n (entry_of w x) refl h (apply_entries-IsTable xs)

  apply_feed-IsTable :
      (fs : Fields) (rows : List Row) → IsTable rows → IsTable (apply_feed w now fs rows).0
  unfolding apply_feed
  apply_feed-IsTable fs rows h = elim (Option-cases (signatures_of fs)) [
    | inl e ↦ rw (apply_feed, e) h
    | inr (xs, e) ↦ rw (apply_feed, e) (apply_entries-IsTable xs rows 0 h)
  ]

  rows-with_rules :
      (y : Compiler) (fs : Fields) (added : ℕ) (m : Machine)
      → (with_rules w y fs added m).0.rows ≡ m.rows
  rows-with_rules y fs added m = ground arith

  rows-apply_document :
      (y : Compiler) (fs : Fields) (m : Machine)
      → (apply_document w y now fs m).0.rows ≡ (apply_feed w now fs m.rows).0
  rows-apply_document y fs m = this (apply_feed w now fs m.rows).1 refl
    where
      this :
          (c : Outcome ℕ)
          → (apply_feed w now fs m.rows).1 ≡ c
          → (apply_document w y now fs m).0.rows ≡ (apply_feed w now fs m.rows).0
      this (ok added) e = rw (apply_document, e) (rows-with_rules y fs added _)
      this (bad p) e = rw (apply_document, e) refl
      this crash e = rw (apply_document, e) refl

-- However an update ends, also in an exception half way through the entries, the database keeps one row for each
-- digest, and every severity within bounds.
pub update-IsTable :
    (w : World) (y : Compiler) (now : ℕ) (allow_expired force : Bool) (doc : Json) (m : Machine)
    → IsTable m.rows
    → IsTable (update w y now allow_expired force doc m).0.rows
unfolding update
update-IsTable w y now allow_expired force doc m h =
    this (examine w now allow_expired force doc m.last) refl
  where
    this :
        (c : Outcome (Option Fields))
        → examine w now allow_expired force doc m.last ≡ c
        → IsTable (update w y now allow_expired force doc m).0.rows
    this (ok none) e = rw (update, e) h
    this (bad p) e = rw (update, e) h
    this crash e = rw (update, e) h
    this (ok (some fs)) e =
        rw (update, e, rows-apply_document w now y fs m) (apply_feed-IsTable w now fs m.rows h)
