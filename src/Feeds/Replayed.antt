-- ===== src/Feeds/Replayed.antt =====
-- What `aegorx feed update` (aegorx/cli.py, `cmd_feed`, over aegorx/signing/feed.py) applies a second time.
use aegor_x.Prelude.{
  ℕ, ◌≤◌, ◌≡◌, ◌≢◌, inl, inr, refl, sym, ap, Bool, true, false, Option, none, some, ltb, leb,
  leb→le, arith, Bool-cases, Option-cases,
}
use mathlib.Core.Bool.{false≢true}
use aegor_x.Json.{Json, Fields, get, fields_of, is_true}
use aegor_x.Feeds.{
  World, Outcome, ok, bad, crash, check_replay, record_applied, generated_of, apply_feed,
}
use aegor_x.Feeds.Rules.{Compiler, Summary, install_rules}
use aegor_x.Feeds.Update.{Machine, applied, recorded, with_rules, apply_document, examine, update}
use aegor_x.Feeds.Accepted.{ok_same, examine-IsPassed, update-IsPassed, parse_utc-some}

-- `datetime.fromisoformat` reads no time of a value that is false, such as the empty text.
abbrev pub IsClock : World → Type 0
IsClock w = (j : Json) → is_true j ≡ false → w.parse_utc j ≡ none

-- A time that is recorded as the last, and is not before the given one.
pub record IsLast (w : World) (t : ℕ) (last : Option Json) : Type 0 where
  pub raw : Json
  pub time : ℕ
  pub is_there : last ≡ some raw
  pub is_set : is_true raw ≡ true
  pub parses : w.parse_utc raw ≡ some time
  pub later : t ≤ time

generated_of-IsLast :
    (w : World) (fs : Fields) (t : ℕ)
    → IsClock w
    → generated_of w fs ≡ ok t
    → IsLast w t (get "generated_utc" fs)
generated_of-IsLast w fs t clock h = elim (Option-cases (get "generated_utc" fs)) [
  | inl e ↦ absurd (ground arith)
  | inr (j, e) ↦ elim (Option-cases (w.parse_utc j)) [
    | inl p ↦ absurd (ground arith)
    | inr (k, p) ↦
        let same : k ≡ t = ground arith in
        record {
          raw = j;
          time = k;
          is_there = e;
          is_set = elim (Bool-cases (is_true j)) [
            | inl y ↦ y
            | inr n ↦ absurd (ground (arith, clock j n))
          ];
          parses = p;
          later = omega (arith, same);
        }
  ]
]

record_applied-IsLast :
    (w : World) (fs : Fields) (last next : Option Json) (t : ℕ)
    → IsClock w
    → generated_of w fs ≡ ok t
    → record_applied w fs last ≡ ok next
    → IsLast w t next
unfolding record_applied
record_applied-IsLast w fs none next t clock g h =
    let same : next ≡ get "generated_utc" fs = ok_same _ next (rw (record_applied, g) at h) in
    rw same (generated_of-IsLast w fs t clock g)
record_applied-IsLast w fs (some j) next t clock g h = elim (Bool-cases (is_true j)) [
  | inr unset ↦
      let same : next ≡ get "generated_utc" fs =
        ok_same _ next (rw (record_applied, g, unset) at h) in
      rw same (generated_of-IsLast w fs t clock g)
  | inl set ↦ elim (Option-cases (w.parse_utc j)) [
    | inl p ↦ absurd (ground arith)
    | inr (k, p) ↦
        let parsed = parse_utc-some w j k p in
        elim (Bool-cases (leb t k)) [
          | inl le ↦
              let same : next ≡ some j =
                ok_same _ next (rw (record_applied, g, set, parsed, le) at h) in
              record {
                raw = j;
                time = k;
                is_there = same;
                is_set = set;
                parses = p;
                later = leb→le t k le;
              }
          | inr gt ↦
              let same : next ≡ get "generated_utc" fs =
                ok_same _ next (rw (record_applied, g, set, parsed, gt) at h) in
              rw same (generated_of-IsLast w fs t clock g)
        ]
  ]
]

-- Without force, a feed that is not generated after the time that was recorded last is not newer.
check_replay-IsLast :
    (w : World) (fs : Fields) (last : Option Json) (t u : ℕ)
    → IsLast w t last
    → generated_of w fs ≡ ok u
    → u ≤ t
    → check_replay w false fs last ≢ ok true
unfolding check_replay
check_replay-IsLast w fs last t u l g le h =
    let old : ltb l.time u ≡ false = ground (arith, l.later) in
    let parsed = parse_utc-some w l.raw l.time l.parses in
    false≢true (sym (ok_same _ _ (rw (check_replay, g, l.is_there, l.is_set, parsed, old) at h)))

module _ (w : World) (y : Compiler) (fs : Fields) (t : ℕ) (clock : IsClock w)
    (g : generated_of w fs ≡ ok t) where
  recorded-IsLast :
      (m n : Machine) (added a : ℕ) (summary r : Summary) (c : Outcome (Option Json))
      → record_applied w fs m.last ≡ c
      → recorded w fs added summary m ≡ (n, applied a (some r))
      → IsLast w t n.last
  recorded-IsLast m n added a summary r (bad p) e h = absurd (ground arith)
  recorded-IsLast m n added a summary r crash e h = absurd (ground arith)
  recorded-IsLast m n added a summary r (ok last) e h =
      let same : n ≡ record m { last = last } = sym (ap (λ x. x.0) (rw (recorded, e) at h)) in
      rw same (record_applied-IsLast w fs m.last last t clock g e)

  with_rules-IsLast :
      (m n : Machine) (added a : ℕ) (r : Summary)
      → with_rules w y fs added m ≡ (n, applied a (some r))
      → IsLast w t n.last
  with_rules-IsLast m n added a r h =
      elim (Option-cases (install_rules w y (get "rules" fs) m.rules).1) [
        | inl e ↦ absurd (ground arith)
        | inr (summary, e) ↦
            recorded-IsLast _ n added a summary r (record_applied w fs m.last) refl
              (rw (with_rules, e) at h)
      ]

  apply_document-IsLast :
      (now : ℕ) (m n : Machine) (a : ℕ) (r : Summary) (c : Outcome ℕ)
      → (apply_feed w now fs m.rows).1 ≡ c
      → apply_document w y now fs m ≡ (n, applied a (some r))
      → IsLast w t n.last
  apply_document-IsLast now m n a r (bad p) e h = absurd (ground arith)
  apply_document-IsLast now m n a r crash e h = absurd (ground arith)
  apply_document-IsLast now m n a r (ok added) e h =
      with_rules-IsLast _ n added a r (rw (apply_document, e) at h)

-- An update that installs rules ends with the time of its document, or a later one, as the last.
applied-IsLast :
    (w : World) (y : Compiler) (now t : ℕ) (allow_expired force : Bool) (doc : Json) (fs : Fields)
    (m n : Machine) (added : ℕ) (summary : Summary)
    → IsClock w
    → fields_of doc ≡ some fs
    → generated_of w fs ≡ ok t
    → update w y now allow_expired force doc m ≡ (n, applied added (some summary))
    → IsLast w t n.last
unfolding update
applied-IsLast w y now t allow_expired force doc fs m n added summary clock d g h =
    this (examine w now allow_expired force doc m.last) refl
  where
    this :
        (c : Outcome (Option Fields))
        → examine w now allow_expired force doc m.last ≡ c
        → IsLast w t n.last
    this (ok none) e = absurd (ground arith)
    this (bad p) e = absurd (ground arith)
    this crash e = absurd (ground arith)
    this (ok (some gs)) e =
        let accepted = examine-IsPassed w now allow_expired force doc m.last gs e in
        let same : gs ≡ fs = ground (arith, accepted.is_dict) in
        apply_document-IsLast w y fs t clock g now m n added summary (apply_feed w now fs m.rows).1
          refl (rw same at (rw (update, e) at h))

-- After a feed was applied with its rules, no feed that was generated then or before changes the machine without
-- force, whenever it is tried and whether expired feeds are allowed.
pub update-replayed :
    (w : World) (y : Compiler) (now later t u : ℕ) (allow_expired allowed force : Bool)
    (doc again : Json) (fs gs : Fields) (m n : Machine) (added : ℕ) (summary : Summary)
    → IsClock w
    → fields_of doc ≡ some fs
    → generated_of w fs ≡ ok t
    → update w y now allow_expired force doc m ≡ (n, applied added (some summary))
    → fields_of again ≡ some gs
    → generated_of w gs ≡ ok u
    → u ≤ t
    → (update w y later allowed false again n).0 ≡ n
update-replayed w y now later t u allow_expired allowed force doc again fs gs m n added summary
      clock d g h e k le =
    let last = applied-IsLast w y now t allow_expired force doc fs m n added summary clock d g h in
    elim (update-IsPassed w y later allowed false again n) [
      | inl same ↦ same
      | inr (found, accepted) ↦
          let same : found ≡ gs = ground (arith, accepted.is_dict) in
          absurd (check_replay-IsLast w gs n.last t u last k le (rw same at accepted.newer))
    ]
