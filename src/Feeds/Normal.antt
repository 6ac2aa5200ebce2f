-- ===== src/Feeds/Normal.antt =====
-- The rules that `sanitize_rule_entries` of aegorx/signing/feed.py lets through.
use aegor_x.Prelude.{
  ℕ, ◌≤◌, ◌≡◌, refl, String, false, ◌||◌, Option, none, some, List, [], ◌∷◌, length, min, ◌≐◌, ltb,
  All, arith, Bool-cases, Option-cases, inl, inr,
}
use aegor_x.Json.{
  Json, null, boolean, whole, negative, float, text, array, object, elements, fields_of, list_of,
}
use aegor_x.Feeds.{World, ok, severity_at}
use aegor_x.Feeds.Rules.{
  Rule, max_rule_source_bytes, max_rules_per_feed, rule_of, rules_of, sanitize_rule_entries,
  source_of, agrees, str_at,
}

-- A normalized rule: its digest is that of its source, which is within the cap, and its severity within bounds.
abbrev pub IsRule : World → Rule → Type 0
IsRule w r =
    (r.sha256 ≡ w.digest r.source)
    × (w.size r.source ≤ max_rule_source_bytes)
    × (r.severity ≤ 10)
    × ((r.name ≐ "") ≡ false)
    × (w.len r.name ≤ 128)

pub some_same : {A : Type 0} (a b : A) → some a ≡ some b → b ≡ a
some_same a b h = ground arith

-- What the tests of a rule leave.
built :
    (w : World) (r : Rule) (name source : String) (severity : ℕ)
    → ((name ≐ "") || ltb 128 (w.len name)) ≡ false
    → ltb max_rule_source_bytes (w.size source) ≡ false
    → some (record {
      name = name;
      source = source;
      sha256 = w.digest source;
      severity = min 10 severity;
    })
      ≡ some r
    → IsRule w r
built w r name source severity named small h =
    rw (some_same _ r h) (refl, ground arith, omega arith, ground arith, ground arith)

rule_of-IsRule : (w : World) (x : Json) (r : Rule) → rule_of w x ≡ some r → IsRule w r
unfolding rule_of
rule_of-IsRule w x r h = elim (Option-cases (fields_of x)) [
  | inl e ↦ absurd (ground arith)
  | inr (rec, e) ↦ elim (Option-cases (severity_at w 5 rec)) [
    | inl v ↦ absurd (ground arith)
    | inr (severity, v) ↦
        let name = w.strip (str_at w "name" rec) in
        elim (Bool-cases ((name ≐ "") || ltb 128 (w.len name))) [
          | inl n ↦ absurd (ground arith)
          | inr n ↦ elim (Option-cases (source_of w rec)) [
            | inl s ↦ absurd (ground arith)
            | inr (source, s) ↦ elim (Bool-cases (ltb max_rule_source_bytes (w.size source))) [
              | inl big ↦ absurd (ground arith)
              | inr small ↦
                  elim (Bool-cases (agrees w (w.lower (w.strip (str_at w "sha256" rec))) source)) [
                    | inl same ↦
                        built w r name source severity n small
                          (rw (rule_of, e, v, n, s, small, same) at h)
                    | inr other ↦ absurd (ground arith)
                  ]
            ]
          ]
        ]
  ]
]

rules_of-IsRule :
    (w : World) (xs : List Json) (rs : List Rule)
    → rules_of w xs ≡ some rs
    → All (IsRule w) rs × (length rs ≡ length xs)
unfolding rules_of
rules_of-IsRule w [] rs h = let e : rs ≡ [] = ground arith in rw e (tt, refl)
rules_of-IsRule w (x ∷ xs) rs h = elim (Option-cases (rule_of w x)) [
  | inl e ↦ absurd (ground arith)
  | inr (r, e) ↦ elim (Option-cases (rules_of w xs)) [
    | inl f ↦ absurd (ground arith)
    | inr (rest, f) ↦
        let same : rs ≡ r ∷ rest = ground arith in
        let (good, long) = rules_of-IsRule w xs rest f in
        rw same ((rule_of-IsRule w x r e, good), omega (arith, long))
  ]
]

pub sanitize-IsRule :
    (w : World) (o : Option Json) (rs : List Rule)
    → sanitize_rule_entries w o ≡ ok rs
    → All (IsRule w) rs × (length rs ≤ max_rules_per_feed)
unfolding sanitize_rule_entries list_of
sanitize-IsRule w none rs h = let e : rs ≡ [] = ground arith in rw e (tt, omega arith)
sanitize-IsRule w (some null) rs h = let e : rs ≡ [] = ground arith in rw e (tt, omega arith)
sanitize-IsRule w (some (boolean b)) rs h = absurd (ground arith)
sanitize-IsRule w (some (whole n)) rs h = absurd (ground arith)
sanitize-IsRule w (some (negative n)) rs h = absurd (ground arith)
sanitize-IsRule w (some (float b n)) rs h = absurd (ground arith)
sanitize-IsRule w (some (text s)) rs h = absurd (ground arith)
sanitize-IsRule w (some (object fs)) rs h = absurd (ground arith)
sanitize-IsRule w (some (array xs)) rs h =
    elim (Bool-cases (ltb max_rules_per_feed (length (elements xs)))) [
      | inl long ↦ absurd (ground arith)
      | inr short ↦ elim (Option-cases (rules_of w (elements xs))) [
        | inl e ↦ absurd (ground arith)
        | inr (found, e) ↦
            let same : rs ≡ found = ground arith in
            let (good, long) = rules_of-IsRule w (elements xs) found e in
            rw same (good, ground (arith, long))
      ]
    ]
