-- ===== src/Feeds/Synced.antt =====
-- What `install_rules` of aegorx/rules_store.py leaves in the directory of rules.
use aegor_x.Prelude.{
  ◌≤◌, ◌≡◌, refl, sym, ap, ◌∙◌, String, String_discrete, Option, none, some, List, [], ◌∷◌, length,
  ltb, lookup, insert, lookup-insert, ite, All, arith, Bool-cases, Option-cases, inl, inr,
}
use aegor_x.Json.{Json}
use aegor_x.Feeds.{World, Outcome, ok, bad, crash}
use aegor_x.Feeds.Rules.{
  Rule, RuleStore, Compiler, Summary, max_rule_source_bytes, max_rules_per_feed,
  max_total_rule_bytes, sanitize_rule_entries, desired_from, desired_of, keep, replace_all, sync,
  install_rules, total_bytes, compiles,
}
use aegor_x.Feeds.Normal.{IsRule, some_same, sanitize-IsRule}

abbrev pub source_in : Option Rule → Option String
source_in none = none
source_in (some r) = some r.source

lookup-replace_all :
    (f : String) (d : List (String × Rule)) (files : List (String × String))
    → lookup String_discrete f (replace_all d files)
      ≡ elim (lookup String_discrete f d) as (λ _. Option String) [
        | none ↦ lookup String_discrete f files
        | some r ↦ some r.source
      ]
unfolding lookup
lookup-replace_all f [] files = refl
lookup-replace_all f ((g, r) ∷ d) files = ground (
  arith,
  lookup-insert String_discrete f g r.source (replace_all d files),
  lookup-replace_all f d files,
)

lookup-keep :
    (f : String) (d : List (String × Rule)) (files : List (String × String))
    → lookup String_discrete f d ≡ none
    → lookup String_discrete f (keep d files) ≡ none
unfolding lookup
lookup-keep f d [] h = refl
lookup-keep f d ((g, s) ∷ files) h = ground (arith, lookup-keep f d files h)

-- The directory is exactly what is desired, whatever was in it.
files-sync :
    (y : Compiler) (rs : List Rule) (s : RuleStore) (f : String)
    → lookup String_discrete f (sync y rs s).0.files
      ≡ source_in (lookup String_discrete f (desired_of y rs))
unfolding sync
files-sync y rs s f =
    let d = desired_of y rs in
    lookup-replace_all f d (keep d s.files) ∙ (elim (Option-cases (lookup String_discrete f d)) [
      | inl e ↦ rw e (lookup-keep f d s.files e)
      | inr (r, e) ↦ rw e refl
    ])

-- The files that are desired: each is named by the digest of its rule.
IsDesired : World → Compiler → String × Rule → Type 0
IsDesired w y (f, r) = (f ≡ y.file_of r.sha256) × IsRule w r

pick-All :
    (P : String × Rule → Type 0) (f : String) (r : Rule) (g : String) (q : Rule)
    (d : List (String × Rule)) (c : Dec (g ≡ f))
    → All P ((f, r) ∷ d)
    → All P ((g, q) ∷ insert String_discrete f r d)
    → All P (ite c ((f, r) ∷ d) ((g, q) ∷ insert String_discrete f r d))
pick-All P f r g q d (yes e) h k = h
pick-All P f r g q d (no n) h k = k

insert-All :
    (P : String × Rule → Type 0) (f : String) (r : Rule) (d : List (String × Rule))
    → P (f, r)
    → All P d
    → All P (insert String_discrete f r d)
unfolding insert
insert-All P f r [] p h = (p, tt)
insert-All P f r ((g, q) ∷ d) p h =
    pick-All P f r g q d (String_discrete g f) (p, h.1) (h.0, insert-All P f r d p h.1)

desired_from-IsDesired :
    (w : World) (y : Compiler) (rs : List Rule) (d : List (String × Rule))
    → All (IsRule w) rs
    → All (IsDesired w y) d
    → All (IsDesired w y) (desired_from y rs d)
unfolding IsDesired
desired_from-IsDesired w y [] d h k = k
desired_from-IsDesired w y (r ∷ rs) d h k =
    desired_from-IsDesired w y rs _ h.1
      (insert-All (IsDesired w y) (y.file_of r.sha256) r d (refl, h.0) k)

lookup-All :
    (P : String × Rule → Type 0) (f : String) (r : Rule) (d : List (String × Rule))
    → All P d
    → lookup String_discrete f d ≡ some r
    → P (f, r)
unfolding lookup
lookup-All P f r [] h e = absurd (ground arith)
lookup-All P f r ((g, q) ∷ d) h e = this (String_discrete g f) (lookup-All P f r d h.1) e
  where
    this :
        (c : Dec (g ≡ f))
        → (lookup String_discrete f d ≡ some r → P (f, r))
        → ite c (some q) (lookup String_discrete f d) ≡ some r
        → P (f, r)
    this (yes same) rest k = rw (some_same q r k, sym same) h.0
    this (no n) rest k = rest k

installed :
    (w : World) (y : Compiler) (o : Option Json) (s t : RuleStore) (summary : Summary)
    (c : Outcome (List Rule))
    → sanitize_rule_entries w o ≡ c
    → install_rules w y o s ≡ (t, some summary)
    → (rs : List Rule) × (c ≡ ok rs) × (t ≡ (sync y rs s).0)
unfolding install_rules
installed w y o s t summary (bad p) e h = absurd (ground arith)
installed w y o s t summary crash e h = absurd (ground arith)
installed w y o s t summary (ok rs) e h =
    elim (Bool-cases (ltb max_total_rule_bytes (total_bytes w rs))) [
      | inl big ↦ absurd (ground arith)
      | inr small ↦ elim (Bool-cases (compiles y rs)) [
        | inl good ↦ (rs, refl, sym (ap (λ x. x.0) (rw (install_rules, e, small, good) at h)))
        | inr broken ↦ absurd (ground arith)
      ]
    ]

named :
    (w : World) (y : Compiler) (f source : String) (d : List (String × Rule))
    → All (IsDesired w y) d
    → source_in (lookup String_discrete f d) ≡ some source
    → (f ≡ y.file_of (w.digest source)) × (w.size source ≤ max_rule_source_bytes)
unfolding IsDesired
named w y f source d h e = elim (Option-cases (lookup String_discrete f d)) [
  | inl k ↦ absurd (ground arith)
  | inr (r, k) ↦
      let (file, rule) = lookup-All (IsDesired w y) f r d h k in
      let same : r.source ≡ source = ground arith in
      (file ∙ ap y.file_of (rule.0 ∙ ap w.digest same), rw (sym same) rule.1)
]

-- After rules were installed, the directory holds exactly the files that are desired of the normalized rules, of
-- which there are at most 500; each is named by the digest of its text, whatever stood there before.
pub install_rules-files :
    (w : World) (y : Compiler) (o : Option Json) (s t : RuleStore) (summary : Summary)
    → install_rules w y o s ≡ (t, some summary)
    → (rs : List Rule) × (sanitize_rule_entries w o ≡ ok rs)
      × (length rs ≤ max_rules_per_feed)
      × ((f : String)
          → lookup String_discrete f t.files
            ≡ source_in (lookup String_discrete f (desired_of y rs)))
      × ((f source : String)
          → lookup String_discrete f t.files ≡ some source
          → (f ≡ y.file_of (w.digest source)) × (w.size source ≤ max_rule_source_bytes))
install_rules-files w y o s t summary h =
    let (rs, e, same) = installed w y o s t summary (sanitize_rule_entries w o) refl h in
    let (good, few) = sanitize-IsRule w o rs e in
    let desired = desired_from-IsDesired w y rs [] good tt in
    let exact : (f : String)
        → lookup String_discrete f t.files
          ≡ source_in (lookup String_discrete f (desired_of y rs)) =
      λ f. rw same (files-sync y rs s f) in
    (
      rs,
      e,
      few,
      exact,
      λ f source k. named w y f source (desired_of y rs) desired (sym (exact f) ∙ k),
    )
