-- ===== src/Policy/Saved.antt =====
-- What `validate_policy` of aegorx/policy.py returns is normalized, so that what is saved is what was applied.
use aegor_x.Prelude.{
  ℕ, zero, suc, ◌*◌, ◌≤◌, ◌≡◌, ◌⊎◌, inl, inr, refl, String, String_discrete, true, false, Option,
  none, some, List, [], ◌∷◌, map, any, length, length-map, All, ◌≐◌, ltb, arith, Bool-cases,
  Option-cases, if◌then◌else◌,
}
use aegor_x.Json.{
  Json, Fields, text, whole, null, boolean, negative, float, array, object, get, unit, fields_of,
  list_of, text_of,
}
use aegor_x.Policy.{
  Text, Policy, PolicyError, Checked, ok, err, bad_backend, ◌>>=◌, max_exclusions, backends,
  check_patterns, non_empty, check_exclusions, check_interval, texts_of, check_paths, check_backend,
  check_probability, check_keys, check_fields, validate_policy, document_of, save_policy,
  apply_policy,
}
use aegor_x.Policy.Valid.{
  IsText, IsPattern, IsPath, IsProbability, IsPolicy, validate_policy-document,
}

-- A chain that succeeds has succeeded at its first step.
bind-ok :
    {A : Type 0} {B : Type 0} (c : Checked A) (f : A → Checked B) (b : B)
    → (c >>= f) ≡ ok b
    → (a : A) × (c ≡ ok a) × (f a ≡ ok b)
bind-ok (ok a) f b h = (a, refl, h)
bind-ok (err e) f b h = absurd (ground arith)

ok_same : {A : Type 0} (a b : A) → ok a ≡ ok b → b ≡ a
ok_same a b h = ground arith

abbrev IsRaw : Text → String → Type 0
IsRaw t s = ((t.strip s ≐ "") ≡ false) × (t.has_dots s ≡ false)

check_patterns-IsRaw :
    (t : Text) (xs : List Json) (ss : List String)
    → check_patterns t xs ≡ ok ss
    → All (IsRaw t) ss × (length ss ≡ length xs)
unfolding text_of
check_patterns-IsRaw t [] ss h = let e : ss ≡ [] = ground arith in rw e (tt, refl)
check_patterns-IsRaw t (x ∷ xs) ss h = elim (Option-cases (text_of x)) [
  | inl e ↦ absurd (ground arith)
  | inr (s, e) ↦ elim (Bool-cases (t.strip s ≐ "")) [
    | inl blank ↦ absurd (ground arith)
    | inr full ↦ elim (Bool-cases (t.has_dots s)) [
      | inl dotted ↦ absurd (ground arith)
      | inr plain ↦
          let (rest, k, j) =
            bind-ok (check_patterns t xs) (λ l. ok (s ∷ l)) ss
              (rw (check_patterns, e, full, plain) at h) in
          let same : ss ≡ s ∷ rest = ground arith in
          let (raw, long) = check_patterns-IsRaw t xs rest k in
          rw same (((full, plain), raw), omega (arith, long))
    ]
  ]
]

non_empty-IsPattern :
    (t : Text) (ss : List String)
    → IsText t
    → All (IsRaw t) ss
    → All (IsPattern t) (non_empty (map t.strip ss))
non_empty-IsPattern t [] i h = tt
non_empty-IsPattern t (s ∷ ss) i h =
    let rest = non_empty-IsPattern t ss i h.1 in
    rw (h.0.0) ((i.strip-strip s, h.0.0, i.dots s h.0.1), rest)

length-non_empty-le : (ss : List String) → length (non_empty ss) ≤ length ss
length-non_empty-le [] = omega arith
length-non_empty-le (s ∷ ss) = ground (arith, length-non_empty-le ss)

non_empty-IsPath : (ss : List String) → All IsPath (non_empty ss)
non_empty-IsPath [] = tt
non_empty-IsPath (s ∷ ss) = elim (Bool-cases (s ≐ "")) [
  | inl e ↦ rw e (non_empty-IsPath ss)
  | inr e ↦ rw e (e, non_empty-IsPath ss)
]

check_exclusions-ok :
    (t : Text) (o : Option Json) (ss : List String)
    → IsText t
    → check_exclusions t o ≡ ok ss
    → All (IsPattern t) ss × (length ss ≤ max_exclusions)
check_exclusions-ok t none ss i h = let e : ss ≡ [] = ground arith in rw e (tt, omega arith)
check_exclusions-ok t (some j) ss i h = elim (Option-cases (list_of j)) [
  | inl e ↦ absurd (ground arith)
  | inr (xs, e) ↦ elim (Bool-cases (ltb max_exclusions (length xs))) [
    | inl long ↦ absurd (ground arith)
    | inr short ↦
        let (raw, k, f) =
          bind-ok (check_patterns t xs) (λ l. ok (non_empty (map t.strip l))) ss
            (rw (check_exclusions, e, short) at h) in
        let same : ss ≡ non_empty (map t.strip raw) = ground arith in
        let (good, long) = check_patterns-IsRaw t xs raw k in
        rw same (
          non_empty-IsPattern t raw i good,
          ground (arith, length-non_empty-le (map t.strip raw), length-map t.strip raw),
        )
  ]
]

check_interval-ok : (o : Option Json) (n : ℕ) → check_interval o ≡ ok n → (n ≡ 0) ⊎ (60 ≤ n)
check_interval-ok o n h = ground arith

check_paths-ok : (o : Option Json) (ss : List String) → check_paths o ≡ ok ss → All IsPath ss
check_paths-ok none ss h = let e : ss ≡ [] = ground arith in rw e tt
check_paths-ok (some j) ss h = elim (Option-cases (list_of j)) [
  | inl e ↦ absurd (ground arith)
  | inr (xs, e) ↦ elim (Option-cases (texts_of xs)) [
    | inl k ↦ absurd (ground arith)
    | inr (found, k) ↦
        let same : ss ≡ non_empty found = ground arith in rw same (non_empty-IsPath found)
  ]
]

check_backend-ok :
    (o : Option Json) (s : String) → check_backend o ≡ ok s → any (λ b. b ≐ s) backends ≡ true
unfolding String_discrete
check_backend-ok none s h = let e : s ≡ "auto" = ground arith in rw e refl
check_backend-ok (some j) s h = elim (Option-cases (text_of j)) [
  | inl e ↦ absurd (ground arith)
  | inr (found, e) ↦ elim (Bool-cases (any (λ b. b ≐ found) backends)) [
    | inl k ↦
        let f : (if any (λ b. b ≐ found) backends then ok found else err bad_backend) ≡ ok s =
          rw (check_backend, e) at h in
        let same : s ≡ found = ok_same found s (rw k at f) in rw same k
    | inr k ↦ absurd (ground arith)
  ]
]

scaled-le : (n k : ℕ) → n ≤ 1 → n * k ≤ k
scaled-le zero k h = omega arith
scaled-le (suc zero) k h = omega arith
scaled-le (suc (suc n)) k h = absurd (omega arith)

check_probability-ok :
    (o : Option ℕ) (j : Option Json) → check_probability j ≡ ok o → IsProbability o
check_probability-ok o none h = let e : o ≡ none = ground arith in rw e tt
check_probability-ok o (some null) h = let e : o ≡ none = ground arith in rw e tt
check_probability-ok o (some (whole n)) h =
    let (e, le) : (o ≡ some (n * unit)) × (n ≤ 1) = ground arith in rw e (scaled-le n unit le)
check_probability-ok o (some (float false n)) h =
    let (e, le) : (o ≡ some n) × (n ≤ unit) = ground arith in rw e le
check_probability-ok o (some (float true n)) h =
    let e : o ≡ some 0 = ground arith in rw e (omega arith)
check_probability-ok o (some (boolean b)) h = absurd (ground arith)
check_probability-ok o (some (negative n)) h = absurd (ground arith)
check_probability-ok o (some (text s)) h = absurd (ground arith)
check_probability-ok o (some (array xs)) h = absurd (ground arith)
check_probability-ok o (some (object fs)) h = absurd (ground arith)

check_fields-IsPolicy :
    (t : Text) (fs : Fields) (p : Policy) → IsText t → check_fields t fs ≡ ok p → IsPolicy t p
unfolding check_fields
check_fields-IsPolicy t fs p i h =
    let (exclusions, a, h) = bind-ok (check_exclusions t (get "exclusions" fs)) _ p h in
    let (interval, b, h) = bind-ok (check_interval (get "scan_interval_seconds" fs)) _ p h in
    let (paths, c, h) = bind-ok (check_paths (get "scheduled_paths" fs)) _ p h in
    let (backend, d, h) = bind-ok (check_backend (get "backend" fs)) _ p h in
    let (malicious, e, h) = bind-ok (check_probability (get "malicious_probability" fs)) _ p h in
    let (suspicious, f, h) = bind-ok (check_probability (get "suspicious_probability" fs)) _ p h in
    let (known, g, h) = bind-ok (check_keys fs) _ p h in
    let same = ok_same _ p h in
    let (patterns, few) = check_exclusions-ok t (get "exclusions" fs) exclusions i a in
    rw same (record {
      patterns = patterns;
      few = few;
      interval = check_interval-ok (get "scan_interval_seconds" fs) interval b;
      paths = check_paths-ok (get "scheduled_paths" fs) paths c;
      backend = check_backend-ok (get "backend" fs) backend d;
      malicious = check_probability-ok malicious (get "malicious_probability" fs) e;
      suspicious = check_probability-ok suspicious (get "suspicious_probability" fs) f;
    })

validate_policy-IsPolicy :
    (t : Text) (doc : Json) (p : Policy) → IsText t → validate_policy t doc ≡ ok p → IsPolicy t p
unfolding validate_policy
validate_policy-IsPolicy t doc p i h = elim (Option-cases (fields_of doc)) [
  | inl e ↦ absurd (ground arith)
  | inr (fs, e) ↦ check_fields-IsPolicy t fs p i (rw (validate_policy, e) at h)
]

-- A policy that is let through has stripped patterns without "..", at most 200 of them, an interval that is 0 or
-- 60 at least, no empty path, a known backend and probabilities of at most 1; and its document is let through
-- again, unchanged.
pub validate_policy-document_of :
    (t : Text) (doc : Json) (p : Policy)
    → IsText t
    → validate_policy t doc ≡ ok p
    → IsPolicy t p × (validate_policy t (document_of p) ≡ ok p)
validate_policy-document_of t doc p i h =
    let good = validate_policy-IsPolicy t doc p i h in (good, validate_policy-document t p good)

-- A pushed policy that is let through becomes the active file, whatever was there, although it is validated twice;
-- one that is not leaves the file.
pub apply_policy-document_of :
    (t : Text) (args : Json) (file : Option Json)
    → IsText t
    → ((p : Policy)
        → validate_policy t args ≡ ok p
        → apply_policy t args file ≡ (some (document_of p), ok p))
      × ((e : PolicyError)
          → validate_policy t args ≡ err e
          → apply_policy t args file ≡ (file, err e))
unfolding apply_policy save_policy
apply_policy-document_of t args file i = (
  λ p h. rw (apply_policy, h, (validate_policy-document_of t args p i h).1) refl,
  λ e h. rw (apply_policy, h) refl,
)
