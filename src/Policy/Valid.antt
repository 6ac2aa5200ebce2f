-- ===== src/Policy/Valid.antt =====
-- Normalized policies of aegorx/policy.py: what `validate_policy` lets through, and that it lets that through again
-- unchanged.
use aegor_x.Prelude.{
  ℕ, ◌≤◌, ◌≡◌, ◌⊎◌, inl, inr, refl, ap, String, String_discrete, true, false, Option, none, some,
  List, [], ◌∷◌, map, any, length, length-map, All, ◌≐◌, ltb, arith,
}
use aegor_x.Json.{
  Json, Fields, text, whole, end, field, get, unit, elements, items_of, fields_of, list_of, text_of,
}
use aegor_x.Policy.{
  Text, Policy, ok, max_exclusions, backends, check_patterns, non_empty, check_exclusions,
  check_interval, texts_of, check_paths, check_backend, check_probability, check_keys, check_fields,
  validate_policy, texts, probability, document_of,
}

-- `str.strip` has nothing to strip from what it has stripped, and brings no dots together.
pub record IsText (t : Text) : Type 0 where
  pub strip-strip : (s : String) → t.strip (t.strip s) ≡ t.strip s
  pub dots : (s : String) → t.has_dots s ≡ false → t.has_dots (t.strip s) ≡ false

abbrev pub IsPattern : Text → String → Type 0
IsPattern t s = (t.strip s ≡ s) × ((s ≐ "") ≡ false) × (t.has_dots s ≡ false)

abbrev pub IsPath : String → Type 0
IsPath s = (s ≐ "") ≡ false

abbrev pub IsProbability : Option ℕ → Type 0
IsProbability none = Unit
IsProbability (some n) = n ≤ unit

pub record IsPolicy (t : Text) (p : Policy) : Type 0 where
  pub patterns : All (IsPattern t) p.exclusions
  pub few : length p.exclusions ≤ max_exclusions
  pub interval : (p.scan_interval_seconds ≡ 0) ⊎ (60 ≤ p.scan_interval_seconds)
  pub paths : All IsPath p.scheduled_paths
  pub backend : any (λ b. b ≐ p.backend) backends ≡ true
  pub malicious : IsProbability p.malicious_probability
  pub suspicious : IsProbability p.suspicious_probability

elements-items_of : (xs : List Json) → elements (items_of xs) ≡ xs
elements-items_of [] = refl
elements-items_of (x ∷ xs) = ap (λ l. x ∷ l) (elements-items_of xs)

list_of-texts : (ss : List String) → list_of (texts ss) ≡ some (map text ss)
unfolding list_of
list_of-texts ss = ap some (elements-items_of (map text ss))

-- Normalized fields pass the tests as they are.
check_patterns-text :
    (t : Text) (ss : List String) → All (IsPattern t) ss → check_patterns t (map text ss) ≡ ok ss
unfolding text_of
check_patterns-text t [] h = refl
check_patterns-text t (s ∷ ss) h = ground (arith, check_patterns-text t ss h.1)

non_empty-strip :
    (t : Text) (ss : List String) → All (IsPattern t) ss → non_empty (map t.strip ss) ≡ ss
non_empty-strip t [] h = refl
non_empty-strip t (s ∷ ss) h = ground (arith, non_empty-strip t ss h.1)

non_empty-path : (ss : List String) → All IsPath ss → non_empty ss ≡ ss
non_empty-path [] h = refl
non_empty-path (s ∷ ss) h = ground (arith, non_empty-path ss h.1)

texts_of-text : (ss : List String) → texts_of (map text ss) ≡ some ss
unfolding text_of
texts_of-text [] = refl
texts_of-text (s ∷ ss) = ground (arith, texts_of-text ss)

check_exclusions-texts :
    (t : Text) (ss : List String)
    → All (IsPattern t) ss
    → length ss ≤ max_exclusions
    → check_exclusions t (some (texts ss)) ≡ ok ss
check_exclusions-texts t ss h few =
    let short : ltb max_exclusions (length (map text ss)) ≡ false =
      ground (arith, length-map text ss) in
    rw (check_exclusions, list_of-texts ss, short, check_patterns-text t ss h)
      (ap ok (non_empty-strip t ss h))

check_paths-texts : (ss : List String) → All IsPath ss → check_paths (some (texts ss)) ≡ ok ss
check_paths-texts ss h =
    rw (check_paths, list_of-texts ss, texts_of-text ss) (ap ok (non_empty-path ss h))

-- The end of the document, with the fields that are there.
abbrev tail : Option ℕ → Option ℕ → Fields
tail m n = probability "malicious_probability" m (probability "suspicious_probability" n end)

check_malicious :
    (m n : Option ℕ)
    → IsProbability m
    → check_probability (get "malicious_probability" (tail m n)) ≡ ok m
unfolding get String_discrete
check_malicious none none h = refl
check_malicious none (some j) h = refl
check_malicious (some i) n h = ground arith

check_suspicious :
    (m n : Option ℕ)
    → IsProbability n
    → check_probability (get "suspicious_probability" (tail m n)) ≡ ok n
unfolding get String_discrete
check_suspicious none none h = refl
check_suspicious (some i) none h = refl
check_suspicious none (some j) h = ground arith
check_suspicious (some i) (some j) h = ground arith

abbrev document : Policy → Fields
document p = field "exclusions" (texts p.exclusions) (
    field "scan_interval_seconds" (whole p.scan_interval_seconds) (
      field "scheduled_paths" (texts p.scheduled_paths)
        (field "backend" (text p.backend) (tail p.malicious_probability p.suspicious_probability))))

check_keys-tail :
    (a b c d : Json) (m n : Option ℕ)
    → check_keys (
        field "exclusions" a (
          field "scan_interval_seconds" b
            (field "scheduled_paths" c (field "backend" d (tail m n)))))
      ≡ ok tt
unfolding String_discrete
check_keys-tail a b c d none none = refl
check_keys-tail a b c d none (some j) = refl
check_keys-tail a b c d (some i) none = refl
check_keys-tail a b c d (some i) (some j) = refl

check_interval-whole : (n : ℕ) → (n ≡ 0) ⊎ (60 ≤ n) → check_interval (some (whole n)) ≡ ok n
check_interval-whole n (inl e) = ground arith
check_interval-whole n (inr h) = ground arith

check_backend-text :
    (s : String) → any (λ b. b ≐ s) backends ≡ true → check_backend (some (text s)) ≡ ok s
unfolding text_of
check_backend-text s h = rw (check_backend, h) refl

pub validate_policy-document :
    (t : Text) (p : Policy) → IsPolicy t p → validate_policy t (document_of p) ≡ ok p
unfolding validate_policy check_fields document_of get fields_of String_discrete
validate_policy-document t p v =
    rw
      (
        check_exclusions-texts t p.exclusions v.patterns v.few,
        check_interval-whole p.scan_interval_seconds v.interval,
        check_paths-texts p.scheduled_paths v.paths,
        check_backend-text p.backend v.backend,
        check_malicious p.malicious_probability p.suspicious_probability v.malicious,
        check_suspicious p.malicious_probability p.suspicious_probability v.suspicious,
        check_keys-tail (texts p.exclusions) (whole p.scan_interval_seconds)
            (texts p.scheduled_paths) (text p.backend) p.malicious_probability
            p.suspicious_probability,
      )
      refl
