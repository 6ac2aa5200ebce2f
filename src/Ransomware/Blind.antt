-- ===== src/Ransomware/Blind.antt =====
-- The entropy detector of aegorx/ransomware.py with its defaults: what it can report.
use aegor_x.Prelude.{
  ℕ, ◌+◌, ◌*◌, ◌≤◌, ◌<◌, String, ◌≡◌, Option, none, some, List, [], ◌∷◌, ltb, lookup, lookup-insert,
  String_discrete, arith, Option-cases, Bool-cases, inl, inr, All,
}
use aegor_x.Ransomware.Entropy.{
  EntropyDetector, half_bit, new_entropy_detector, check_entropy, update_baseline,
}

-- Every baseline is at least the entropy from which files are looked at.
pub record IsHigh (d : EntropyDetector) : Type 0 where
  pub high :
      (path : String) (b : ℕ) → lookup String_discrete path d.baselines ≡ some b → d.min_entropy ≤ b

pub check_entropy-IsHigh :
    (d : EntropyDetector) (path : String) (current : ℕ)
    → IsHigh d
    → IsHigh (check_entropy d path current).0
unfolding check_entropy
check_entropy-IsHigh d path current h = elim (Bool-cases (ltb current d.min_entropy)) [
  | inl low ↦ rw low h
  | inr enough ↦ elim (Option-cases (lookup String_discrete path d.baselines)) [
    | inr (b, e) ↦ rw (enough, check_entropy, e) h
    | inl e ↦
        rw (enough, check_entropy, e)
          (record {
            high = λ p b k.
                ground
                  (arith, h.high p b, lookup-insert String_discrete p path current d.baselines);
          })
  ]
]

check_entropy-thresholds :
    (d : EntropyDetector) (path : String) (current : ℕ)
    → ((check_entropy d path current).0.spike_threshold ≡ d.spike_threshold)
      × ((check_entropy d path current).0.min_entropy ≡ d.min_entropy)
unfolding check_entropy
check_entropy-thresholds d path current = ground arith

-- With high baselines a file whose entropy stays below `min_entropy + spike_threshold` is not reported.
check_entropy-none :
    (d : EntropyDetector) (path : String) (current : ℕ)
    → IsHigh d
    → current < d.min_entropy + d.spike_threshold
    → (check_entropy d path current).1 ≡ none
unfolding check_entropy
check_entropy-none d path current h small =
    elim (Option-cases (lookup String_discrete path d.baselines)) [
      | inl e ↦ ground arith
      | inr (b, e) ↦ ground (arith, h.high path b)
    ]

-- The reports of a sequence of checks.
abbrev pub reports : EntropyDetector → List (String × ℕ) → List (Option (ℕ × ℕ))
reports d [] = []
reports d ((path, current) ∷ rest) =
    let (d', r) = check_entropy d path current in r ∷ reports d' rest

abbrev pub IsNone {ℓ} : {A : Type ℓ} → Option A → Type ℓ
IsNone o = o ≡ none

reports-IsNone :
    (d : EntropyDetector) (files : List (String × ℕ))
    → IsHigh d
    → All (λ f. f.1 < d.min_entropy + d.spike_threshold) files
    → All IsNone (reports d files)
reports-IsNone d [] h small = tt
reports-IsNone d ((path, current) ∷ rest) h small = (
  check_entropy-none d path current h small.0,
  reports-IsNone (check_entropy d path current).0 rest (check_entropy-IsHigh d path current h)
      (let (spike, least) = check_entropy-thresholds d path current in rw (spike, least) small.1),
)

half_bit-pos : 0 < half_bit
unfolding half_bit
half_bit-pos = omega arith

-- With the defaults of its constructor, and as long as only checks are made, the entropy detector never
-- reports a file: a baseline is first taken at 6.5 bits or more, a spike is 2.0 bits above it, and no
-- file has more than 8 bits.
pub new_entropy_detector-IsNone :
    (files : List (String × ℕ))
    → All (λ f. f.1 ≤ 16 * half_bit) files
    → All IsNone (reports new_entropy_detector files)
new_entropy_detector-IsNone files h =
    reports-IsNone new_entropy_detector files (record { high = λ p b k. unfold lookup in cc k })
      (below files h)
  where
    below :
        (xs : List (String × ℕ))
        → All (λ f. f.1 ≤ 16 * half_bit) xs
        → All (λ f. f.1 < 13 * half_bit + 4 * half_bit) xs
    below [] k = tt
    below (x ∷ xs) k = (omega (arith, half_bit-pos), below xs k.1)

-- A baseline that was set by hand at a lower entropy makes a spike visible.
pub check_entropy-update_baseline :
    (d : EntropyDetector) (path : String) (before current : ℕ)
    → d.min_entropy ≤ current
    → before + d.spike_threshold ≤ current
    → (check_entropy (update_baseline d path before) path current).1 ≡ some (before, current)
unfolding check_entropy update_baseline
check_entropy-update_baseline d path before current enough spike =
    ground (arith, lookup-insert String_discrete path path before d.baselines)
