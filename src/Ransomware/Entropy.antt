-- ===== src/Ransomware/Entropy.antt =====
-- `EntropyDetector` of aegorx/ransomware.py, over the entropies that `file_entropy` measures.
use aegor_x.Prelude.{
  ℕ, ◌+◌, ◌*◌, ◌^◌, String, Option, none, some, List, [], ltb, leb, lookup, insert, String_discrete,
  if◌then◌else◌,
}

pub record EntropyDetector : Type 0 where
  pub spike_threshold : ℕ
  pub min_entropy : ℕ
  pub baselines : List (String × ℕ)

-- Half a bit, in the unit in which entropies are kept.
unfoldable pub half_bit : ℕ
half_bit = 2 ^ 1073

-- EntropyDetector(): a spike of 2.0 bits, from 6.5 bits on.
abbrev pub new_entropy_detector : EntropyDetector
new_entropy_detector = record {
  spike_threshold = 4 * half_bit;
  min_entropy = 13 * half_bit;
  baselines = [];
}

-- `check`, of a file with this entropy. `current - baseline >= spike` without negative numbers.
unfoldable pub check_entropy : EntropyDetector → String → ℕ → EntropyDetector × Option (ℕ × ℕ)
check_entropy d path current =
    if ltb current d.min_entropy
    then (d, none)
    else elim (lookup String_discrete path d.baselines) [
      | none ↦ (record d { baselines = insert String_discrete path current d.baselines }, none)
      | some baseline ↦
          (d, if leb (baseline + d.spike_threshold) current then some (baseline, current) else none)
    ]

-- `update_baseline`
unfoldable pub update_baseline : EntropyDetector → String → ℕ → EntropyDetector
update_baseline d path current = record d {
  baselines = insert String_discrete path current d.baselines;
}
