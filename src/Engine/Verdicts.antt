-- ===== src/Engine/Verdicts.antt =====
-- The verdict policy of aegorx/engine.py: `_verdict` and the end of `_scan_file`.
use aegor_x.Prelude.{
  ℕ, suc, ◌≤◌, String, ◌≡◌, refl, Bool, true, false, ◌||◌, Option, some, List, [], ◌∷◌, ◌++◌, leb,
  max, if◌then◌else◌, arith, ◌⊎◌, ap, ◌∙◌,
}
use aegor_x.Engine.World.{
  Engine, FileScanResult, Detection, Verdict, clean, suspicious, malicious, error, reaches, severe,
  malicious_severity, suspicious_severity, malicious_probability, verdict_of,
}
use aegor_x.Engine.Scan.{finish, ml_detections, settle, judge, is_empty}

-- The highest severity among the detections, 0 without any.
abbrev pub worst : List Detection → ℕ
worst [] = 0
worst (d ∷ ds) = max d.severity (worst ds)

-- The policy of the class's docstring, over the highest severity.
abbrev pub grade : Engine → ℕ → Option ℕ → Verdict
grade e severity p =
    if leb malicious_severity severity || reaches e.malicious_at p
    then malicious
    else if leb suspicious_severity severity || reaches e.suspicious_at p
    then suspicious
    else clean

severe-worst : (n : ℕ) (ds : List Detection) → severe (suc n) ds ≡ leb (suc n) (worst ds)
severe-worst n [] = ground arith
severe-worst n (d ∷ ds) = ground (arith, severe-worst n ds)

-- The verdict is the documented policy: a function of the highest severity and the probability.
pub verdict_of-grade :
    (e : Engine) (ds : List Detection) (p : Option ℕ) → verdict_of e ds p ≡ grade e (worst ds) p
unfolding verdict_of
verdict_of-grade e ds p = ground (arith, severe-worst 7 ds, severe-worst 4 ds)

abbrev pub rank : Verdict → ℕ
rank clean = 0
rank suspicious = 1
rank malicious = 2
rank error = 3

pub severe-append :
    (n : ℕ) (xs ys : List Detection) → severe n (xs ++ ys) ≡ severe n xs || severe n ys
severe-append n [] ys = refl
severe-append n (x ∷ xs) ys = ground (arith, severe-append n xs ys)

-- More detections never make a verdict milder.
pub verdict_of-append_mono :
    (e : Engine) (xs ys : List Detection) (p : Option ℕ)
    → rank (verdict_of e xs p) ≤ rank (verdict_of e (xs ++ ys) p)
unfolding verdict_of
verdict_of-append_mono e xs ys p = ground (arith, severe-append 8 xs ys, severe-append 5 xs ys)

severe-malicious :
    (e : Engine) (ds : List Detection) (p : Option ℕ)
    → severe malicious_severity ds ≡ true
    → verdict_of e ds p ≡ malicious
unfolding verdict_of
severe-malicious e ds p h = ground arith

severe-flagged :
    (e : Engine) (ds : List Detection) (p : Option ℕ)
    → severe suspicious_severity ds ≡ true
    → (verdict_of e ds p ≡ suspicious) ⊎ (verdict_of e ds p ≡ malicious)
unfolding verdict_of
severe-flagged e ds p h = ground arith

settle-flagged :
    (r : FileScanResult) (why : Option String) (ml_failed : Bool)
    → (r.verdict ≡ suspicious) ⊎ (r.verdict ≡ malicious)
    → is_empty r.detections ≡ false
    → ((settle why ml_failed r).verdict ≡ suspicious)
      ⊎ ((settle why ml_failed r).verdict ≡ malicious)
unfolding settle
settle-flagged r why ml_failed h k = ground arith

severe-ml_detections :
    (p : ℕ)
    → leb malicious_probability p ≡ true
    → severe malicious_severity (ml_detections (some p)) ≡ true
unfolding ml_detections
severe-ml_detections p h = rw h (ground arith)

severe-is_empty : (n : ℕ) (ds : List Detection) → severe n ds ≡ true → is_empty ds ≡ false
severe-is_empty n [] h = cc
severe-is_empty n (d ∷ ds) h = refl

settle-malicious :
    (r : FileScanResult) (why : Option String) (ml_failed : Bool)
    → r.verdict ≡ malicious
    → is_empty r.detections ≡ false
    → (settle why ml_failed r).verdict ≡ malicious
unfolding settle
settle-malicious r why ml_failed h k = ground arith

-- A detection of severity 8 or more makes the finished result malicious: neither a note of the
-- archive stage nor a failed extraction can turn it into an error.
pub finish-malicious :
    (e : Engine) (r : FileScanResult) (ds : List Detection) (p : Option ℕ) (why : Option String)
    (ml_failed : Bool)
    → severe malicious_severity ds ≡ true
    → (finish e r ds p why ml_failed).verdict ≡ malicious
finish-malicious e r ds p why ml_failed h =
    let all : severe malicious_severity (ds ++ ml_detections p) ≡ true =
      severe-append malicious_severity ds (ml_detections p)
      ∙ ap (λ b. b || severe malicious_severity (ml_detections p)) h in
    unfold finish in
    settle-malicious (judge e r (ds ++ ml_detections p) p) why ml_failed
      (severe-malicious e _ p all) (severe-is_empty malicious_severity _ all)

-- A probability that reaches the module's constant makes the result malicious whatever thresholds a
-- policy has set: the detection that it adds has severity 9.
pub finish_ignores_policy :
    (e : Engine) (r : FileScanResult) (ds : List Detection) (p : ℕ) (why : Option String)
    (ml_failed : Bool)
    → leb malicious_probability p ≡ true
    → (finish e r ds (some p) why ml_failed).verdict ≡ malicious
finish_ignores_policy e r ds p why ml_failed h =
    let all : severe malicious_severity (ds ++ ml_detections (some p)) ≡ true = ground (
      arith,
      severe-append malicious_severity ds (ml_detections (some p)),
      severe-ml_detections p h,
    ) in
    unfold finish in
    settle-malicious (judge e r (ds ++ ml_detections (some p)) (some p)) why ml_failed
      (severe-malicious e _ (some p) all) (severe-is_empty malicious_severity _ all)

-- A finished result is an error only where no detection is suspicious: with detections of severity 5
-- or more the verdict is suspicious or malicious, whatever the note and the failure.
pub finish_keeps_detections :
    (e : Engine) (r : FileScanResult) (ds : List Detection) (p : Option ℕ) (why : Option String)
    (ml_failed : Bool)
    → severe suspicious_severity ds ≡ true
    → ((finish e r ds p why ml_failed).verdict ≡ suspicious)
      ⊎ ((finish e r ds p why ml_failed).verdict ≡ malicious)
finish_keeps_detections e r ds p why ml_failed h =
    let all : severe suspicious_severity (ds ++ ml_detections p) ≡ true =
      ground (arith, severe-append suspicious_severity ds (ml_detections p)) in
    unfold finish in
    settle-flagged (judge e r (ds ++ ml_detections p) p) why ml_failed
      (severe-flagged e (ds ++ ml_detections p) p all) (severe-is_empty suspicious_severity _ all)
