-- ===== src/Connections/Beacons.antt =====
-- Which connections `BeaconDetector.record` of aegorx/network/conn_monitor.py takes for a beacon.
use aegor_x.Prelude.{
  ℕ, suc, zero, ◌-◌, ◌+◌, ◌*◌, ◌≤◌, ◌<◌, ◌≡◌, refl, ◌∙◌, String, String_discrete, some, List, [],
  ◌∷◌, length, lookup-insert, arith,
}
use aegor_x.Connections.{BeaconDetector, record_beacon, history_of, recent, beacon_of}

-- The history of a host behind a record: what is recent.
history_of-record_beacon :
    (now : ℕ) (remote : String) (d : BeaconDetector)
    → history_of remote (record_beacon now remote d).0 ≡ recent now remote d
unfolding record_beacon
history_of-record_beacon now remote d =
    rw (history_of, lookup-insert String_discrete remote remote (recent now remote d) d.history)
      (ground arith)

fields-record_beacon :
    (now : ℕ) (remote : String) (d : BeaconDetector)
    → ((record_beacon now remote d).0.window ≡ d.window)
      × ((record_beacon now remote d).0.min_samples ≡ d.min_samples)
unfolding record_beacon
fields-record_beacon now remote d = (refl, refl)

recent_one :
    (now : ℕ) (remote : String) (d : BeaconDetector)
    → history_of remote d ≡ []
    → recent now remote d ≡ now ∷ []
recent_one now remote d h = rw (recent, h) (ground arith)

recent_two :
    (now t : ℕ) (remote : String) (d : BeaconDetector)
    → history_of remote d ≡ t ∷ []
    → now ≤ t + d.window
    → recent now remote d ≡ t ∷ now ∷ []
recent_two now t remote d h fits = rw (recent, h) (ground arith)

recent_three :
    (now t u : ℕ) (remote : String) (d : BeaconDetector)
    → history_of remote d ≡ t ∷ u ∷ []
    → now ≤ t + d.window
    → now ≤ u + d.window
    → recent now remote d ≡ t ∷ u ∷ now ∷ []
recent_three now t u remote d h fits later = rw (recent, h) (ground arith)

answer-record_beacon :
    (now : ℕ) (remote : String) (d : BeaconDetector) (ts : List ℕ)
    → recent now remote d ≡ ts
    → d.min_samples ≤ length ts
    → (record_beacon now remote d).1 ≡ beacon_of remote ts
unfolding record_beacon
answer-record_beacon now remote d ts h enough = rw (record_beacon, h) (ground arith)

square-double : (n : ℕ) → (n + n) * (n + n) ≡ 4 * (n * n)
square-double n = omega arith

square-pos : (n : ℕ) → 0 < n → 0 < n * n
square-pos zero h = absurd (omega arith)
square-pos (suc n) h = omega arith

beacon_of-periodic :
    (start interval : ℕ) (remote : String)
    → 1000 ≤ interval
    → beacon_of remote (start ∷ (start + interval) ∷ (start + interval + interval) ∷ [])
      ≡ some (record { host = remote; samples = 3; total = interval + interval })
beacon_of-periodic start interval remote slow =
    let a : start + interval - start ≡ interval = omega arith in
    let b : start - (start + interval) ≡ 0 = omega arith in
    let c : start + interval + interval - (start + interval) ≡ interval = omega arith in
    let d : start + interval - (start + interval + interval) ≡ 0 = omega arith in
    let e : start + interval + interval - start ≡ interval + interval = omega arith in
    rw (a, b, c, d, e) (ground (arith, square-double interval, square-pos interval (omega arith)))

-- Three connections to a host at one interval of a second or more, that fit the window, are a beacon at the
-- third, if the detector has not seen the host before and asks for no more than three.
pub record_beacon-periodic :
    (start interval : ℕ) (remote : String) (d : BeaconDetector)
    → history_of remote d ≡ []
    → 1000 ≤ interval
    → interval + interval ≤ d.window
    → d.min_samples ≤ 3
    → let one = (record_beacon start remote d).0 in
      let two = (record_beacon (start + interval) remote one).0 in
      (record_beacon (start + interval + interval) remote two).1
      ≡ some (record { host = remote; samples = 3; total = interval + interval })
unfolding record_beacon
record_beacon-periodic start interval remote d h slow fits three =
    let one = (record_beacon start remote d).0 in
    let two = (record_beacon (start + interval) remote one).0 in
    let first : history_of remote one ≡ start ∷ [] =
      history_of-record_beacon start remote d ∙ recent_one start remote d h in
    let second : history_of remote two ≡ start ∷ (start + interval) ∷ [] =
      history_of-record_beacon (start + interval) remote one
      ∙ recent_two (start + interval) start remote one first (omega arith) in
    let third =
      recent_three (start + interval + interval) start (start + interval) remote two second
        (omega arith) (omega arith) in
    answer-record_beacon (start + interval + interval) remote two _ third three
    ∙ beacon_of-periodic start interval remote slow
