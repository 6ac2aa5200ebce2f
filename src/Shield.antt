-- ===== src/Shield.antt =====
-- Self-protection (aegorx/shield.py): the seal of the trust anchors, and the heartbeat. The files
-- are a function from a path to the bytes of a regular file; the processes that run are one too.
pub mod Sealed
mod Tests
use aegor_x.Prelude.{
  ℕ, ◌-◌, ◌≤◌, String, String_discrete, Bool, true, false, ◌&&◌, not, Option, none, some, List, [],
  ◌∷◌, ◌++◌, ◌≐◌, leb, ltb, lookup, insert, is_some, mem, if◌then◌else◌,
}

abbrev pub Files : Type 0
Files = String → Option (List ℕ)

abbrev pub Entries : Type 0
Entries = List (String × String)

pub record Manifest : Type 0 where
  pub sealed_utc : ℕ
  pub entries : Entries

-- The state directory: the sealed manifest and the heartbeat, a process and a time.
pub record State : Type 0 where
  pub manifest : Option Manifest
  pub heartbeat : Option (ℕ × ℕ)

-- `[t for t in targets if os.path.isfile(t)]`, of the keys and the configuration.
abbrev pub existing : Files → List String → List String
existing fs [] = []
existing fs (t ∷ ts) = let rest = existing fs ts in if is_some (fs t) then t ∷ rest else rest

-- The loop of `seal`; a file that is gone in the middle is not modelled.
unfoldable pub pin : (List ℕ → String) → Files → List String → Entries → Entries
pin hexdigest fs [] entries = entries
pin hexdigest fs (t ∷ ts) entries = elim (fs t) [
  | none ↦ pin hexdigest fs ts entries
  | some content ↦ pin hexdigest fs ts (insert String_discrete t (hexdigest content) entries)
]

unfoldable pub seal : (List ℕ → String) → Files → List String → ℕ → State → State × Manifest
unfolding pin
seal hexdigest fs targets now s =
    let manifest : Manifest = record {
      sealed_utc = now;
      entries = pin hexdigest fs (existing fs targets) [];
    } in
    (record s { manifest = some manifest }, manifest)

pub record Report : Type 0 where
  pub is_sealed : Bool
  pub ok : Bool
  pub changed : List String
  pub missing : List String

abbrev pub is_empty {ℓ} : {A : Type ℓ} → List A → Bool
is_empty [] = true
is_empty (x ∷ xs) = false

-- The loop of `verify`: the targets that have changed, and those that are missing.
unfoldable pub compare_all : (List ℕ → String) → Files → Entries → List String × List String
compare_all hexdigest fs [] = ([], [])
compare_all hexdigest fs ((target, expected) ∷ entries) =
    let rest = compare_all hexdigest fs entries in
    elim (fs target) [
      | none ↦ (rest.0, target ∷ rest.1)
      | some content ↦ if hexdigest content ≐ expected then rest else (target ∷ rest.0, rest.1)
    ]

unfoldable pub verify : (List ℕ → String) → Files → State → Report
unfolding compare_all
verify hexdigest fs s = elim s.manifest [
  | none ↦ record { is_sealed = false; ok = false; changed = []; missing = [] }
  | some manifest ↦
      let found = compare_all hexdigest fs manifest.entries in
      record {
        is_sealed = true;
        ok = is_empty found.0 && is_empty found.1;
        changed = found.0;
        missing = found.1;
      }
]

-- `_write` of the heartbeat.
abbrev pub write_heartbeat : ℕ → ℕ → State → State
write_heartbeat pid now s = record s { heartbeat = some (pid, now) }

pub data Liveness : Type 0 where
  no_heartbeat : Liveness
  assessed : Bool → ℕ → ℕ → Bool → Liveness

-- `liveness` at a time, on a clock that does not go back: whether it is healthy, the process, its
-- age, and whether it is alive.
unfoldable pub liveness : (ℕ → Bool) → ℕ → ℕ → State → Liveness
liveness is_alive now max_age s = elim s.heartbeat [
  | none ↦ no_heartbeat
  | some (pid, ts) ↦
      let alive = ltb 0 pid && is_alive pid in
      assessed (leb (now - ts) max_age && alive) pid (now - ts) alive
]
