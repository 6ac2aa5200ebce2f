-- ===== src/Ransomware/Rate.antt =====
-- `VelocityDetector` and `ExtensionMonitor` of aegorx/ransomware.py: a deque of times and paths, cut to
-- a window that ends now.
use aegor_x.Prelude.{
  ℕ, ◌-◌, String, Bool, Option, none, some, List, [], ◌∷◌, ◌++◌, ltb, leb, length, if◌then◌else◌,
}

abbrev pub Stamps : Type 0
Stamps = List (ℕ × String)

pub record Window : Type 0 where
  pub window : ℕ
  pub threshold : ℕ
  pub stamps : Stamps  -- _modifications

-- while stamps and stamps[0][0] < cutoff: stamps.popleft()
unfoldable pub prune : ℕ → Stamps → Stamps
prune cutoff [] = []
prune cutoff ((t, p) ∷ rest) =
    let later = prune cutoff rest in if ltb t cutoff then later else (t, p) ∷ rest

abbrev pub alarm : ℕ → ℕ → Option ℕ
alarm threshold count = if leb threshold count then some count else none

-- Append, prune and count. A cutoff before the clock's zero prunes nothing, as 0 does.
unfoldable pub push : ℕ → ℕ → Stamps → ℕ → String → Stamps × Option ℕ
unfolding prune
push window threshold stamps now path =
    let kept = prune (now - window) (stamps ++ (now, path) ∷ []) in
    (kept, alarm threshold (length kept))

-- `VelocityDetector.record`
unfoldable pub record_modification : Window → ℕ → String → Window × Option ℕ
unfolding push
record_modification d now path =
    let (kept, result) = push d.window d.threshold d.stamps now path in
    (record d { stamps = kept }, result)

-- `VelocityDetector.reset`
unfoldable pub reset : Window → Window
reset d = record d { stamps = [] }

pub record Renames : Type 0 where
  pub window : ℕ
  pub threshold : ℕ
  pub stamps : Stamps  -- _renames

-- `ExtensionMonitor.record_rename`; a name without a suspicious extension is not recorded.
unfoldable pub record_rename : Renames → ℕ → Bool → String → Renames × Option ℕ
unfolding push
record_rename d now suspicious new_path =
    if suspicious
    then (let (kept, result) = push d.window d.threshold d.stamps now new_path in
        (record d { stamps = kept }, result))
    else (d, none)
