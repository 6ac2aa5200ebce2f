-- ===== src/Downloads/Seen.antt =====
-- Which files the monitor of aegorx/browser_guard.py hands over.
use aegor_x.Prelude.{
  ℕ, ◌+◌, ◌≤◌, ◌≡◌, refl, ap, ◌∙◌, String, String_discrete, Bool, true, false, ◌||◌, ◌&&◌, ◌==◌,
  leb, ltb, length, none, some, List, [], ◌∷◌, ◌++◌, ◌≐◌, arith, mem, add, mem-add, Bool-cases, inl,
  inr, ite, if_pos, if◌then◌else◌,
}
use aegor_x.Downloads.{
  Disk, Monitor, Reason, is_empty, browser_download, browser_manual, mark, examine, check_file,
  check_entries, check_dirs, scan_downloads, polls,
}

-- How often a path was handed over as a download.
abbrev pub handed : String → List (String × Reason) → ℕ
handed p [] = 0
handed p ((q, browser_download) ∷ cs) = (if q ≐ p then 1 else 0) + handed p cs
handed p ((q, browser_manual) ∷ cs) = handed p cs

handed-append :
    (p : String) (cs ds : List (String × Reason)) → handed p (cs ++ ds) ≡ handed p cs + handed p ds
handed-append p [] ds = omega arith
handed-append p ((q, browser_download) ∷ cs) ds = omega (arith, handed-append p cs ds)
handed-append p ((q, browser_manual) ∷ cs) ds = handed-append p cs ds

-- How often it was, and can still be.
abbrev budget : String → Monitor → ℕ
budget p m = handed p m.calls + (if mem String_discrete p m.scanned_files then 0 else 1)

-- A path that was seen is not handed over again, and one that was not is handed over once at most.
record Keeps (p : String) (m n : Monitor) : Type 0 where
  bounded : budget p n ≤ budget p m
  grows : handed p m.calls ≤ handed p n.calls

Keeps-trans : (p : String) (l m n : Monitor) → Keeps p l m → Keeps p m n → Keeps p l n
Keeps-trans p l m n a b = record {
  bounded = omega (arith, a.bounded, b.bounded);
  grows = omega (arith, a.grows, b.grows);
}

-- What is handed over of a file that is seen for the first time.
abbrev pub expected : Disk → ℕ → String → Monitor → ℕ
expected w now path m = elim (w.stat path) [
  | none ↦ 0
  | some (mtime, size) ↦
      if (length m.scan_extensions == 0 || mem String_discrete (w.extension path) m.scan_extensions)
        && leb (mtime + m.min_file_age) now
        && ltb 0 size
      then 1
      else 0
]

empty-length : (xs : List String) → is_empty xs ≡ (length xs == 0)
empty-length [] = refl
empty-length (x ∷ xs) = ground arith

examine-handed :
    (w : Disk) (now : ℕ) (path p : String) (m : Monitor)
    → handed p (examine w now path m).calls
      ≡ handed p m.calls + (if path ≐ p then expected w now path m else 0)
examine-handed w now path p m =
    ground (
      arith,
      handed-append p m.calls ((path, browser_download) ∷ []),
      empty-length m.scan_extensions,
    )

examine-seen :
    (w : Disk) (now : ℕ) (path : String) (m : Monitor)
    → (examine w now path m).scanned_files ≡ m.scanned_files
examine-seen w now path m = ground arith

expected-le : (w : Disk) (now : ℕ) (path : String) (m : Monitor) → expected w now path m ≤ 1
expected-le w now path m = ground arith

step_budget :
    (p path : String) (seen seen' : List String) (n n' e : ℕ)
    → mem String_discrete path seen ≡ false
    → seen' ≡ add String_discrete path seen
    → n' ≡ n + (if path ≐ p then e else 0)
    → e ≤ 1
    → n' + (if mem String_discrete p seen' then 0 else 1)
      ≤ n + (if mem String_discrete p seen then 0 else 1)
step_budget p path seen seen' n n' e h s k le =
    let f : mem String_discrete p seen'
        ≡ ite (String_discrete path p) true (mem String_discrete p seen) =
      ap (λ xs. mem String_discrete p xs) s ∙ mem-add String_discrete p path seen in
    elim (String_discrete path p) [
      | yes q ↦ ground (arith, (rw q at h), k, f, le)
      | no q ↦ ground (arith, k, f, le)
    ]

examine-Keeps :
    (w : Disk) (now : ℕ) (path p : String) (m : Monitor)
    → mem String_discrete path m.scanned_files ≡ false
    → Keeps p m (examine w now path (mark path m))
examine-Keeps w now path p m h = record {
  bounded =
      step_budget p path m.scanned_files (examine w now path (mark path m)).scanned_files
        (handed p m.calls) (handed p (examine w now path (mark path m)).calls)
        (expected w now path m) h (examine-seen w now path (mark path m))
        (examine-handed w now path p (mark path m)) (expected-le w now path m);
  grows = omega (arith, examine-handed w now path p (mark path m));
}

Keeps-refl : (p : String) (m : Monitor) → Keeps p m m
Keeps-refl p m = record { bounded = omega arith; grows = omega arith }

check_file-Keeps :
    (w : Disk) (now : ℕ) (path p : String) (m : Monitor) → Keeps p m (check_file w now path m)
unfolding check_file
check_file-Keeps w now path p m = elim (Bool-cases (mem String_discrete path m.scanned_files)) [
  | inl e ↦ rw (check_file, e) (Keeps-refl p m)
  | inr e ↦ rw (check_file, e) (examine-Keeps w now path p m e)
]

check_entries-Keeps :
    (w : Disk) (now : ℕ) (p : String) (entries : List (String × Bool)) (m : Monitor)
    → Keeps p m (check_entries w now entries m)
check_entries-Keeps w now p [] m = Keeps-refl p m
check_entries-Keeps w now p ((path, true) ∷ rest) m =
    Keeps-trans p m _ _ (check_file-Keeps w now path p m)
      (check_entries-Keeps w now p rest (check_file w now path m))
check_entries-Keeps w now p ((path, false) ∷ rest) m = check_entries-Keeps w now p rest m

check_dirs-Keeps :
    (w : Disk) (now : ℕ) (p : String) (dirs : List String) (m : Monitor)
    → Keeps p m (check_dirs w now dirs m)
check_dirs-Keeps w now p [] m = Keeps-refl p m
check_dirs-Keeps w now p (dir ∷ dirs) m =
    Keeps-trans p m (this (w.is_dir dir)) _ (first (w.is_dir dir))
      (check_dirs-Keeps w now p dirs (this (w.is_dir dir)))
  where
    this : Bool → Monitor
    this b = if b then check_entries w now (w.scandir dir) m else m

    first : (b : Bool) → Keeps p m (if b then check_entries w now (w.scandir dir) m else m)
    first true = check_entries-Keeps w now p (w.scandir dir) m
    first false = Keeps-refl p m

polls-Keeps : (p : String) (times : List (Disk × ℕ)) (m : Monitor) → Keeps p m (polls times m)
unfolding polls scan_downloads
polls-Keeps p [] m = Keeps-refl p m
polls-Keeps p ((w, now) ∷ rest) m =
    Keeps-trans p m (scan_downloads w now m) _ (check_dirs-Keeps w now p m.download_dirs m)
      (polls-Keeps p rest (scan_downloads w now m))

check_file-seen :
    (w : Disk) (now : ℕ) (path : String) (m : Monitor)
    → mem String_discrete path (check_file w now path m).scanned_files ≡ true
unfolding check_file
check_file-seen w now path m = elim (Bool-cases (mem String_discrete path m.scanned_files)) [
  | inl e ↦ rw (check_file, e) e
  | inr e ↦
      rw (check_file, e)
        (ap (λ xs. mem String_discrete path xs) (examine-seen w now path (mark path m))
          ∙ mem-add String_discrete path path m.scanned_files
          ∙ if_pos (String_discrete path path) refl _ _)
]

check_file-handed :
    (w : Disk) (now : ℕ) (path : String) (m : Monitor)
    → mem String_discrete path m.scanned_files ≡ false
    → handed path (check_file w now path m).calls ≡ handed path m.calls + expected w now path m
unfolding check_file
check_file-handed w now path m h =
    let self : (path ≐ path) ≡ true = if_pos (String_discrete path path) refl _ _ in
    rw (check_file, h) (rw self at (examine-handed w now path path (mark path m)))

-- When a file is seen for the first time it is decided whether it is ever handed over as a
-- download: once, if its extension is one of those that are set, or none is, it is not younger than
-- the least age, and not empty; never, if not, whatever the directory holds at the polls that follow.
pub check_file-decides :
    (w : Disk) (now : ℕ) (path : String) (m : Monitor) (times : List (Disk × ℕ))
    → mem String_discrete path m.scanned_files ≡ false
    → handed path (polls times (check_file w now path m)).calls
      ≡ handed path m.calls + expected w now path m
check_file-decides w now path m times h =
    let k = polls-Keeps path times (check_file w now path m) in
    ground
      (arith, k.bounded, k.grows, check_file-seen w now path m, check_file-handed w now path m h)
