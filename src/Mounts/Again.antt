-- ===== src/Mounts/Again.antt =====
-- How often the scanner of aegorx/usb_scanner.py hands over a mount point.
use aegor_x.Prelude.{
  ℕ, ◌+◌, ◌≤◌, ◌≡◌, refl, ap, ◌∙◌, String, String_discrete, Bool, true, false, ◌&&◌, ◌||◌, not,
  List, [], ◌∷◌, ◌++◌, ◌≐◌, arith, mem, mem-add, difference, mem-difference, ite, if◌then◌else◌,
}
use aegor_x.Mounts.{
  UsbScanner, Reason, usb_mount, usb_manual, scan_mount, scan_mounts, check, polls, start,
  new_scanner,
}

-- How often a mount point was handed over by the thread.
abbrev pub handed : String → List (String × Reason) → ℕ
handed p [] = 0
handed p ((q, usb_mount) ∷ cs) = (if q ≐ p then 1 else 0) + handed p cs
handed p ((q, usb_manual) ∷ cs) = handed p cs

handed-append :
    (p : String) (cs ds : List (String × Reason)) → handed p (cs ++ ds) ≡ handed p cs + handed p ds
handed-append p [] ds = omega arith
handed-append p ((q, usb_mount) ∷ cs) ds = omega (arith, handed-append p cs ds)
handed-append p ((q, usb_manual) ∷ cs) ds = handed-append p cs ds

abbrev pub one : Bool → ℕ
one true = 1
one false = 0

abbrev scanned_already : String → UsbScanner → ℕ
scanned_already p s = one (mem String_discrete p s.scanned)

-- One mount point: it is handed over where it was not scanned, and is scanned then.
scan_mount-handed :
    (p q : String) (s : UsbScanner)
    → (handed p (scan_mount q s).calls + scanned_already p s
        ≡ handed p s.calls + scanned_already p (scan_mount q s))
      × (scanned_already p s ≤ scanned_already p (scan_mount q s))
scan_mount-handed p q s =
    ground
      (arith, handed-append p s.calls ((q, usb_mount) ∷ []), mem-add String_discrete p q s.scanned)

scan_mount-scanned :
    (p q : String) (s : UsbScanner)
    → mem String_discrete p (scan_mount q s).scanned
      ≡ ite (String_discrete q p) true (mem String_discrete p s.scanned)
scan_mount-scanned p q s = ground (arith, mem-add String_discrete p q s.scanned)

scan_mounts-scanned :
    (p : String) (ms : List String) (s : UsbScanner)
    → mem String_discrete p (scan_mounts ms s).scanned
      ≡ mem String_discrete p ms || mem String_discrete p s.scanned
unfolding mem
scan_mounts-scanned p [] s = refl
scan_mounts-scanned p (q ∷ ms) s =
    ground (arith, scan_mounts-scanned p ms (scan_mount q s), scan_mount-scanned p q s)

scan_mounts-handed :
    (p : String) (ms : List String) (s : UsbScanner)
    → handed p (scan_mounts ms s).calls + scanned_already p s
      ≡ handed p s.calls + scanned_already p (scan_mounts ms s)
scan_mounts-handed p [] s = refl
scan_mounts-handed p (q ∷ ms) s =
    omega (arith, scan_mounts-handed p ms (scan_mount q s), (scan_mount-handed p q s).0)

-- A mount point is there at a poll and was not at the one before.
abbrev pub appears : String → List String → List (List String) → Bool
appears p known [] = false
appears p known (current ∷ rest) =
    (mem String_discrete p current && not (mem String_discrete p known)) || appears p current rest

scan_mount-known : (q : String) (s : UsbScanner) → (scan_mount q s).known_mounts ≡ s.known_mounts
scan_mount-known q s = ground arith

scan_mounts-known :
    (ms : List String) (s : UsbScanner) → (scan_mounts ms s).known_mounts ≡ s.known_mounts
scan_mounts-known [] s = refl
scan_mounts-known (q ∷ ms) s = scan_mounts-known ms (scan_mount q s) ∙ scan_mount-known q s

check-known : (current : List String) (s : UsbScanner) → (check current s).known_mounts ≡ current
unfolding check
check-known current s =
    scan_mounts-known (difference String_discrete current s.known_mounts)
      (record s { known_mounts = current })

polls-scanned :
    (p : String) (ps : List (List String)) (s : UsbScanner)
    → mem String_discrete p (polls ps s).scanned
      ≡ appears p s.known_mounts ps || mem String_discrete p s.scanned
unfolding polls check
polls-scanned p [] s = refl
polls-scanned p (current ∷ rest) s = ground (
  arith,
  polls-scanned p rest (check current s),
  ap (λ known. appears p known rest) (check-known current s),
  scan_mounts-scanned p (difference String_discrete current s.known_mounts)
      (record s { known_mounts = current }),
  mem-difference String_discrete p current s.known_mounts,
)

polls-handed :
    (p : String) (ps : List (List String)) (s : UsbScanner)
    → handed p (polls ps s).calls + scanned_already p s
      ≡ handed p s.calls + scanned_already p (polls ps s)
unfolding polls check
polls-handed p [] s = refl
polls-handed p (current ∷ rest) s = omega (
  arith,
  polls-handed p rest (check current s),
  scan_mounts-handed p (difference String_discrete current s.known_mounts)
      (record s { known_mounts = current }),
)

-- A scanner that was started with some mount points hands over each mount point once, if it appears
-- at a poll and was not there at the one before, or at the start; never else, and not again however
-- often it goes and comes back.
pub polls-once :
    (p : String) (start_mounts : List String) (ps : List (List String))
    → handed p (polls ps (start start_mounts new_scanner)).calls ≡ one (appears p start_mounts ps)
unfolding mem
polls-once p start_mounts ps = ground (
  arith,
  polls-handed p ps (start start_mounts new_scanner),
  polls-scanned p ps (start start_mounts new_scanner),
)
