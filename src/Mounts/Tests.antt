-- ===== src/Mounts/Tests.antt =====
-- A stick that goes and comes back.
use aegor_x.Prelude.{◌≡◌, refl, String, String_discrete, List, [], ◌∷◌, mem, add, difference}
use aegor_x.Mounts.{UsbScanner, start, new_scanner, check, polls, scan_now, usb_mount, usb_manual}
use aegor_x.Mounts.Again.{handed, polls-once}

abbrev times : List (List String)
times = ("/mnt" ∷ "/media/usb" ∷ []) ∷ ("/mnt" ∷ []) ∷ ("/media/usb" ∷ []) ∷ []

abbrev after : UsbScanner
after = polls times (start ("/mnt" ∷ []) new_scanner)

polls-once_example : handed "/media/usb" after.calls ≡ 1
unfolding mem String_discrete
polls-once_example = polls-once "/media/usb" ("/mnt" ∷ []) times

calls : (scan_now "/mnt" after).calls ≡ ("/media/usb", usb_mount) ∷ ("/mnt", usb_manual) ∷ []
unfolding scan_now polls check mem add difference String_discrete
calls = refl
