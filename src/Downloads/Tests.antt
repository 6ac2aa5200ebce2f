-- ===== src/Downloads/Tests.antt =====
-- A download that is polled while it is young.
use aegor_x.Prelude.{◌≡◌, refl, String_discrete, true, false, some, [], ◌∷◌, mem, add}
use aegor_x.Downloads.{
  Disk, Monitor, new_monitor, check_file, scan_downloads, scan_now, polls, browser_download,
  browser_manual,
}
use aegor_x.Downloads.Seen.{handed, check_file-decides}

abbrev disk : Disk
disk = record {
  is_dir = λ _. true;
  scandir = λ _. ("d/a.exe", true) ∷ ("d/sub", false) ∷ [];
  extension = λ _. ".exe";
  stat = λ _. some (100, 7);
}

abbrev monitor : Monitor
monitor = new_monitor ("d" ∷ []) 10 (".exe" ∷ [])

-- First seen at the age of 5, and polled at the ages of 60 and 70.
check_file-decides_example :
    handed "d/a.exe"
      (polls ((disk, 160) ∷ (disk, 170) ∷ []) (check_file disk 105 "d/a.exe" monitor)).calls
    ≡ 0
unfolding mem String_discrete
check_file-decides_example =
    check_file-decides disk 105 "d/a.exe" monitor ((disk, 160) ∷ (disk, 170) ∷ []) refl

polled_once :
    (polls ((disk, 160) ∷ (disk, 170) ∷ []) monitor).calls ≡ ("d/a.exe", browser_download) ∷ []
unfolding polls scan_downloads check_file mem add String_discrete
polled_once = refl

asked_for : (scan_now "d/a.exe" monitor).calls ≡ ("d/a.exe", browser_manual) ∷ []
unfolding scan_now
asked_for = refl

-- Where no extensions are set any file is handed over; a monitor that is made without has the default.
any_file :
    (check_file
      (record disk { extension = λ _. ".txt" })
      150
      "d/a.txt"
      (record monitor { scan_extensions = [] })).calls
    ≡ ("d/a.txt", browser_download) ∷ []
unfolding check_file mem add String_discrete
any_file = refl

default_extensions :
    (check_file
      (record disk { extension = λ _. ".txt" })
      150
      "d/a.txt"
      (new_monitor ("d" ∷ []) 10 [])).calls
    ≡ []
unfolding check_file mem add String_discrete
default_extensions = refl
