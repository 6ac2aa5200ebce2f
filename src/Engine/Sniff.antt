-- ===== src/Engine/Sniff.antt =====
-- The formats that the engine tells by a file's first bytes: aegorx/scanner/archives.py
-- (`looks_like_archive`, `sniff_format`), scanner/office.py, scanner/pdfdoc.py and ml/features.py.
use aegor_x.Prelude.{
  ℕ, ◌+◌, Bool, true, false, ◌&&◌, ◌||◌, Option, none, some, List, [], ◌∷◌, ltb, ◌==◌, length, drop,
  if◌then◌else◌,
}

-- head.startswith(magic)
unfoldable pub starts_with : List ℕ → List ℕ → Bool
starts_with head [] = true
starts_with [] (m ∷ ms) = false
starts_with (b ∷ bs) (m ∷ ms) = b == m && starts_with bs ms

abbrev pub magic_zip : List ℕ
magic_zip = b'P' ∷ b'K' ∷ 3 ∷ 4 ∷ []

abbrev pub magic_gzip : List ℕ
magic_gzip = 0x1f ∷ 0x8b ∷ []

abbrev pub magic_bzip2 : List ℕ
magic_bzip2 = b'B' ∷ b'Z' ∷ b'h' ∷ []

abbrev pub magic_xz : List ℕ
magic_xz = 0xfd ∷ b'7' ∷ b'z' ∷ b'X' ∷ b'Z' ∷ 0 ∷ []

abbrev pub magic_tar_offset : ℕ
magic_tar_offset = 257

abbrev pub ustar : List ℕ
ustar = b'u' ∷ b's' ∷ b't' ∷ b'a' ∷ b'r' ∷ []

-- len(head) > MAGIC_TAR_OFFSET + 5 and head[offset:offset + 5] == b"ustar"
unfoldable pub has_ustar : List ℕ → Bool
unfolding starts_with
has_ustar head =
    ltb (magic_tar_offset + 5) (length head) && starts_with (drop magic_tar_offset head) ustar

unfoldable pub looks_like_archive : List ℕ → Bool
unfolding starts_with has_ustar
looks_like_archive head =
    starts_with head magic_zip
    || starts_with head magic_gzip
    || starts_with head magic_bzip2
    || starts_with head magic_xz
    || has_ustar head

pub data Format : Type 0 where
  zip gzip bzip2 xz tar : Format

-- `sniff_format`, of the first 512 bytes; None where the file cannot be read or fits no format.
unfoldable pub sniff_head : List ℕ → Option Format
unfolding starts_with has_ustar
sniff_head head =
    if starts_with head magic_zip
    then some zip
    else if starts_with head magic_gzip
    then some gzip
    else if starts_with head magic_bzip2
    then some bzip2
    else if starts_with head magic_xz
    then some xz
    else if has_ustar head
    then some tar
    else none

unfoldable pub sniff_format : Option (List ℕ) → Option Format
unfolding sniff_head
sniff_format none = none
sniff_format (some head) = sniff_head head

abbrev pub magic_ole : List ℕ
magic_ole = 0xd0 ∷ 0xcf ∷ 0x11 ∷ 0xe0 ∷ 0xa1 ∷ 0xb1 ∷ 0x1a ∷ 0xe1 ∷ []

unfoldable pub looks_like_office : List ℕ → Bool
unfolding starts_with
looks_like_office head = starts_with head magic_ole

abbrev pub magic_pdf : List ℕ
magic_pdf = b'%' ∷ b'P' ∷ b'D' ∷ b'F' ∷ b'-' ∷ []

unfoldable pub looks_like_pdf : List ℕ → Bool
unfolding starts_with
looks_like_pdf head = starts_with head magic_pdf

-- head[:2] == b"MZ" or head[:4] == b"\x7fELF"
unfoldable pub looks_executable : List ℕ → Bool
unfolding starts_with
looks_executable head =
    starts_with head (b'M' ∷ b'Z' ∷ []) || starts_with head (0x7f ∷ b'E' ∷ b'L' ∷ b'F' ∷ [])
