-- ===== src/Hosts.antt =====
-- The block list in the hosts file (`HostsFileEnforcer` of aegorx/network/enforcement.py). The
-- content is that of the file as Python reads it, where a line ends by a line feed or by another of
-- the characters of `is_break`; `sort` is `sorted`.
pub mod Lines
pub mod Blocks
mod Tests
use aegor_x.Prelude.{
  ℕ, Bool, true, false, ◌||◌, not, Option, none, some, List, [], ◌∷◌, ◌++◌, map, ◌==◌, ite,
  if◌then◌else◌,
}
use aegor_x.Dns.Domain.{Text, Text-discrete, strip}

-- "# === aegorx blocklist start ===" and "# === aegorx blocklist end ===".
abbrev pub aegorx_blocklist : Text
aegorx_blocklist =
    b'#' ∷ 32 ∷ b'=' ∷ b'=' ∷ b'=' ∷ 32 ∷ b'a' ∷ b'e' ∷ b'g' ∷ b'o' ∷ b'r' ∷ b'x' ∷ 32 ∷ b'b' ∷ b'l'
    ∷ b'o' ∷ b'c' ∷ b'k' ∷ b'l' ∷ b'i' ∷ b's' ∷ b't' ∷ 32 ∷ []

abbrev pub marker_start : Text
marker_start = aegorx_blocklist ++ b's' ∷ b't' ∷ b'a' ∷ b'r' ∷ b't' ∷ 32 ∷ b'=' ∷ b'=' ∷ b'=' ∷ []

abbrev pub marker_end : Text
marker_end = aegorx_blocklist ++ b'e' ∷ b'n' ∷ b'd' ∷ 32 ∷ b'=' ∷ b'=' ∷ b'=' ∷ []

-- The characters that end a line for `splitlines`; the file is read with `\r\n` made `\n`.
abbrev pub is_break : ℕ → Bool
is_break c =
    (c == 10)
    || (c == 11)
    || (c == 12)
    || (c == 13)
    || (c == 28)
    || (c == 29)
    || (c == 30)
    || (c == 133)
    || (c == 8232)
    || (c == 8233)

abbrev pub prepend : ℕ → List Text → List Text
prepend c [] = (c ∷ []) ∷ []
prepend c (line ∷ lines) = (c ∷ line) ∷ lines

-- `content.splitlines(keepends=True)`.
unfoldable pub splitlines : Text → List Text
splitlines [] = []
splitlines (c ∷ s) =
    let rest = splitlines s in if is_break c then (c ∷ []) ∷ rest else prepend c rest

abbrev pub is_text : Text → Text → Bool
is_text a b = ite (Text-discrete a b) true false

-- The loop of `_strip_block`, and the lines joined.
unfoldable pub outside : Bool → List Text → Text
outside inside_block [] = []
outside inside_block (line ∷ lines) =
    let opened = outside true lines in
    let closed = outside false lines in
    let same = outside inside_block lines in
    if is_text (strip line) marker_start
    then opened
    else if is_text (strip line) marker_end
    then closed
    else if inside_block
    then same
    else line ++ same

unfoldable pub strip_block : Text → Text
unfolding outside splitlines
strip_block content = outside false (splitlines content)

-- "0.0.0.0  " and the domain.
abbrev pub entry_of : Text → Text
entry_of d = b'0' ∷ b'.' ∷ b'0' ∷ b'.' ∷ b'0' ∷ b'.' ∷ b'0' ∷ 32 ∷ 32 ∷ d

-- `"\n".join(lines)` with a line feed behind the last as well.
abbrev pub end_lines : List Text → Text
end_lines [] = []
end_lines (line ∷ lines) = line ++ 10 ∷ end_lines lines

abbrev pub block_of : (List Text → List Text) → List Text → Text
block_of sort domains =
    marker_start
    ++ (10 ∷ (end_lines (sort (map entry_of (sort domains))) ++ (marker_end ++ 10 ∷ [])))

-- What is read from the file and what is there after it, with the answer; none is a file that
-- cannot be read. A write that fails leaves the file.
pub record HostsFile : Type 0 where
  pub content : Option Text
  pub writable : Bool

abbrev pub write : Text → HostsFile → HostsFile × Bool
write content f = if f.writable then (record f { content = some content }, true) else (f, false)

unfoldable pub remove : HostsFile → HostsFile × Bool
unfolding strip_block
remove f = elim f.content [
  | none ↦ (f, false)
  | some current ↦
      let cleaned = strip_block current in
      if is_text cleaned current then (f, true) else write cleaned f
]

unfoldable pub install : (List Text → List Text) → List Text → HostsFile → HostsFile × Bool
unfolding remove
install sort [] f = remove f
install sort (d ∷ ds) f = elim f.content [
  | none ↦ (f, false)
  | some current ↦ write (strip_block current ++ block_of sort (d ∷ ds)) f
]
