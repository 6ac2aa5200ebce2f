-- ===== src/Sandbox/Archive/Analyse.antt =====
-- The analysis of an archive without unpacking it: `ArchiveSandbox.analyze` of
-- aegorx/sandbox/archive_sandbox.py.
use aegor_x.Prelude.{
  ℕ, ◌+◌, ◌/◌, ◌%◌, String, Bool, ◌&&◌, ◌||◌, not, Option, none, some, List, [], ◌∷◌, ◌++◌, ◌==◌,
  ltb, length, max, if◌then◌else◌,
}
use aegor_x.Engine.Sniff.{starts_with}
use aegor_x.Sandbox.Archive.{
  Name, ArchiveEntry, ArchiveType, ExtractionResult, Limits, unknown, zip, gzip, bzip2, xz,
  seven_zip, rar, tar, new_result, note, traverses, is_absolute, slashes, dots, compute_risk,
  is_above, entry_count, compression_ratio, total_uncompressed_size, file_not_found,
  unsupported_archive_type, too_many_entries, large_entry, bad_zip_file, zip_read_error,
  bad_tar_file, tar_read_error, excessive_nesting, max_compression_ratio, max_nesting_depth,
  max_entry_size,
}

-- An entry of zipfile, and a member of tarfile. `mode` is `external_attr >> 16`.
pub record ZipInfo : Type 0 where
  pub filename : Name
  pub file_size : ℕ
  pub compress_size : ℕ
  pub is_dir : Bool
  pub mode : ℕ

pub record TarMember : Type 0 where
  pub name : Name
  pub size : ℕ
  pub is_dir : Bool
  pub is_sym : Bool
  pub is_lnk : Bool
  pub linkname : Name

-- How an archive opens: as a list, as none of its format, or with an OSError.
pub data Opened (A : Type 0) : Type 0 where
  opened : List A → Opened A
  malformed unreadable : Opened A

-- A file and what its readers find in it. `head` are its first eight bytes; `ends_with` is
-- `str.endswith` on its path.
pub record ArchiveFile : Type 0 where
  pub is_file : Bool
  pub head : Option (List ℕ)
  pub ends_with : String → Bool
  pub as_zip : Opened ZipInfo
  pub as_tar : ArchiveType → Opened TarMember

abbrev pub type_of_path : ArchiveFile → ArchiveType
type_of_path f =
    if f.ends_with ".tar"
    then tar
    else if f.ends_with ".tar.gz" || f.ends_with ".tgz"
    then gzip
    else if f.ends_with ".tar.bz2"
    then bzip2
    else if f.ends_with ".tar.xz"
    then xz
    else unknown

unfoldable pub detect_type : ArchiveFile → ArchiveType
detect_type f = elim f.head [
  | none ↦ unknown
  | some head ↦
      if starts_with head (b'P' ∷ b'K' ∷ [])
      then zip
      else if starts_with head (0x1f ∷ 0x8b ∷ [])
      then gzip
      else if starts_with head (b'B' ∷ b'Z' ∷ b'h' ∷ [])
      then bzip2
      else if starts_with head (0xfd ∷ b'7' ∷ b'z' ∷ b'X' ∷ b'Z' ∷ [])
      then xz
      else if starts_with head (b'7' ∷ b'z' ∷ 0xbc ∷ 0xaf ∷ 0x27 ∷ 0x1c ∷ [])
      then seven_zip
      else if starts_with head (b'R' ∷ b'a' ∷ b'r' ∷ b'!' ∷ [])
      then rar
      else type_of_path f
]

abbrev pub one : Bool → ℕ
one b = if b then 1 else 0

-- `external_attr >> 16 & 0o170000 == 0o120000`: the bits 12 to 15 of the mode.
abbrev pub is_symlink : ZipInfo → Bool
is_symlink i = ((i.mode / 4096) % 16) == 10

abbrev pub note_large : ℕ → ExtractionResult → ExtractionResult
note_large size r = if ltb max_entry_size size then note large_entry r else r

abbrev pub add_entry : ArchiveEntry → ExtractionResult → ExtractionResult
add_entry e r = record r { entries = r.entries ++ e ∷ [] }

-- One entry of the loop of `_analyze_zip`. A symbolic link is counted whatever it points to.
abbrev pub add_info : ZipInfo → ExtractionResult → ExtractionResult
add_info i r =
    add_entry
      (record {
        name = i.filename;
        size = i.file_size;
        compressed_size = i.compress_size;
        is_dir = i.is_dir;
        is_symlink = is_symlink i;
        link_target = [];
        depth = if traverses i.filename then dots i.filename else 0;
      })
      (note_large i.file_size (record r {
        traversals = r.traversals + one (traverses i.filename) + one (is_absolute i.filename);
        symlink_attacks = r.symlink_attacks + one (is_symlink i);
        total_size_extracted = r.total_size_extracted + i.file_size;
        total_size_compressed = r.total_size_compressed + i.compress_size;
      }))

unfoldable pub add_infos : List ZipInfo → ExtractionResult → ExtractionResult
add_infos [] r = r
add_infos (i ∷ is) r = add_infos is (add_info i r)

abbrev pub too_many : ExtractionResult → ExtractionResult
too_many r = record (note too_many_entries r) { bomb = some entry_count }

abbrev pub take_ratio : ExtractionResult → ExtractionResult
take_ratio r =
    if ltb 0 r.total_size_compressed
    then record r { ratio = some (r.total_size_extracted, r.total_size_compressed) }
    else r

abbrev pub detect_ratio : ExtractionResult → ExtractionResult
detect_ratio r =
    if is_above max_compression_ratio r then record r { bomb = some compression_ratio } else r

abbrev pub detect_total : Limits → ExtractionResult → ExtractionResult
detect_total l r =
    if ltb l.max_total_size r.total_size_extracted
    then record r { bomb = some total_uncompressed_size }
    else r

unfoldable pub analyze_zip : Limits → Opened ZipInfo → ExtractionResult → ExtractionResult
unfolding add_infos
analyze_zip l (opened infos) r =
    let r = record r { total_entries = length infos } in
    if ltb l.max_entries (length infos)
    then too_many r
    else detect_total l (detect_ratio (take_ratio (add_infos infos r)))
analyze_zip l malformed r = note bad_zip_file r
analyze_zip l unreadable r = note zip_read_error r

abbrev pub is_attack : TarMember → Bool
is_attack m = m.is_sym && (is_absolute m.linkname || traverses m.linkname)

-- One member of the loop of `_analyze_tar`.
abbrev pub add_member : TarMember → ExtractionResult → ExtractionResult
add_member m r =
    add_entry
      (record {
        name = m.name;
        size = m.size;
        compressed_size = 0;
        is_dir = m.is_dir;
        is_symlink = m.is_sym;
        link_target = m.linkname;
        depth = slashes m.name;
      })
      (note_large m.size (record r {
        traversals = r.traversals + one (traverses m.name) + one (is_absolute m.name);
        symlink_attacks = r.symlink_attacks + one (is_attack m);
        total_size_extracted = r.total_size_extracted + m.size;
        max_nesting_depth = max r.max_nesting_depth (slashes m.name);
      }))

unfoldable pub add_members : List TarMember → ExtractionResult → ExtractionResult
add_members [] r = r
add_members (m ∷ ms) r = add_members ms (add_member m r)

abbrev pub note_nesting : ExtractionResult → ExtractionResult
note_nesting r = if ltb max_nesting_depth r.max_nesting_depth then note excessive_nesting r else r

unfoldable pub analyze_tar : Limits → Opened TarMember → ExtractionResult → ExtractionResult
unfolding add_members
analyze_tar l (opened members) r =
    let r = record r { total_entries = length members } in
    if ltb l.max_entries (length members) then too_many r else note_nesting (add_members members r)
analyze_tar l malformed r = note bad_tar_file r
analyze_tar l unreadable r = note tar_read_error r

abbrev pub analyze_as : Limits → ArchiveFile → ArchiveType → ExtractionResult → ExtractionResult
analyze_as l f zip r = analyze_zip l f.as_zip r
analyze_as l f gzip r = analyze_tar l (f.as_tar gzip) r
analyze_as l f bzip2 r = analyze_tar l (f.as_tar bzip2) r
analyze_as l f xz r = analyze_tar l (f.as_tar xz) r
analyze_as l f tar r = analyze_tar l (f.as_tar tar) r
analyze_as l f unknown r = note unsupported_archive_type r
analyze_as l f seven_zip r = note unsupported_archive_type r
analyze_as l f rar r = note unsupported_archive_type r

unfoldable pub analyze : Limits → ArchiveFile → ExtractionResult
analyze l f =
    if not f.is_file
    then note file_not_found new_result
    else (let t = detect_type f in
        compute_risk (analyze_as l f t (record new_result { archive_type = t })))
