-- ===== src/Archives.antt =====
-- Bounded extraction of archives (aegorx/scanner/archives.py): the budget, the writing of one entry, and
-- the loops over the members of a ZIP and of a TAR file.
--
-- The archive formats are Python's: `Member` is what `zipfile` and `tarfile` say of a member, with the
-- chunks that reading it yields and how the reading ends, and the clock as the two budget checks around
-- it read it. `digest` gives the name of the file that an entry is written to. A chunk is a list of bytes.
pub mod Budgets
pub mod Overwritten
mod Tests
use aegor_x.Prelude.{
  ℕ, ◌+◌, ◌*◌, ◌≤◌, String, String_discrete, Bool, true, false, ◌||◌, not, Option, none, some, List,
  [], ◌∷◌, ◌++◌, ltb, leb, ◌==◌, max, length, lookup, insert, remove, if◌then◌else◌,
}

pub record ArchiveLimits : Type 0 where
  pub max_entries : ℕ
  pub max_total_bytes : ℕ
  pub max_entry_bytes : ℕ

pub record Budget : Type 0 where
  pub limits : ArchiveLimits
  pub entries_used : ℕ
  pub bytes_used : ℕ
  pub deadline : ℕ

pub record ArchiveEntry : Type 0 where
  pub name : String
  pub size : ℕ
  pub temp_path : String

-- How the reading of a member ends: at its end, in an OSError, in a RuntimeError (an encrypted entry), or
-- in one of the exceptions of a malformed archive. A RuntimeError of a TAR member, and zlib.error, which
-- `extract_archive` does not catch, are left out.
pub data Ending : Type 0 where
  at_end os_failed encrypted malformed : Ending

pub record Member : Type 0 where
  pub name : String
  pub is_dir : Bool
  pub is_link : Bool
  pub file_size : ℕ
  pub compress_size : ℕ
  pub chunks : List (List ℕ)
  pub ending : Ending
  pub before : ℕ  -- time.monotonic() at the check in the loop
  pub after : ℕ  -- and at the check behind the entry

-- The files under `workdir`.
abbrev pub Files : Type 0
Files = List (String × List ℕ)

-- A call that returns, or raises ArchiveBomb, or another ArchiveError.
pub data Outcome (A : Type 0) : Type 0 where
  returned : A → Outcome A
  bomb : Outcome A
  failed : Outcome A

-- `_check_budget`
unfoldable pub check_budget : ℕ → Budget → Outcome (Unit {0})
check_budget now b =
    if ltb b.deadline now
    then failed
    else if ltb b.limits.max_entries b.entries_used
    then bomb
    else returned tt

-- The loop of `_write_stream`: the bytes written, the bytes used of the budget, and the file's content, or
-- none for ArchiveBomb.
unfoldable pub write_chunks :
    ArchiveLimits → List (List ℕ) → ℕ → ℕ → List ℕ → Option (ℕ × ℕ × List ℕ)
write_chunks limits [] written used content = some (written, used, content)
write_chunks limits (chunk ∷ chunks) written used content =
    let rest =
      write_chunks limits chunks (written + length chunk) (used + length chunk)
        (content ++ chunk) in
    if ltb limits.max_entry_bytes (written + length chunk)
    then none
    else if ltb limits.max_total_bytes (used + length chunk)
    then none
    else rest

-- What the budget, the files and the entries are after one entry.
abbrev pub Progress : Type 0
Progress = Budget × Files × Option ArchiveEntry

-- `entries_used += 1`, the check, and the entry that is returned.
unfoldable pub close_entry : Budget → Files → ℕ → ArchiveEntry → Outcome Progress
unfolding check_budget
close_entry b files now entry =
    let b' : Budget = record b { entries_used = b.entries_used + 1 } in
    elim (check_budget now b') [
      | returned _ ↦ returned (b', files, some entry)
      | bomb ↦ bomb
      | failed ↦ failed
    ]

-- The end of `_write_stream`, by how the reading ended.
unfoldable pub end_stream : Budget → Files → ℕ → ArchiveEntry → List ℕ → Ending → Outcome Progress
unfolding close_entry
end_stream b files now entry content at_end =
    close_entry b (insert String_discrete entry.temp_path content files) now entry
end_stream b files now entry content os_failed =
    returned (b, remove String_discrete entry.temp_path files, none)
end_stream b files now entry content encrypted = failed
end_stream b files now entry content malformed = failed

-- `_write_stream`
unfoldable pub write_stream : (String → String) → Budget → Files → Member → Outcome Progress
unfolding end_stream write_chunks
write_stream digest b files m = elim (write_chunks b.limits m.chunks 0 b.bytes_used []) [
  | none ↦ bomb
  | some (written, used, content) ↦
      end_stream (record b { bytes_used = used }) files m.after
        (record { name = m.name; size = written; temp_path = digest m.name }) content m.ending
]

abbrev pub max_sane_ratio : ℕ
max_sane_ratio = 600

abbrev pub min_bomb_floor_bytes : ℕ
min_bomb_floor_bytes = 64 * 1024 * 1024

-- file_size / max(1, compress_size) <= MAX_SANE_RATIO
abbrev pub ratio_ok : Member → Bool
ratio_ok m =
    leb m.file_size min_bomb_floor_bytes
    || m.compress_size == 0
    || leb m.file_size (max_sane_ratio * max 1 m.compress_size)

-- Whether a ZIP or a TAR file is extracted.
pub data Kind : Type 0 where
  zip tar : Kind

-- A member that the loop passes over: a directory or a link.
abbrev pub passed_over : Member → Bool
passed_over m = m.is_dir || m.is_link

-- The test before a member is opened: the ratio of a ZIP entry, the size of a TAR member.
unfoldable pub refused : Kind → Budget → Member → Bool
refused zip b m = not (ratio_ok m)
refused tar b m = ltb b.limits.max_entry_bytes m.file_size

abbrev pub kept : Option ArchiveEntry → List ArchiveEntry
kept none = []
kept (some entry) = entry ∷ []

-- One round of the loop.
unfoldable pub extract_one : Kind → (String → String) → Budget → Files → Member → Outcome Progress
unfolding check_budget refused write_stream
extract_one kind digest b files m = elim (check_budget m.before b) [
  | failed ↦ failed
  | bomb ↦ bomb
  | returned _ ↦
      if passed_over m
      then returned (b, files, none)
      else if refused kind b m
      then bomb
      else write_stream digest b files m
]

-- The loop of `_extract_zip` and of `_extract_tar`.
unfoldable pub extract_members :
    Kind
    → (String → String)
    → Budget
    → Files
    → List ArchiveEntry
    → List Member
    → Outcome (Budget × Files × List ArchiveEntry)
unfolding extract_one
extract_members kind digest b files entries [] = returned (b, files, entries)
extract_members kind digest b files entries (m ∷ ms) = elim (extract_one kind digest b files m) [
  | failed ↦ failed
  | bomb ↦ bomb
  | returned (b', files', entry) ↦ extract_members kind digest b' files' (entries ++ kept entry) ms
]

-- A new budget, from the limits and the time at which it must end.
abbrev pub new_budget : ArchiveLimits → ℕ → Budget
new_budget limits deadline = record {
  limits = limits;
  entries_used = 0;
  bytes_used = 0;
  deadline = deadline;
}

unfoldable pub extract :
    Kind
    → (String → String)
    → ArchiveLimits
    → ℕ
    → List Member
    → Outcome (Budget × Files × List ArchiveEntry)
unfolding extract_members
extract kind digest limits deadline ms =
    extract_members kind digest (new_budget limits deadline) [] [] ms
