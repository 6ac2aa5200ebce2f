-- ===== src/Archives/Overwritten.antt =====
-- Where the entries of an archive are kept (aegorx/scanner/archives.py, `_write_stream`): a file is named
-- by the digest of its entry's name.
use aegor_x.Prelude.{
  ℕ, ◌+◌, String, ◌≤◌, length, length-append, append_assoc, append-nil, String_discrete, ◌≡◌, ◌∙◌,
  false, some, List, [], ◌∷◌, ◌++◌, arith, insert, lookup, lookup-insert, ltb, map, All, sym, ap,
  ◌≢◌, refl, if_pos, if_neg,
}
use aegor_x.Archives.{
  ArchiveLimits, Budget, ArchiveEntry, Member, at_end, Files, returned, check_budget, write_chunks,
  close_entry, end_stream, write_stream, Kind, passed_over, refused, extract_one, extract_members,
  extract, new_budget,
}

-- All that a reading yields.
abbrev pub content : List (List ℕ) → List ℕ
content [] = []
content (chunk ∷ chunks) = chunk ++ content chunks

length-content :
    (chunk : List ℕ) (chunks : List (List ℕ))
    → length (content (chunk ∷ chunks)) ≡ length chunk + length (content chunks)
length-content chunk chunks = length-append chunk (content chunks)

write_chunks-content :
    (limits : ArchiveLimits) (chunks : List (List ℕ)) (written used : ℕ) (before : List ℕ)
    → written + length (content chunks) ≤ limits.max_entry_bytes
    → used + length (content chunks) ≤ limits.max_total_bytes
    → write_chunks limits chunks written used before
      ≡ some (
        written + length (content chunks),
        used + length (content chunks),
        before ++ content chunks,
      )
unfolding write_chunks
write_chunks-content limits [] written used before h k = ground (arith, append-nil before)
write_chunks-content limits (chunk ∷ chunks) written used before h k = ground (
  arith,
  length-content chunk chunks,
  append_assoc before chunk (content chunks),
  write_chunks-content limits chunks (written + length chunk) (used + length chunk)
      (before ++ chunk),
)

-- A member within the limits that is read to its end in time is written whole: its bytes stand in the file
-- of its name's digest, the entry has its size, and the budget counts one entry and those bytes.
pub write_stream-whole :
    (digest : String → String) (b : Budget) (files : Files) (m : Member)
    → m.ending ≡ at_end
    → length (content m.chunks) ≤ b.limits.max_entry_bytes
    → b.bytes_used + length (content m.chunks) ≤ b.limits.max_total_bytes
    → b.entries_used + 1 ≤ b.limits.max_entries
    → m.after ≤ b.deadline
    → write_stream digest b files m
      ≡ returned (
        record b {
          entries_used = b.entries_used + 1;
          bytes_used = b.bytes_used + length (content m.chunks);
        },
        insert String_discrete (digest m.name) (content m.chunks) files,
        some
            (record { name = m.name; size = length (content m.chunks); temp_path = digest m.name }),
      )
unfolding write_stream end_stream close_entry check_budget
write_stream-whole digest b files m ending one all few early =
    let e : write_chunks b.limits m.chunks 0 b.bytes_used []
        ≡ some (
          length (content m.chunks),
          b.bytes_used + length (content m.chunks),
          content m.chunks,
        ) =
      write_chunks-content b.limits m.chunks 0 b.bytes_used [] (omega arith) (omega arith)
      ∙ ground arith in
    rw (e, write_stream, ending) (ground arith)

-- The loop opens the member, and reads it to its end in time.
pub record IsRead (kind : Kind) (b : Budget) (m : Member) : Type 0 where
  pub listed : passed_over m ≡ false
  pub accepted : refused kind b m ≡ false
  pub ends : m.ending ≡ at_end
  pub small : length (content m.chunks) ≤ b.limits.max_entry_bytes
  pub opened : m.before ≤ b.deadline
  pub closed : m.after ≤ b.deadline

-- The entry and the budget of a member that is written whole.
abbrev pub entry_of : (String → String) → Member → ArchiveEntry
entry_of digest m = record {
  name = m.name;
  size = length (content m.chunks);
  temp_path = digest m.name;
}

abbrev pub charged : Budget → Member → Budget
charged b m = record b {
  entries_used = b.entries_used + 1;
  bytes_used = b.bytes_used + length (content m.chunks);
}

extract_one-whole :
    (kind : Kind) (digest : String → String) (b : Budget) (files : Files) (m : Member)
    → IsRead kind b m
    → b.bytes_used + length (content m.chunks) ≤ b.limits.max_total_bytes
    → b.entries_used + 1 ≤ b.limits.max_entries
    → extract_one kind digest b files m
      ≡ returned (
        charged b m,
        insert String_discrete (digest m.name) (content m.chunks) files,
        some (entry_of digest m),
      )
unfolding extract_one check_budget
extract_one-whole kind digest b files m h all few =
    let early : ltb b.deadline m.before ≡ false = ground (arith, h.opened) in
    let room : ltb b.limits.max_entries b.entries_used ≡ false = ground arith in
    rw (early, room, extract_one, h.listed, h.accepted)
      (write_stream-whole digest b files m h.ends h.small all few h.closed)

-- The loop reads all members to their ends, each within the limits and in time.
abbrev pub AreRead : Kind → Budget → List Member → Type 0
AreRead kind b [] = Unit
AreRead kind b (m ∷ ms) =
    IsRead kind b m
    × (b.bytes_used + length (content m.chunks) ≤ b.limits.max_total_bytes)
    × (b.entries_used + 1 ≤ b.limits.max_entries)
    × AreRead kind (charged b m) ms

abbrev pub charged_all : Budget → List Member → Budget
charged_all b [] = b
charged_all b (m ∷ ms) = charged_all (charged b m) ms

-- The files when each member was written over what stood under its digest.
abbrev pub stored_all : (String → String) → List Member → Files → Files
stored_all digest [] files = files
stored_all digest (m ∷ ms) files =
    stored_all digest ms (insert String_discrete (digest m.name) (content m.chunks) files)

extract_members-whole :
    (kind : Kind) (digest : String → String) (b : Budget) (files : Files)
    (entries : List ArchiveEntry) (ms : List Member)
    → AreRead kind b ms
    → extract_members kind digest b files entries ms
      ≡ returned (charged_all b ms, stored_all digest ms files, entries ++ map (entry_of digest) ms)
unfolding extract_members
extract_members-whole kind digest b files entries [] h = ground (arith, append-nil entries)
extract_members-whole kind digest b files entries (m ∷ ms) (read, all, few, rest) =
    rw (extract_members, extract_one-whole kind digest b files m read all few)
      (extract_members-whole kind digest (charged b m)
          (insert String_discrete (digest m.name) (content m.chunks) files)
          (entries ++ entry_of digest m ∷ []) ms rest
        ∙ ground (arith, append_assoc entries (entry_of digest m ∷ []) (map (entry_of digest) ms)))

stored_all-append :
    (digest : String → String) (ms ns : List Member) (files : Files)
    → stored_all digest (ms ++ ns) files ≡ stored_all digest ns (stored_all digest ms files)
stored_all-append digest [] ns files = refl
stored_all-append digest (m ∷ ms) ns files =
    stored_all-append digest ms ns (insert String_discrete (digest m.name) (content m.chunks) files)

stored_all-others :
    (digest : String → String) (path : String) (ms : List Member) (files : Files)
    → All (λ m. digest m.name ≢ path) ms
    → lookup String_discrete path (stored_all digest ms files) ≡ lookup String_discrete path files
stored_all-others digest path [] files h = refl
stored_all-others digest path (m ∷ ms) files (other, h) =
    stored_all-others digest path ms
      (insert String_discrete (digest m.name) (content m.chunks) files) h
    ∙ lookup-insert String_discrete path (digest m.name) (content m.chunks) files
    ∙ if_neg (String_discrete (digest m.name) path) other _ _

-- Of two members of one name, with any members before, between and behind them, all of which an
-- extraction reads within its limits, and of which none behind has the second one's digest: an entry is
-- returned for each member, those of the two for the one file of their digest, and this file holds the
-- content of the second alone.
pub extract-overwrites :
    (kind : Kind) (digest : String → String) (limits : ArchiveLimits) (deadline : ℕ)
    (before between behind : List Member) (m n : Member)
    → n.name ≡ m.name
    → AreRead kind (new_budget limits deadline) (before ++ m ∷ (between ++ n ∷ behind))
    → All (λ p. digest p.name ≢ digest n.name) behind
    → (b : Budget) × (files : Files) × (extract kind digest limits deadline
          (before ++ m ∷ (between ++ n ∷ behind))
        ≡ returned (b, files, map (entry_of digest) (before ++ m ∷ (between ++ n ∷ behind))))
      × ((entry_of digest m).temp_path ≡ (entry_of digest n).temp_path)
      × (lookup String_discrete (digest m.name) files ≡ some (content n.chunks))
unfolding extract
extract-overwrites kind digest limits deadline before between behind m n same read others =
    let ms = before ++ m ∷ (between ++ n ∷ behind) in
    let start : Files =
      stored_all digest between (stored_all digest (m ∷ []) (stored_all digest before [])) in
    let files = stored_all digest ms [] in
    let split : files ≡ stored_all digest (n ∷ behind) start =
      stored_all-append digest before (m ∷ (between ++ n ∷ behind)) []
      ∙ stored_all-append digest between (n ∷ behind)
          (stored_all digest (m ∷ []) (stored_all digest before [])) in
    (
      charged_all (new_budget limits deadline) ms,
      files,
      extract_members-whole kind digest (new_budget limits deadline) [] [] ms read,
      ap digest (sym same),
      ap (λ x. lookup String_discrete (digest m.name) x) split
          ∙ ap (λ x. lookup String_discrete (digest x) (stored_all digest (n ∷ behind) start))
              (sym same)
          ∙ stored_all-others digest (digest n.name) behind
              (insert String_discrete (digest n.name) (content n.chunks) start) others
          ∙ lookup-insert String_discrete (digest n.name) (digest n.name) (content n.chunks) start
          ∙ if_pos (String_discrete (digest n.name) (digest n.name)) refl _ _,
    )
