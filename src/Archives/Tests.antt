-- ===== src/Archives/Tests.antt =====
-- Runs of the extraction of aegorx/scanner/archives.py over two members of one name.
use aegor_x.Prelude.{
  ◌≡◌, refl, String, String_discrete, false, some, [], ◌∷◌, arith, lookup, insert,
}
use aegor_x.Archives.{
  ArchiveLimits, Member, Budget, Files, at_end, returned, zip, extract, extract_members,
  extract_one, write_stream, write_chunks, end_stream, close_entry, check_budget, new_budget,
  refused,
}
use aegor_x.Archives.Budgets.{Within, extract-Within}
use aegor_x.Archives.Overwritten.{IsRead, entry_of, charged, extract-overwrites}

abbrev limits : ArchiveLimits
limits = record { max_entries = 2; max_total_bytes = 10; max_entry_bytes = 6 }

-- Three bytes under a name, in two chunks.
abbrev bad : Member
bad = record {
  name = "a.txt";
  is_dir = false;
  is_link = false;
  file_size = 3;
  compress_size = 3;
  chunks = (1 ∷ 2 ∷ []) ∷ (3 ∷ []) ∷ [];
  ending = at_end;
  before = 0;
  after = 1;
}

abbrev good : Member
good = record bad { chunks = (9 ∷ []) ∷ []; file_size = 1; before = 1; after = 2 }

abbrev digest : String → String
digest name = name

bad-IsRead : IsRead zip (new_budget limits 5) bad
unfolding refused
bad-IsRead = record {
  listed = refl;
  accepted = refl;
  ends = refl;
  small = omega arith;
  opened = omega arith;
  closed = omega arith;
}

good-IsRead : IsRead zip (charged (new_budget limits 5) bad) good
unfolding refused
good-IsRead = record {
  listed = refl;
  accepted = refl;
  ends = refl;
  small = omega arith;
  opened = omega arith;
  closed = omega arith;
}

extracts_both :
    extract zip digest limits 5 (bad ∷ good ∷ [])
    ≡ returned (
      charged (charged (new_budget limits 5) bad) good,
      ("a.txt", 9 ∷ []) ∷ [],
      entry_of digest bad ∷ entry_of digest good ∷ [],
    )
unfolding extract extract_members extract_one write_stream write_chunks end_stream close_entry
    check_budget refused insert String_discrete
extracts_both = refl

extract-overwrites_example :
    (b : Budget) × (files : Files) × (extract zip digest limits 5 (bad ∷ good ∷ [])
      ≡ returned (b, files, entry_of digest bad ∷ entry_of digest good ∷ []))
    × ((entry_of digest bad).temp_path ≡ (entry_of digest good).temp_path)
    × (lookup String_discrete "a.txt" files ≡ some (9 ∷ []))
extract-overwrites_example =
    extract-overwrites zip digest limits 5 [] [] [] bad good refl
      (bad-IsRead, omega arith, omega arith, (good-IsRead, omega arith, omega arith, tt)) tt

extract-Within_example :
    Within limits
      (charged (charged (new_budget limits 5) bad) good)
      (entry_of digest bad ∷ entry_of digest good ∷ [])
extract-Within_example =
    extract-Within zip digest limits 5 (bad ∷ good ∷ [])
      (charged (charged (new_budget limits 5) bad) good) (("a.txt", 9 ∷ []) ∷ [])
      (entry_of digest bad ∷ entry_of digest good ∷ []) extracts_both
