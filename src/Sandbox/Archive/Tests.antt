-- ===== src/Sandbox/Archive/Tests.antt =====
-- Archives of three entries, for a sandbox that allows two or four.
use aegor_x.Prelude.{ℕ, ◌<◌, ◌≡◌, ◌⊎◌, refl, true, false, not, some, List, [], ◌∷◌, arith, select}
use aegor_x.Engine.Sniff.{starts_with}
use aegor_x.Sandbox.Archive.{
  Limits, suspicious, clean, traverses, is_absolute, entry_count, compute_risk,
}
use aegor_x.Sandbox.Archive.Analyse.{
  ArchiveFile, ZipInfo, TarMember, opened, malformed, detect_type, analyze, analyze_zip, add_infos,
  analyze_tar, add_members,
}
use aegor_x.Sandbox.Archive.Extract.{
  Unpacker, of_zip, of_tar, nothing, skips_info, extract, extract_loop,
}
use aegor_x.Sandbox.Archive.Safe.{IsSafeWritten, extract-IsSafe}
use aegor_x.Sandbox.Archive.Bombs.{extract-too_many}

abbrev info : List ℕ → ZipInfo
info name = record { filename = name; file_size = 10; compress_size = 5; is_dir = false; mode = 0 }

-- "a", "../b" and "C:c".
abbrev infos : List ZipInfo
infos =
    info (b'a' ∷ []) ∷ info (b'.' ∷ b'.' ∷ b'/' ∷ b'b' ∷ []) ∷ info (b'C' ∷ b':' ∷ b'c' ∷ []) ∷ []

abbrev file : ArchiveFile
file = record {
  is_file = true;
  head = some (b'P' ∷ b'K' ∷ 3 ∷ 4 ∷ []);
  ends_with = λ _. false;
  as_zip = opened infos;
  as_tar = λ _. malformed;
}

abbrev unpacker : Unpacker
unpacker = record { unpack_zip = λ _. true; unpack_tar = λ _. true }

abbrev two : Limits
two = record { max_entries = 2; max_total_size = 1000 }

abbrev four : Limits
four = record { max_entries = 4; max_total_size = 1000 }

extract-IsSafe_example :
    IsSafeWritten (extract four unpacker file).0
    × (((extract four unpacker file).0 ≡ nothing) ⊎ ((analyze four file).risk_score < 14))
extract-IsSafe_example = extract-IsSafe four unpacker file

written : (extract four unpacker file).0 ≡ of_zip (info (b'a' ∷ []) ∷ [])
unfolding extract analyze analyze_zip add_infos detect_type starts_with compute_risk traverses
    is_absolute extract_loop
written = refl

suspected : (extract four unpacker file).1.verdict ≡ suspicious
unfolding extract analyze analyze_zip add_infos detect_type starts_with compute_risk traverses
    is_absolute extract_loop
suspected = refl

extract-too_many_example :
    ((analyze two file).bomb ≡ some entry_count)
    × ((extract two unpacker file).0 ≡ of_zip (select (λ i. not (skips_info i)) infos))
unfolding detect_type starts_with
extract-too_many_example =
    extract-too_many two unpacker file infos refl refl refl (omega arith) (λ _. refl)

-- A link to /etc of a gzipped tar is written, and a file below the link as well.
abbrev link : TarMember
link = record {
  name = b'x' ∷ [];
  size = 0;
  is_dir = false;
  is_sym = true;
  is_lnk = false;
  linkname = b'/' ∷ b'e' ∷ b't' ∷ b'c' ∷ [];
}

abbrev below : TarMember
below = record {
  name = b'x' ∷ b'/' ∷ b'y' ∷ [];
  size = 1;
  is_dir = false;
  is_sym = false;
  is_lnk = false;
  linkname = [];
}

abbrev linked : ArchiveFile
linked = record file { head = some (0x1f ∷ 0x8b ∷ []); as_tar = λ _. opened (link ∷ below ∷ []) }

follows : (extract four unpacker linked).0 ≡ of_tar (link ∷ below ∷ [])
unfolding extract analyze analyze_tar add_members detect_type starts_with compute_risk traverses
    is_absolute extract_loop
follows = refl

-- A file that is not there ends as clean.
absent : (extract four unpacker (record file { is_file = false })).1.verdict ≡ clean
unfolding extract analyze compute_risk
absent = refl
