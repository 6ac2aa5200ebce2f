-- ===== src/Sandbox/Archive/Extract.antt =====
-- The extraction of an archive: `ArchiveSandbox.extract` of aegorx/sandbox/archive_sandbox.py.
-- `unpack` is `extract` of zipfile and tarfile, which writes the entry or fails with an exception that the
-- code catches; others, such as the RuntimeError of an encrypted entry, are left out.
use aegor_x.Prelude.{ℕ, ◌+◌, Bool, true, false, ◌&&◌, ◌||◌, List, [], ◌∷◌, ltb, leb, if◌then◌else◌}
use aegor_x.Sandbox.Archive.{
  ArchiveType, ExtractionResult, Limits, zip, gzip, bzip2, xz, tar, unknown, seven_zip, rar, note,
  malicious, traverses, is_absolute, compute_risk, extraction_error, max_individual_size,
}
use aegor_x.Sandbox.Archive.Analyse.{
  ArchiveFile, ZipInfo, TarMember, Opened, opened, malformed, unreadable, analyze,
}

-- What the loops have written, in order, and the counts.
pub record Run (A : Type 0) : Type 0 where
  pub written : List A
  pub extracted : ℕ
  pub skipped : ℕ
  pub failed : Bool

abbrev pub empty_run : {A : Type 0} → Run A
empty_run = record { written = []; extracted = 0; skipped = 0; failed = false }

module _ {A : Type 0} where
  -- One entry, and then the rest of the loop; nothing is done behind a failure.
  abbrev pub skip_one : Run A → Run A
  skip_one r = record r { skipped = r.skipped + 1 }

  abbrev pub write_one : A → Run A → Run A
  write_one x r = record r { written = x ∷ r.written; extracted = r.extracted + 1 }

  -- The loop, as the run of the rest with this entry in front.
  unfoldable pub extract_loop : (A → Bool) → (A → Bool) → List A → Run A
  extract_loop skips unpacks [] = empty_run
  extract_loop skips unpacks (x ∷ xs) =
      let rest = extract_loop skips unpacks xs in
      if skips x
      then skip_one rest
      else if unpacks x
      then write_one x rest
      else record empty_run { failed = true }

abbrev pub skips_info : ZipInfo → Bool
skips_info i = traverses i.filename || is_absolute i.filename || ltb max_individual_size i.file_size

abbrev pub skips_member : TarMember → Bool
skips_member m =
    traverses m.name
    || is_absolute m.name
    || ltb max_individual_size m.size
    || ((m.is_sym || m.is_lnk) && traverses m.linkname)

-- A file of an archive that was written.
pub data Written : Type 0 where
  of_zip : List ZipInfo → Written
  of_tar : List TarMember → Written
  nothing : Written

pub record Unpacker : Type 0 where
  pub unpack_zip : ZipInfo → Bool
  pub unpack_tar : TarMember → Bool

abbrev pub counted : {A : Type 0} → Run A → ExtractionResult → ExtractionResult
counted run r =
    let r = record r {
      extracted_entries = r.extracted_entries + run.extracted;
      skipped_entries = r.skipped_entries + run.skipped;
    } in
    if run.failed then note extraction_error r else r

abbrev pub extract_zip : Unpacker → Opened ZipInfo → ExtractionResult → Written × ExtractionResult
extract_zip u (opened infos) r =
    let run = extract_loop skips_info u.unpack_zip infos in (of_zip run.written, counted run r)
extract_zip u malformed r = (nothing, note extraction_error r)
extract_zip u unreadable r = (nothing, note extraction_error r)

abbrev pub extract_tar : Unpacker → Opened TarMember → ExtractionResult → Written × ExtractionResult
extract_tar u (opened members) r =
    let run = extract_loop skips_member u.unpack_tar members in (of_tar run.written, counted run r)
extract_tar u malformed r = (nothing, note extraction_error r)
extract_tar u unreadable r = (nothing, note extraction_error r)

-- A plain tar is analysed and not extracted.
abbrev pub extract_as :
    Unpacker → ArchiveFile → ArchiveType → ExtractionResult → Written × ExtractionResult
extract_as u f zip r = extract_zip u f.as_zip r
extract_as u f gzip r = extract_tar u (f.as_tar gzip) r
extract_as u f bzip2 r = extract_tar u (f.as_tar bzip2) r
extract_as u f xz r = extract_tar u (f.as_tar xz) r
extract_as u f tar r = (nothing, r)
extract_as u f unknown r = (nothing, r)
extract_as u f seven_zip r = (nothing, r)
extract_as u f rar r = (nothing, r)

unfoldable pub extract : Limits → Unpacker → ArchiveFile → Written × ExtractionResult
unfolding analyze extract_loop
extract l u f =
    let r = analyze l f in
    if leb 14 r.risk_score
    then (nothing, record r { verdict = malicious })
    else (let done = extract_as u f r.archive_type r in (done.0, compute_risk done.1))
