-- ===== src/Sandbox/Archive/Bombs.antt =====
-- What the sandbox of aegorx/sandbox/archive_sandbox.py does with an archive of too many entries.
use aegor_x.Prelude.{
  ℕ, ◌<◌, ◌≡◌, refl, ap, Bool, true, false, not, some, List, [], ◌∷◌, arith, ltb, leb, length,
  select,
}
use aegor_x.Sandbox.Archive.{ExtractionResult, Limits, zip, new_result, entry_count, compute_risk}
use aegor_x.Sandbox.Archive.Analyse.{
  ArchiveFile, ZipInfo, opened, detect_type, too_many, analyze_zip, analyze,
}
use aegor_x.Sandbox.Archive.Extract.{Unpacker, of_zip, extract_loop, skips_info, extract}

module _ {A : Type 0} (skips unpacks : A → Bool) where
  extract_loop-select :
      ((x : A) → unpacks x ≡ true)
      → (xs : List A) → (extract_loop skips unpacks xs).written ≡ select (λ x. not (skips x)) xs
  unfolding extract_loop
  extract_loop-select h [] = refl
  extract_loop-select h (x ∷ xs) = ground (arith, extract_loop-select h xs, h x)

-- The result of the analysis before it is weighed.
abbrev counted_out : ℕ → ExtractionResult
counted_out n = too_many (record new_result { archive_type = zip; total_entries = n })

analyze-too_many :
    (l : Limits) (f : ArchiveFile) (infos : List ZipInfo)
    → f.is_file ≡ true
    → detect_type f ≡ zip
    → f.as_zip ≡ opened infos
    → l.max_entries < length infos
    → analyze l f ≡ compute_risk (counted_out (length infos))
unfolding analyze analyze_zip compute_risk detect_type
analyze-too_many l f infos is_file is_zip opens many =
    let t : ltb l.max_entries (length infos) ≡ true = ground arith in
    rw (analyze, is_file, is_zip, analyze_zip, opens, t) refl

risk_low : (n : ℕ) → (compute_risk (counted_out n)).risk_score < 14
unfolding compute_risk
risk_low n = ground arith

-- A ZIP archive of more entries than the limit, each of which can be unpacked, is told to be a
-- bomb, and all its entries are written nonetheless, but those that no archive may have.
pub extract-too_many :
    (l : Limits) (u : Unpacker) (f : ArchiveFile) (infos : List ZipInfo)
    → f.is_file ≡ true
    → detect_type f ≡ zip
    → f.as_zip ≡ opened infos
    → l.max_entries < length infos
    → ((i : ZipInfo) → u.unpack_zip i ≡ true)
    → ((analyze l f).bomb ≡ some entry_count)
      × ((extract l u f).0 ≡ of_zip (select (λ i. not (skips_info i)) infos))
unfolding extract compute_risk
extract-too_many l u f infos is_file is_zip opens many works =
    let a = analyze-too_many l f infos is_file is_zip opens many in
    let low : leb 14 (compute_risk (counted_out (length infos))).risk_score ≡ false =
      ground (arith, risk_low (length infos)) in
    (
      ap (λ r. r.bomb) a,
      rw (extract, a, low, opens)
          (ap (λ is. of_zip is) (extract_loop-select skips_info u.unpack_zip works infos)),
    )
