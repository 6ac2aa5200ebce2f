-- ===== src/Engine/Depth.antt =====
-- The recursion of aegorx/engine.py into archives ends at `max_depth`: the fuel of `scan_at` is enough.
use aegor_x.Prelude.{
  ℕ, zero, suc, ◌+◌, ◌≤◌, String, ◌≡◌, refl, true, List, arith, leb, fun_ext, ap, inl, inr,
  Option-cases,
}
use aegor_x.Engine.World.{Engine, World, FileScanResult, new_result, Io, ok, raised, Hashes}
use aegor_x.Engine.Cache.{ScanCache, hit, miss, cache_key}
use aegor_x.Engine.Scan.{
  Scanner, archive_stage, analyse, scan_hashed, scan_sized, scan_uncached, or_scan, scan_step,
  scan_at, with_hashes,
}

-- At the depth limit the scanner of the next depth is never called.
module _ (e : Engine) (w : World) (depth : ℕ) (deep : leb e.max_depth depth ≡ true)
    (f g : Scanner) where
  archive_stage-same :
      (path : String) (head : List ℕ) (c : ScanCache)
      → archive_stage f e w path depth head c ≡ archive_stage g e w path depth head c
  unfolding archive_stage
  archive_stage-same path head c = rw deep refl

  analyse-same :
      (path : String) (r : FileScanResult) (h : Hashes) (c : ScanCache)
      → analyse f e w path depth r h c ≡ analyse g e w path depth r h c
  unfolding analyse
  analyse-same path r h c = rw (archive_stage-same path _ c)

  scan_hashed-same :
      (c : ScanCache) (path : String) (r : FileScanResult) (x : Io Hashes)
      → scan_hashed f e w depth c path r x ≡ scan_hashed g e w depth c path r x
  unfolding scan_hashed
  scan_hashed-same c path r (raised x) = refl
  scan_hashed-same c path r (ok h) = analyse-same path (with_hashes r h) h c

  scan_sized-same :
      (c : ScanCache) (path : String) (x : Io ℕ)
      → scan_sized f e w depth c path x ≡ scan_sized g e w depth c path x
  unfolding scan_sized
  scan_sized-same c path (raised x) = refl
  scan_sized-same c path (ok size) =
      rw (scan_hashed-same c path (record (new_result path) { size = size }) (w.file_hashes path))

  scan_uncached-same :
      (c : ScanCache) (path : String)
      → scan_uncached f e w depth c path ≡ scan_uncached g e w depth c path
  unfolding scan_uncached
  scan_uncached-same c path = scan_sized-same c path (w.getsize path)

  scan_step-same : scan_step f e w depth ≡ scan_step g e w depth
  unfolding scan_step or_scan
  scan_step-same = fun_ext λ c. fun_ext λ path. elim (Option-cases (hit (cache_key w path) c)) [
    | inr (found, e') ↦ rw e'
    | inl absent ↦ rw (absent, scan_uncached-same (miss c) path)
  ]

-- Where the fuel covers the levels from a depth up to `max_depth`, one more unit of it changes nothing
-- in what a scan at that depth returns and caches.
pub scan_at-fuel :
    (fuel : ℕ) (e : Engine) (w : World) (depth : ℕ)
    → e.max_depth ≤ depth + fuel
    → scan_at (suc fuel) e w depth ≡ scan_at (suc (suc fuel)) e w depth
unfolding scan_at
scan_at-fuel zero e w depth h =
    scan_step-same e w depth (ground arith) (scan_at zero e w (depth + 1))
      (scan_at (suc zero) e w (depth + 1))
scan_at-fuel (suc fuel) e w depth h =
    ap (λ (s : Scanner). scan_step s e w depth) (scan_at-fuel fuel e w (depth + 1) (omega arith))
