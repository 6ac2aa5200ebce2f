-- ===== src/Archives/Budgets.antt =====
-- The resource budget of aegorx/scanner/archives.py: what an extraction that returns has used.
use aegor_x.Prelude.{
  ℕ, ◌+◌, ◌≤◌, String, ◌≡◌, refl, false, Option, none, some, List, [], ◌∷◌, ◌++◌, length,
  length-append, arith, All, All-append, append-nil, Option-cases, Bool-cases, inl, inr, ltb,
}
use aegor_x.Archives.{
  ArchiveLimits, Budget, ArchiveEntry, Member, Ending, at_end, os_failed, encrypted, malformed,
  Files, Outcome, returned, bomb, failed, check_budget, write_chunks, Progress, close_entry,
  end_stream, write_stream, Kind, kept, passed_over, refused, extract_one, extract_members, extract,
  new_budget,
}

abbrev pub total : List ArchiveEntry → ℕ
total [] = 0
total (e ∷ es) = e.size + total es

total-append : (xs ys : List ArchiveEntry) → total (xs ++ ys) ≡ total xs + total ys
total-append [] ys = omega arith
total-append (x ∷ xs) ys = omega (arith, total-append xs ys)

-- What has been extracted is within the limits, and the budget accounts for it.
pub record Within (limits : ArchiveLimits) (b : Budget) (entries : List ArchiveEntry) : Type 0 where
  pub same : b.limits ≡ limits
  pub counted : length entries ≡ b.entries_used
  pub few : b.entries_used ≤ limits.max_entries
  pub accounted : total entries ≤ b.bytes_used
  pub small : b.bytes_used ≤ limits.max_total_bytes
  pub each : All (λ e. e.size ≤ limits.max_entry_bytes) entries

-- The property holds of what is returned, if anything is.
abbrev IfSome : {A : Type 0} → (A → Type 0) → Option A → Type 0
IfSome P none = Unit {0}
IfSome P (some x) = P x

abbrev IfReturned : {A : Type 0} → (A → Type 0) → Outcome A → Type 0
IfReturned P (returned x) = P x
IfReturned P bomb = Unit {0}
IfReturned P failed = Unit {0}

abbrev FitsFrom : ArchiveLimits → ℕ → ℕ → ℕ × ℕ × List ℕ → Type 0
FitsFrom limits written used (w, u, c) =
    (w ≤ limits.max_entry_bytes) × (u ≤ limits.max_total_bytes) × (w + used ≡ u + written)

FitsFrom-later :
    (limits : ArchiveLimits) (written used n : ℕ) (o : Option (ℕ × ℕ × List ℕ))
    → IfSome (FitsFrom limits (written + n) (used + n)) o
    → IfSome (FitsFrom limits written used) o
FitsFrom-later limits written used n none h = tt
FitsFrom-later limits written used n (some (w, u, c)) h = (h.0, h.1, omega arith)

write_chunks-Fits :
    (limits : ArchiveLimits) (chunks : List (List ℕ)) (written used : ℕ) (content : List ℕ)
    → written ≤ limits.max_entry_bytes
    → used ≤ limits.max_total_bytes
    → IfSome (FitsFrom limits written used) (write_chunks limits chunks written used content)
unfolding write_chunks
write_chunks-Fits limits [] written used content h k = (h, k, omega arith)
write_chunks-Fits limits (chunk ∷ chunks) written used content h k =
    elim (Bool-cases (ltb limits.max_entry_bytes (written + length chunk))) [
      | inl e ↦ rw e tt
      | inr e ↦ elim (Bool-cases (ltb limits.max_total_bytes (used + length chunk))) [
        | inl f ↦ rw (e, f) tt
        | inr f ↦
            rw (e, f)
              (FitsFrom-later limits written used (length chunk)
                (write_chunks limits chunks (written + length chunk) (used + length chunk)
                  (content ++ chunk))
                (write_chunks-Fits limits chunks (written + length chunk) (used + length chunk)
                  (content ++ chunk) (ground arith) (ground arith)))
      ]
    ]

module _ (limits : ArchiveLimits) where
  -- One round keeps the budget's account.
  abbrev Keeps : List ArchiveEntry → Progress → Type 0
  Keeps entries (b, files, entry) = Within limits b (entries ++ kept entry)

  close_entry-Keeps :
      (b : Budget) (files : Files) (now : ℕ) (entry : ArchiveEntry) (entries : List ArchiveEntry)
      → b.limits ≡ limits
      → length entries ≡ b.entries_used
      → total entries + entry.size ≤ b.bytes_used
      → b.bytes_used ≤ limits.max_total_bytes
      → All (λ e. e.size ≤ limits.max_entry_bytes) entries
      → entry.size ≤ limits.max_entry_bytes
      → IfReturned (Keeps entries) (close_entry b files now entry)
  unfolding close_entry check_budget
  close_entry-Keeps b files now entry entries same counted accounted small each fits =
      elim (Bool-cases (ltb b.deadline now)) [
        | inl e ↦ rw (e, close_entry) tt
        | inr e ↦ elim (Bool-cases (ltb b.limits.max_entries (b.entries_used + 1))) [
          | inl f ↦ rw (e, f, close_entry) tt
          | inr f ↦
              let enough : ltb limits.max_entries (b.entries_used + 1) ≡ false = rw same at f in
              rw (e, f, close_entry)
                (record {
                  same = same;
                  counted = omega (arith, length-append entries (entry ∷ []));
                  few = ground arith;
                  accounted = omega (arith, total-append entries (entry ∷ []));
                  small = small;
                  each = All-append _ entries (entry ∷ []) each (fits, tt);
                })
        ]
      ]

  end_stream-Keeps :
      (b : Budget) (files : Files) (now : ℕ) (entry : ArchiveEntry) (content : List ℕ)
      (ending : Ending) (entries : List ArchiveEntry)
      → b.limits ≡ limits
      → length entries ≡ b.entries_used
      → b.entries_used ≤ limits.max_entries
      → total entries + entry.size ≤ b.bytes_used
      → b.bytes_used ≤ limits.max_total_bytes
      → All (λ e. e.size ≤ limits.max_entry_bytes) entries
      → entry.size ≤ limits.max_entry_bytes
      → IfReturned (Keeps entries) (end_stream b files now entry content ending)
  unfolding end_stream
  end_stream-Keeps b files now entry content at_end entries same counted few accounted small each
        fits =
      close_entry-Keeps b _ now entry entries same counted accounted small each fits
  end_stream-Keeps b files now entry content os_failed entries same counted few accounted small each
        fits =
      rw (append-nil entries) (record {
        same = same;
        counted = counted;
        few = few;
        accounted = omega arith;
        small = small;
        each = each;
      })
  end_stream-Keeps b files now entry content encrypted entries same counted few accounted small each
        fits =
      tt
  end_stream-Keeps b files now entry content malformed entries same counted few accounted small each
        fits =
      tt

  module _ (digest : String → String) where
    write_stream-Keeps :
        (b : Budget) (files : Files) (m : Member) (entries : List ArchiveEntry)
        → Within limits b entries
        → IfReturned (Keeps entries) (write_stream digest b files m)
    unfolding write_stream
    write_stream-Keeps b files m entries h =
        let fits =
          write_chunks-Fits b.limits m.chunks 0 b.bytes_used [] (omega arith) (rw h.same h.small) in
        elim (Option-cases (write_chunks b.limits m.chunks 0 b.bytes_used [])) [
          | inl e ↦ rw (e, write_stream) tt
          | inr ((w, u, c), e) ↦
              let (one, all, sum) : FitsFrom limits 0 b.bytes_used (w, u, c) =
                rw h.same at (rw e at fits) in
              rw (e, write_stream)
                (end_stream-Keeps (record b { bytes_used = u }) files m.after
                  (record { name = m.name; size = w; temp_path = digest m.name }) c m.ending entries
                  h.same h.counted h.few (omega (arith, h.accounted)) all h.each one)
        ]

    unchanged :
        (b : Budget) (files : Files) (entries : List ArchiveEntry)
        → Within limits b entries
        → Keeps entries (b, files, none)
    unchanged b files entries h = rw (append-nil entries) h

    extract_one-Keeps :
        (kind : Kind) (b : Budget) (files : Files) (m : Member) (entries : List ArchiveEntry)
        → Within limits b entries
        → IfReturned (Keeps entries) (extract_one kind digest b files m)
    unfolding extract_one check_budget
    extract_one-Keeps kind b files m entries h = elim (Bool-cases (ltb b.deadline m.before)) [
      | inl e ↦ rw (e, extract_one) tt
      | inr e ↦ elim (Bool-cases (ltb b.limits.max_entries b.entries_used)) [
        | inl f ↦ rw (e, f, extract_one) tt
        | inr f ↦ elim (Bool-cases (passed_over m)) [
          | inl g ↦ rw (e, f, extract_one, g) (unchanged b files entries h)
          | inr g ↦ elim (Bool-cases (refused kind b m)) [
            | inl r ↦ rw (e, f, extract_one, g, r) tt
            | inr r ↦ rw (e, f, extract_one, g, r) (write_stream-Keeps b files m entries h)
          ]
        ]
      ]
    ]

    abbrev AllWithin : Outcome (Budget × Files × List ArchiveEntry) → Type 0
    AllWithin = IfReturned (λ (r : Budget × Files × List ArchiveEntry). Within limits r.0 r.2)

    extract_rest :
        (kind : Kind) (entries : List ArchiveEntry) (ms : List Member) (o : Outcome Progress)
        → IfReturned (Keeps entries) o
        → ((b' : Budget) (files' : Files) (entry : Option ArchiveEntry)
            → Within limits b' (entries ++ kept entry)
            → AllWithin (extract_members kind digest b' files' (entries ++ kept entry) ms))
        → AllWithin (elim o [
          | failed ↦ failed
          | bomb ↦ bomb
          | returned (b', files', entry) ↦
              extract_members kind digest b' files' (entries ++ kept entry) ms
        ])
    extract_rest kind entries ms failed k later = tt
    extract_rest kind entries ms bomb k later = tt
    extract_rest kind entries ms (returned (b', files', entry)) k later = later b' files' entry k

    extract_members-Within :
        (kind : Kind) (b : Budget) (files : Files) (entries : List ArchiveEntry) (ms : List Member)
        → Within limits b entries
        → AllWithin (extract_members kind digest b files entries ms)
    unfolding extract_members
    extract_members-Within kind b files entries [] h = h
    extract_members-Within kind b files entries (m ∷ ms) h =
        extract_rest kind entries ms (extract_one kind digest b files m)
          (extract_one-Keeps kind b files m entries h)
          (λ b' files' entry k. extract_members-Within kind b' files' (entries ++ kept entry) ms k)

-- An extraction that returns has taken no more entries and no more bytes than its limits allow: the
-- entries returned are those counted, each is at most as large as one entry may be, and together they are
-- within the bytes that the budget accounts for.
pub extract-Within :
    (kind : Kind) (digest : String → String) (limits : ArchiveLimits) (deadline : ℕ)
    (ms : List Member) (b : Budget) (files : Files) (entries : List ArchiveEntry)
    → extract kind digest limits deadline ms ≡ returned (b, files, entries)
    → Within limits b entries
unfolding extract
extract-Within kind digest limits deadline ms b files entries e = rw e at (
    extract_members-Within limits digest kind (new_budget limits deadline) [] [] ms (record {
      same = refl;
      counted = omega arith;
      few = omega arith;
      accounted = omega arith;
      small = omega arith;
      each = tt;
    }))
