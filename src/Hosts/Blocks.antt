-- ===== src/Hosts/Blocks.antt =====
-- The block that `HostsFileEnforcer` of aegorx/network/enforcement.py writes, and what it removes.
use native.Mathlib.Decide.{ℕ_discrete}
use mathlib.Core.List.{reverse, reverse-cons, reverse-append}
use aegor_x.Prelude.{
  ℕ, ◌≡◌, ◌≢◌, refl, sym, ap, ◌∙◌, Bool, true, false, some, List, [], ◌∷◌, ◌++◌, map, arith,
  append_assoc, append-nil, if_pos, if_neg, all,
}
use aegor_x.Dns.Domain.{Text, Text-discrete, strip, lstrip, is_space}
use aegor_x.Hosts.{
  HostsFile, marker_start, marker_end, is_text, splitlines, outside, strip_block, entry_of,
  end_lines, block_of, install, remove,
}
use aegor_x.Hosts.Lines.{
  if_true, if_false, is_ended, is_line, is_other, splitlines-line, splitlines-append,
  outside-others, outside-skipped, outside-kept,
}

lstrip-snoc :
    (p : ℕ → Bool) (xs : Text) (c : ℕ)
    → p c ≡ false
    → lstrip p (xs ++ c ∷ []) ≡ lstrip p xs ++ c ∷ []
unfolding lstrip
lstrip-snoc p [] c h = ground (arith, h)
lstrip-snoc p (x ∷ xs) c h = ground (arith, lstrip-snoc p xs c h)

-- A line that begins by "0" begins by it when it is stripped.
strip-zero : (s : Text) → (t : Text) × (strip (b'0' ∷ s) ≡ b'0' ∷ t)
unfolding strip lstrip
strip-zero s = (
  reverse (lstrip is_space (reverse s)),
  ap (λ x. reverse (lstrip is_space x)) (reverse-cons b'0' s)
      ∙ ap (λ x. reverse x) (lstrip-snoc is_space (reverse s) b'0' refl)
      ∙ reverse-append (lstrip is_space (reverse s)) (b'0' ∷ []),
)

not_text : (x m : Text) → x ≢ m → is_text x m ≡ false
not_text x m h = if_neg (Text-discrete x m) h _ _

entry_of-is_other : (d : Text) → is_other (entry_of d ++ 10 ∷ []) ≡ true
entry_of-is_other d =
    let (t, e) = strip-zero (b'.' ∷ b'0' ∷ b'.' ∷ b'0' ∷ b'.' ∷ b'0' ∷ 32 ∷ 32 ∷ d ++ 10 ∷ []) in
    let a =
      not_text (strip (entry_of d ++ 10 ∷ [])) marker_start (λ p. absurd (ground (arith, e, p))) in
    let b =
      not_text (strip (entry_of d ++ 10 ∷ [])) marker_end (λ p. absurd (ground (arith, e, p))) in
    ground (arith, a, b)

-- What the theorems need of `sorted`: it gives the same elements.
pub record IsSort (sort : List Text → List Text) : Type 0 where
  pub same : (p : Text → Bool) (xs : List Text) → all p (sort xs) ≡ all p xs

all-entries :
    (domains : List Text) → all is_line domains ≡ true → all is_line (map entry_of domains) ≡ true
all-entries [] h = refl
all-entries (d ∷ ds) h = ground (arith, all-entries ds)

ended_lines : List Text → List Text
ended_lines lines = map (λ l. l ++ 10 ∷ []) lines

splitlines-end_lines :
    (lines : List Text) (rest : Text)
    → all is_line lines ≡ true
    → splitlines (end_lines lines ++ rest) ≡ ended_lines lines ++ splitlines rest
unfolding ended_lines
splitlines-end_lines [] rest h = refl
splitlines-end_lines (line ∷ lines) rest h =
    ap (λ x. splitlines x) (append_assoc line (10 ∷ end_lines lines) rest)
    ∙ splitlines-line line (end_lines lines ++ rest) (ground arith)
    ∙ ap (λ x. (line ++ 10 ∷ []) ∷ x) (splitlines-end_lines lines rest (ground arith))

all-map :
    (p : Text → Bool) (f : Text → Text) (xs : List Text) → all p (map f xs) ≡ all (λ x. p (f x)) xs
all-map p f [] = refl
all-map p f (x ∷ xs) = ground (arith, all-map p f xs)

all_other : (domains : List Text) → all (λ d. is_other (entry_of d ++ 10 ∷ [])) domains ≡ true
all_other [] = refl
all_other (d ∷ ds) = ground (arith, entry_of-is_other d, all_other ds)

start_is_start : is_text (strip (marker_start ++ 10 ∷ [])) marker_start ≡ true
unfolding strip lstrip Text-discrete ℕ_discrete
start_is_start = refl

end_is_end :
    (is_text (strip (marker_end ++ 10 ∷ [])) marker_start ≡ false)
    × (is_text (strip (marker_end ++ 10 ∷ [])) marker_end ≡ true)
unfolding strip lstrip Text-discrete ℕ_discrete
end_is_end = (refl, refl)

outside-start :
    (lines : List Text) → outside false ((marker_start ++ 10 ∷ []) ∷ lines) ≡ outside true lines
unfolding outside
outside-start lines = if_true _ _ start_is_start

outside-end :
    (lines : List Text) → outside true ((marker_end ++ 10 ∷ []) ∷ lines) ≡ outside false lines
unfolding outside
outside-end lines = if_false _ _ end_is_end.0 ∙ if_true _ _ end_is_end.1

-- The lines of a block, and what is outside of them: nothing.
outside-block :
    (sort : List Text → List Text) (domains : List Text) (rest : Text)
    → IsSort sort
    → all is_line domains ≡ true
    → outside false (splitlines (block_of sort domains ++ rest)) ≡ outside false (splitlines rest)
unfolding ended_lines
outside-block sort domains rest sorts h =
    let lines = sort (map entry_of (sort domains)) in
    let closing : Text = marker_end ++ 10 ∷ [] in
    let a : all is_line lines ≡ true =
      sorts.same is_line (map entry_of (sort domains))
      ∙ all-entries (sort domains) (sorts.same is_line domains ∙ h) in
    let b : all is_other (ended_lines lines) ≡ true =
      all-map is_other (λ l. l ++ 10 ∷ []) lines
      ∙ sorts.same (λ l. is_other (l ++ 10 ∷ [])) (map entry_of (sort domains))
      ∙ all-map (λ l. is_other (l ++ 10 ∷ [])) entry_of (sort domains)
      ∙ all_other (sort domains) in
    ap (λ x. outside false x)
      (splitlines-line marker_start ((end_lines lines ++ closing) ++ rest) refl)
    ∙ outside-start (splitlines ((end_lines lines ++ closing) ++ rest))
    ∙ ap (λ x. outside true (splitlines x)) (append_assoc (end_lines lines) closing rest)
    ∙ ap (λ x. outside true x) (splitlines-end_lines lines (closing ++ rest) a)
    ∙ outside-skipped (ended_lines lines) (splitlines (closing ++ rest)) b
    ∙ ap (λ x. outside true x) (splitlines-line marker_end rest refl)
    ∙ outside-end (splitlines rest)

-- The block that is written behind lines of others is what is removed again: removing gives those
-- lines back, and installing again gives what installing the new block on them gives.
pub strip_block-block :
    (sort : List Text → List Text) (content : Text) (domains : List Text)
    → IsSort sort
    → is_ended content ≡ true
    → all is_other (splitlines content) ≡ true
    → all is_line domains ≡ true
    → strip_block (content ++ block_of sort domains) ≡ content
unfolding strip_block
strip_block-block sort content domains sorts ended others lines =
    ap (λ x. outside false x) (splitlines-append content (block_of sort domains) ended)
    ∙ outside-others (splitlines content) (splitlines (block_of sort domains)) others
    ∙ ap (λ x. outside false (splitlines content) ++ x)
        (ap (λ x. outside false (splitlines x)) (sym (append-nil (block_of sort domains)))
          ∙ outside-block sort domains [] sorts lines)
    ∙ append-nil (outside false (splitlines content))
    ∙ outside-kept content others

-- A hosts file of others: its text ends by the end of a line, and no line is a marker.
pub record IsForeign (content : Text) : Type 0 where
  pub ended : is_ended content ≡ true
  pub others : all is_other (splitlines content) ≡ true

-- The hosts file with a text, one that can be written.
abbrev pub of_text : Text → HostsFile
of_text content = record { content = some content; writable = true }

install-written :
    (sort : List Text → List Text) (content : Text) (d : Text) (ds : List Text)
    → (install sort (d ∷ ds) (of_text content)).0
      ≡ of_text (strip_block content ++ block_of sort (d ∷ ds))
unfolding install
install-written sort content d ds = refl

pub remove-stripped :
    (content : Text) → (remove (of_text content)).0 ≡ of_text (strip_block content)
unfolding remove
remove-stripped content = elim (Text-discrete (strip_block content) content) [
  | yes e ↦
      ap (λ (x : HostsFile × Bool). x.0)
        (if_true (of_text content, true) (of_text (strip_block content), true)
          (if_pos (Text-discrete (strip_block content) content) e true false))
      ∙ ap of_text (sym e)
  | no n ↦
      ap (λ (x : HostsFile × Bool). x.0)
        (if_false (of_text content, true) (of_text (strip_block content), true)
          (not_text (strip_block content) content n))
]

-- After domains without the end of a line were written into a hosts file of others that can be
-- written, removing them gives the file back, and writing other domains gives what writing these
-- alone gives, if sorting keeps the elements.
pub install-undone :
    (sort : List Text → List Text) (content : Text) (d e : Text) (ds es : List Text)
    → IsSort sort
    → IsForeign content
    → all is_line (d ∷ ds) ≡ true
    → ((remove (install sort (d ∷ ds) (of_text content)).0).0 ≡ of_text content)
      × ((install sort (e ∷ es) (install sort (d ∷ ds) (of_text content)).0).0
          ≡ (install sort (e ∷ es) (of_text content)).0)
unfolding strip_block
install-undone sort content d e ds es sorts foreign lines =
    let kept : strip_block content ≡ content = outside-kept content foreign.others in
    let undone : strip_block (content ++ block_of sort (d ∷ ds)) ≡ content =
      strip_block-block sort content (d ∷ ds) sorts foreign.ended foreign.others lines in
    let installed : (install sort (d ∷ ds) (of_text content)).0
        ≡ of_text (content ++ block_of sort (d ∷ ds)) =
      install-written sort content d ds ∙ ap (λ x. of_text (x ++ block_of sort (d ∷ ds))) kept in
    (
      ap (λ f. (remove f).0) installed
          ∙ remove-stripped (content ++ block_of sort (d ∷ ds))
          ∙ ap of_text undone,
      ap (λ f. (install sort (e ∷ es) f).0) installed
          ∙ install-written sort (content ++ block_of sort (d ∷ ds)) e es
          ∙ ap (λ x. of_text (x ++ block_of sort (e ∷ es))) (undone ∙ sym kept)
          ∙ sym (install-written sort content e es),
    )
