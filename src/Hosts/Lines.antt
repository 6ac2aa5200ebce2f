-- ===== src/Hosts/Lines.antt =====
-- Lines of a hosts file, and what `_strip_block` of aegorx/network/enforcement.py keeps of them.
use aegor_x.Prelude.{
  ℕ, ◌≡◌, refl, ◌∙◌, Bool, true, false, ◌&&◌, not, List, [], ◌∷◌, ◌++◌, arith, append_assoc,
  if◌then◌else◌, all,
}
use aegor_x.Dns.Domain.{Text, strip}
use aegor_x.Hosts.{marker_start, marker_end, is_break, is_text, splitlines, prepend, outside}

pub if_true {ℓ} : {A : Type ℓ} {b : Bool} (x y : A) → b ≡ true → (if b then x else y) ≡ x
if_true x y h = rw h refl

pub if_false {ℓ} : {A : Type ℓ} {b : Bool} (x y : A) → b ≡ false → (if b then x else y) ≡ y
if_false x y h = rw h refl

-- The text is empty or ends by the end of a line.
abbrev pub is_ended : Text → Bool
is_ended [] = true
is_ended (c ∷ []) = is_break c
is_ended (c ∷ d ∷ s) = is_ended (d ∷ s)

-- No character ends a line.
abbrev pub is_line : Text → Bool
is_line s = all (λ c. not (is_break c)) s

-- The line is none of the two markers.
abbrev pub is_other : Text → Bool
is_other line = not (is_text (strip line) marker_start) && not (is_text (strip line) marker_end)

pub splitlines-line :
    (a b : Text) → is_line a ≡ true → splitlines (a ++ 10 ∷ b) ≡ (a ++ 10 ∷ []) ∷ splitlines b
unfolding splitlines
splitlines-line [] b h = refl
splitlines-line (c ∷ a) b h = ground (arith, splitlines-line a b)

pub splitlines-cons :
    (c : ℕ) (s : Text) → (w : Text) × (ws : List Text) × (splitlines (c ∷ s) ≡ w ∷ ws)
unfolding splitlines
splitlines-cons c s = this (is_break c) (splitlines s)
  where
    this :
        (b : Bool) (rest : List Text)
        → (w : Text) × (ws : List Text) × ((if b then (c ∷ []) ∷ rest else prepend c rest) ≡ w ∷ ws)
    this true rest = (c ∷ [], rest, refl)
    this false [] = (c ∷ [], [], refl)
    this false (line ∷ lines) = (c ∷ line, lines, refl)

pub step_append :
    (c : ℕ) (xs ys zs : List Text) (w : Text) (ws : List Text)
    → xs ≡ ys ++ zs
    → ys ≡ w ∷ ws
    → (if is_break c then (c ∷ []) ∷ xs else prepend c xs)
      ≡ (if is_break c then (c ∷ []) ∷ ys else prepend c ys) ++ zs
step_append c xs ys zs w ws e f = rw (e, f) (this (is_break c))
  where
    this :
        (b : Bool)
        → (if b then (c ∷ []) ∷ w ∷ (ws ++ zs) else prepend c (w ∷ (ws ++ zs)))
          ≡ (if b then (c ∷ []) ∷ w ∷ ws else prepend c (w ∷ ws)) ++ zs
    this true = refl
    this false = refl

pub splitlines-append :
    (a b : Text) → is_ended a ≡ true → splitlines (a ++ b) ≡ splitlines a ++ splitlines b
unfolding splitlines
splitlines-append [] b h = refl
splitlines-append (c ∷ []) b h = ground (arith, h)
splitlines-append (c ∷ d ∷ s) b h =
    let (w, ws, e) = splitlines-cons d s in
    step_append c (splitlines (d ∷ s ++ b)) (splitlines (d ∷ s)) (splitlines b) w ws
      (splitlines-append (d ∷ s) b h) e

pub outside-others :
    (lines more : List Text)
    → all is_other lines ≡ true
    → outside false (lines ++ more) ≡ outside false lines ++ outside false more
unfolding outside
outside-others [] more h = refl
outside-others (line ∷ lines) more h =
    ground (
      arith,
      outside-others lines more,
      append_assoc line (outside false lines) (outside false more),
    )

pub outside-skipped :
    (lines more : List Text)
    → all is_other lines ≡ true
    → outside true (lines ++ more) ≡ outside true more
unfolding outside
outside-skipped [] more h = refl
outside-skipped (line ∷ lines) more h = ground (arith, outside-skipped lines more)

abbrev pub concat : List Text → Text
concat [] = []
concat (line ∷ lines) = line ++ concat lines

pub concat-prepend : (c : ℕ) (lines : List Text) → concat (prepend c lines) ≡ c ∷ concat lines
concat-prepend c [] = refl
concat-prepend c (line ∷ lines) = refl

pub concat-splitlines : (s : Text) → concat (splitlines s) ≡ s
unfolding splitlines
concat-splitlines [] = refl
concat-splitlines (c ∷ s) = ground (arith, concat-splitlines s, concat-prepend c (splitlines s))

pub outside-concat :
    (lines : List Text) → all is_other lines ≡ true → outside false lines ≡ concat lines
unfolding outside
outside-concat [] h = refl
outside-concat (line ∷ lines) h = ground (arith, outside-concat lines)

pub outside-kept :
    (content : Text)
    → all is_other (splitlines content) ≡ true
    → outside false (splitlines content) ≡ content
outside-kept content h = outside-concat (splitlines content) h ∙ concat-splitlines content
