-- ===== src/Shield/Sealed.antt =====
-- What `verify` of aegorx/shield.py says after `seal`.
use aegor_x.Prelude.{
  ℕ, ◌≡◌, refl, sym, ap, ◌∙◌, String, String_discrete, Bool, true, false, ◌&&◌, Option, none, some,
  List, [], ◌∷◌, All, ◌≐◌, arith, insert, Option-cases, inl, inr, if_pos, if_neg, all,
}
use aegor_x.Shield.{Files, Entries, State, existing, pin, seal, is_empty, compare_all, verify}

-- The digest of a regular file.
abbrev pub digest_of : (List ℕ → String) → Files → String → Option String
digest_of hexdigest fs t = elim (fs t) [ none ↦ none | some content ↦ some (hexdigest content) ]

some_same : (a b : String) → some a ≡ some b → a ≡ b
some_same a b h = ground arith

module _ (hexdigest : List ℕ → String) where
  -- The file is there and has the digest.
  abbrev pub fits : Files → String → String → Bool
  fits fs t d = elim (fs t) [ none ↦ false | some content ↦ hexdigest content ≐ d ]

  abbrev all_fit : Files → Entries → Bool
  all_fit fs [] = true
  all_fit fs ((t, d) ∷ entries) = fits fs t d && all_fit fs entries

  abbrev agrees : Files → Entries → Bool
  agrees fs entries =
      let found = compare_all hexdigest fs entries in is_empty found.0 && is_empty found.1

  agrees-all_fit : (fs : Files) (entries : Entries) → agrees fs entries ≡ all_fit fs entries
  unfolding compare_all
  agrees-all_fit fs [] = refl
  agrees-all_fit fs ((t, d) ∷ entries) = ground (arith, agrees-all_fit fs entries)

  -- Every entry has the digest of its file.
  abbrev IsPinned : Files → Entries → Type 0
  IsPinned before entries = All (λ e. digest_of hexdigest before e.0 ≡ some e.1) entries

  insert-IsPinned :
      (before : Files) (t d : String) (entries : Entries)
      → digest_of hexdigest before t ≡ some d
      → IsPinned before entries
      → IsPinned before (insert String_discrete t d entries)
  unfolding insert
  insert-IsPinned before t d [] h k = (h, tt)
  insert-IsPinned before t d ((j, w) ∷ m) h k = elim (String_discrete j t) [
    | yes p ↦ rw (if_pos (String_discrete j t) p _ _) (h, k.1)
    | no n ↦ rw (if_neg (String_discrete j t) n _ _) (k.0, insert-IsPinned before t d m h k.1)
  ]

  all_fit-insert :
      (before after : Files) (t d : String) (entries : Entries)
      → digest_of hexdigest before t ≡ some d
      → IsPinned before entries
      → all_fit after (insert String_discrete t d entries) ≡ fits after t d && all_fit after entries
  unfolding insert
  all_fit-insert before after t d [] h k = refl
  all_fit-insert before after t d ((j, w) ∷ m) h k = elim (String_discrete j t) [
    | yes p ↦
        let same : w ≡ d = some_same w d (sym k.0 ∙ ap (λ x. digest_of hexdigest before x) p ∙ h) in
        let e : fits after j w ≡ fits after t d = rw (p, same) refl in
        rw (if_pos (String_discrete j t) p _ _) (ground (arith, e))
    | no n ↦
        rw (if_neg (String_discrete j t) n _ _)
          (ground (arith, all_fit-insert before after t d m h k.1))
  ]

  -- The digest of a file that was there is what it was.
  abbrev pub unchanged : Files → Files → String → Bool
  unchanged before after t = elim (before t) [
    | none ↦ true
    | some content ↦ fits after t (hexdigest content)
  ]

  all_fit-pin :
      (before after : Files) (ts : List String) (entries : Entries)
      → IsPinned before entries
      → all_fit after (pin hexdigest before (existing before ts) entries)
        ≡ all (unchanged before after) ts && all_fit after entries
  unfolding pin
  all_fit-pin before after [] entries k = refl
  all_fit-pin before after (t ∷ ts) entries k = elim (Option-cases (before t)) [
    | inl e ↦ rw (unchanged, e) (all_fit-pin before after ts entries k)
    | inr (content, e) ↦
        let d = hexdigest content in
        let h : digest_of hexdigest before t ≡ some d = rw (digest_of, e) refl in
        let k' = insert-IsPinned before t d entries h k in
        let u : unchanged before after t ≡ fits after t d = rw (unchanged, e) refl in
        rw (e, u)
          (ground (
            arith,
            all_fit-pin before after ts (insert String_discrete t d entries) k',
            all_fit-insert before after t d entries h k,
          ))
  ]

-- After the targets were sealed, the verification says ok exactly where every target that was there
-- is there with the digest that it had; other files make no difference.
pub verify-seal :
    (hexdigest : List ℕ → String) (before after : Files) (targets : List String) (now : ℕ)
    (s : State)
    → (verify hexdigest after (seal hexdigest before targets now s).0).ok
      ≡ all (unchanged hexdigest before after) targets
unfolding verify seal
verify-seal hexdigest before after targets now s = ground (
  arith,
  agrees-all_fit hexdigest after (pin hexdigest before (existing before targets) []),
  all_fit-pin hexdigest before after targets [] tt,
)
