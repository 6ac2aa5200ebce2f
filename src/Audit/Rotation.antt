-- ===== src/Audit/Rotation.antt =====
-- Rotation in the audit log (aegorx/realtime/monitor.py): what it drops is the oldest segment, whole.
use aegor_x.Prelude.{
  ℕ, zero, suc, ◌-◌, ◌≤◌, ◌<◌, ◌≡◌, ◌≢◌, refl, ap, sym, ◌∙◌, Option, none, some, List, [], ◌∷◌,
  ◌++◌, arith, ◌⊎◌, Option-cases, Bool-cases, inl, inr, append_assoc, append-nil, fun_ext,
}
use aegor_x.Audit.Segments.{Line, Files, Log, put, lines, shift_one, shift, fits, rotate, collect}

pub same_or_not : (a b : ℕ) → (a ≡ b) ⊎ (a ≢ b)
same_or_not a b = ground arith

module _ {Body : Type 0} where
  put_self : (j : ℕ) (v : Option (List (Line Body))) (s : Files Body) → put j v s j ≡ v
  put_self j v s = ground arith

  pub put_ne :
      (j k : ℕ) (v : Option (List (Line Body))) (s : Files Body) → k ≢ j → put j v s k ≡ s k
  put_ne j k v s h = ground arith

  collect-put :
      (n j : ℕ) (v : Option (List (Line Body))) (s : Files Body)
      → n < j
      → collect n (put j v s) ≡ collect n s
  collect-put zero j v s h = ground arith
  collect-put (suc n) j v s h =
      rw (put_ne j (suc n) v s (omega arith), collect-put n j v s (omega arith))

  shift_one-above :
      (i k : ℕ) (o : Option (List (Line Body))) (s : Files Body)
      → suc i < k
      → shift_one i o s k ≡ s k
  shift_one-above i k none s h = refl
  shift_one-above i k (some l) s h = ground arith

  shift-above : (i k : ℕ) (s : Files Body) → suc i < k → shift i s k ≡ s k
  unfolding shift
  shift-above zero k s h = refl
  shift-above (suc i) k s h =
      shift-above i k (shift_one (suc i) (s (suc i)) s) (omega arith)
      ∙ shift_one-above (suc i) k (s (suc i)) s h

  shift_one-gone : (i : ℕ) (s : Files Body) → shift_one i (s i) s i ≡ none
  shift_one-gone i s = elim (Option-cases (s i)) [
    | inl e ↦ rw e e
    | inr (l, e) ↦ rw e (ground arith)
  ]

  pub collect-same :
      (n : ℕ) (s t : Files Body) → ((k : ℕ) → k ≤ n → s k ≡ t k) → collect n s ≡ collect n t
  collect-same zero s t h = rw (h 0 (omega arith)) refl
  collect-same (suc n) s t h =
      rw (h (suc n) (omega arith), collect-same n s t (λ k le. h k (omega arith))) refl

  shift_one-below :
      (i k : ℕ) (o : Option (List (Line Body))) (s : Files Body) → k < i → shift_one i o s k ≡ s k
  shift_one-below i k none s h = refl
  shift_one-below i k (some l) s h = ground arith

  collect-parts :
      (n : ℕ) (s : Files Body) (a b : Option (List (Line Body)))
      → s (suc (suc n)) ≡ a
      → s (suc n) ≡ b
      → collect (suc (suc n)) s ≡ lines a ++ (lines b ++ collect n s)
  collect-parts n s a b h k = rw (h, k) refl

  -- With room above it, one move of a segment changes nothing that is collected.
  collect-moved :
      (i : ℕ) (l : List (Line Body)) (s : Files Body)
      → s (suc i) ≡ none
      → s i ≡ some l
      → collect (suc i) (shift_one i (some l) s) ≡ collect (suc i) s
  collect-moved zero l s free here = rw (free, here) (append-nil l)
  collect-moved (suc i) l s free here =
      let t = shift_one (suc i) (some l) s in
      let below : collect i t ≡ collect i s =
        collect-same i t s (λ k le. shift_one-below (suc i) k (some l) s (omega arith)) in
      collect-parts i t (some l) none (ground arith) (ground arith)
      ∙ ap (λ x. l ++ x) below
      ∙ sym (collect-parts i s none (some l) free here)

  collect-top :
      (n i : ℕ) (s t : Files Body)
      → i ≤ n
      → ((k : ℕ) → suc i < k → t k ≡ s k)
      → collect (suc i) t ≡ collect (suc i) s
      → collect (suc n) t ≡ collect (suc n) s
  collect-top zero zero s t le above e = e
  collect-top zero (suc i) s t le above e = absurd (omega arith)
  collect-top (suc n) i s t le above e = elim (same_or_not i (suc n)) [
    | inl same ↦ rw same at e
    | inr other ↦
        let rest = collect-top n i s t (omega arith) above e in
        rw (above (suc (suc n)) (omega arith), rest) refl
  ]

  collect-shift_one :
      (i : ℕ) (s : Files Body)
      → s (suc i) ≡ none
      → collect (suc i) (shift_one i (s i) s) ≡ collect (suc i) s
  collect-shift_one i s free = elim (Option-cases (s i)) [
    | inl e ↦ rw e refl
    | inr (l, e) ↦ rw e (collect-moved i l s free e)
  ]

  -- With room above the last of them, the loop loses nothing, and leaves no segment 1.
  collect-shift :
      (i : ℕ) (s : Files Body)
      → s (suc i) ≡ none
      → (collect (suc i) (shift i s) ≡ collect (suc i) s) × (shift i s 1 ≡ none)
  unfolding shift
  collect-shift zero s free = (refl, free)
  collect-shift (suc i) s free =
      let s' = shift_one (suc i) (s (suc i)) s in
      let (same, gone) = collect-shift i s' (shift_one-gone (suc i) s) in
      (
        collect-top (suc i) i s' (shift i s') (omega arith) (λ k h. shift-above i k s' h) same
            ∙ collect-shift_one (suc i) s free,
        gone,
      )

  -- The whole of `_rotate`, from segment i on.
  abbrev pub moved : ℕ → Files Body → Files Body
  moved i s = shift_one 0 (shift i s 0) (shift i s)

  moved-above : (i k : ℕ) (s : Files Body) → suc i < k → moved i s k ≡ s k
  moved-above i k s h =
      shift_one-above 0 k (shift i s 0) (shift i s) (omega arith) ∙ shift-above i k s h

  collect-moved_free :
      (i : ℕ) (s : Files Body) → s (suc i) ≡ none → collect (suc i) (moved i s) ≡ collect (suc i) s
  collect-moved_free i s free =
      let (same, gone) = collect-shift i s free in
      collect-top i 0 (shift i s) (moved i s) (omega arith)
        (λ k h. shift_one-above 0 k (shift i s 0) (shift i s) h)
        (collect-shift_one 0 (shift i s) gone)
      ∙ same

  put-over :
      (i : ℕ) (l : List (Line Body)) (s : Files Body)
      → shift_one i (some l) s ≡ shift_one i (some l) (put (suc i) none s)
  put-over i l s = fun_ext λ k. ground arith

  moved-over :
      (i : ℕ) (l : List (Line Body)) (s : Files Body)
      → s i ≡ some l
      → moved i s ≡ moved i (put (suc i) none s)
  unfolding shift
  moved-over zero l s here = rw here (put-over 0 l s)
  moved-over (suc j) l s here =
      let u = put (suc (suc j)) none s in
      let there : u (suc j) ≡ some l = ground arith in
      let before : shift_one (suc j) (s (suc j)) s ≡ shift_one (suc j) (some l) u =
        rw here (put-over (suc j) l s) in
      let same : shift_one (suc j) (s (suc j)) s ≡ shift_one (suc j) (u (suc j)) u =
        before ∙ ap (λ (o : Option (List (Line Body))). shift_one (suc j) o u) (sym there) in
      ap (λ (x : Files Body). shift_one 0 (shift j x 0) (shift j x)) same

  -- At most the whole oldest segment is lost.
  abbrev pub Loses : ℕ → Files Body → Files Body → Type 0
  Loses i s t =
      (collect (suc i) t ≡ collect (suc i) s)
      ⊎ (collect (suc i) s ≡ lines (s (suc i)) ++ collect (suc i) t)

  -- A gap below the oldest segment saves it.
  moved-gap : (i : ℕ) (s : Files Body) → s i ≡ none → Loses i s (moved i s)
  unfolding shift
  moved-gap zero s gap =
      inl (ap (collect 1) (ap (λ (o : Option (List (Line Body))). shift_one 0 o s) gap))
  moved-gap (suc j) s gap =
      let fewer : moved (suc j) s ≡ moved j s = rw gap refl in
      inl (
        ap (λ (x : Files Body). collect (suc (suc j)) x) fewer
        ∙ collect-top (suc j) j s (moved j s) (omega arith) (λ k h. moved-above j k s h)
            (collect-moved_free j s gap))

  moved-Loses : (i : ℕ) (s : Files Body) → Loses i s (moved i s)
  moved-Loses i s = elim (Option-cases (s i)) [
    | inr (l, e) ↦
        let u = put (suc i) none s in
        let below : collect i u ≡ collect i s = collect-put i (suc i) none s (omega arith) in
        let all : collect (suc i) u ≡ collect i s = rw (put_self (suc i) none s) below in
        inr (rw (moved-over i l s e, collect-moved_free i u (put_self (suc i) none s) ∙ all) refl)
    | inl e ↦ moved-gap i s e
  ]

  pub rotate-Loses :
      (bytes : List (Line Body) → ℕ) (g : Log Body) → Loses (g.backups - 1) g.files (rotate bytes g)
  unfolding rotate
  rotate-Loses bytes g = elim (Bool-cases (fits bytes g.max_bytes (g.files 0))) [
    | inl e ↦ rw e (inl refl)
    | inr e ↦ rw e (moved-Loses (g.backups - 1) g.files)
  ]

  pub rotate-above :
      (bytes : List (Line Body) → ℕ) (g : Log Body) (k : ℕ)
      → suc (g.backups - 1) < k
      → rotate bytes g k ≡ g.files k
  unfolding rotate
  rotate-above bytes g k h = elim (Bool-cases (fits bytes g.max_bytes (g.files 0))) [
    | inl e ↦ rw e refl
    | inr e ↦ rw e (moved-above (g.backups - 1) k g.files h)
  ]

  pub collect-snoc :
      (n : ℕ) (x : Line Body) (s : Files Body)
      → collect n (put 0 (some (lines (s 0) ++ x ∷ [])) s) ≡ collect n s ++ x ∷ []
  collect-snoc zero x s = refl
  collect-snoc (suc n) x s =
      rw (put_ne 0 (suc n) (some (lines (s 0) ++ x ∷ [])) s (λ e. omega arith), collect-snoc n x s)
        (sym (append_assoc (lines (s (suc n))) (collect n s) (x ∷ [])))
