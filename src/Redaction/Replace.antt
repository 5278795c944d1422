-- ===== src/Redaction/Replace.antt =====
-- The occurrences of a lease after `str.replace` (apps/api/app/event_redaction.py).
use dev_agent.Base.{
  ℕ, suc, Bool, true, false, [], ◌∷◌, ◌&&◌, nat_beq, not, length, ◌≡◌, refl, arith, inl, inr,
  Bool-cases, ltb, nat_eq, zero, ◌-◌,
}
use dev_agent.Redaction.{Text, starts, occurs, append, replace_from, marker}

-- A text without brackets, as the URL-safe alphabet of a lease has none.
abbrev pub is_bare : Text → Bool
is_bare [] = true
is_bare (c ∷ s) = not (nat_beq c 91) && not (nat_beq c 93) && is_bare s

-- A bare text that is longer than what stands before a bracket does not start there.
starts_before :
    (p xs ys : Text)
    → is_bare p ≡ true
    → ltb (length xs) (length p) ≡ true
    → starts p (append xs (93 ∷ ys)) ≡ false
unfolding starts append
starts_before [] xs ys b h = absurd (ground arith)
starts_before (c ∷ p) [] ys b h = ground arith
starts_before (c ∷ p) (x ∷ xs) ys b h = ground (arith, starts_before p xs ys)

occurs_before :
    (l xs ys : Text)
    → is_bare l ≡ true
    → ltb (length xs) (length l) ≡ true
    → occurs l ys ≡ false
    → occurs l (append xs (93 ∷ ys)) ≡ false
unfolding occurs append
occurs_before l [] ys b h none_ = ground (arith, starts_before l [] ys)
occurs_before l (x ∷ xs) ys b h none_ =
    ground (arith, occurs_before l xs ys, starts_before l (x ∷ xs) ys)

module _ (l : Text) where
  -- What a bare text meets of the result before the first marker is of the original.
  starts_kept :
      (p s : Text)
      → is_bare p ≡ true
      → starts p (replace_from l marker 0 s) ≡ true
      → starts p s ≡ true
  unfolding starts replace_from append
  starts_kept [] s b h = refl
  starts_kept (a ∷ p) [] b h = h
  starts_kept (a ∷ p) (c ∷ s) b h = elim (Bool-cases (starts l (c ∷ s))) [
    | inl hit ↦ absurd (ground arith)
    | inr miss ↦ ground (arith, starts_kept p s)
  ]

  head_kept :
      (p : Text) (c : ℕ) (s : Text)
      → is_bare p ≡ true
      → starts p (c ∷ replace_from l marker 0 s) ≡ true
      → starts p (c ∷ s) ≡ true
  unfolding starts
  head_kept [] c s b h = refl
  head_kept (a ∷ p) c s b h = ground (arith, starts_kept p s)

starts_nothing : (l : Text) → ltb 8 (length l) ≡ true → starts l [] ≡ false
unfolding starts
starts_nothing [] h = absurd (ground arith)
starts_nothing (c ∷ l) h = refl

starts_bracket :
    (l t : Text) → is_bare l ≡ true → ltb 8 (length l) ≡ true → starts l (91 ∷ t) ≡ false
unfolding starts
starts_bracket [] t b h = absurd (ground arith)
starts_bracket (c ∷ l) t b h = ground arith

module _ (l : Text) (b : is_bare l ≡ true) (long : ltb 8 (length l) ≡ true) where
  -- Behind a marker, as before it, there is no occurrence.
  pub marker-occurs : (s : Text) → occurs l s ≡ false → occurs l (append marker s) ≡ false
  unfolding occurs append
  marker-occurs s h =
      let inside : Text = 82 ∷ 69 ∷ 68 ∷ 65 ∷ 67 ∷ 84 ∷ 69 ∷ 68 ∷ [] in
      let rest = occurs_before l inside s b long h in
      rw (starts_bracket l (append inside (93 ∷ s)) b long) rest

  pub replace_from-occurs : (k : ℕ) (s : Text) → occurs l (replace_from l marker k s) ≡ false
  unfolding occurs replace_from
  replace_from-occurs k [] = starts_nothing l long
  replace_from-occurs (suc k) (c ∷ s) = replace_from-occurs k s
  replace_from-occurs zero (c ∷ s) = elim (Bool-cases (starts l (c ∷ s))) [
    | inl hit ↦ rw hit (marker-occurs _ (replace_from-occurs (length l - 1) s))
    | inr miss ↦ elim (Bool-cases (starts l (c ∷ replace_from l marker 0 s))) [
      | inl again ↦ absurd (ground (arith, head_kept l l c s b again))
      | inr none_ ↦ rw miss (rw none_ (replace_from-occurs zero s))
    ]
  ]
