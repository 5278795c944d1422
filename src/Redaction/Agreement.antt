-- ===== src/Redaction/Agreement.antt =====
-- The texts of redacted telemetry, and the two functions that redact it side by side
-- (apps/api/app/event_redaction.py, apps/runner/kelpie_runner/main.py).
use dev_agent.Base.{
  ℕ, zero, true, false, Option, none, some, [], ◌∷◌, length, ◌≡◌, refl, arith, inl, inr, Bool-cases,
  ltb,
}
use dev_agent.Redaction.{Text, marker, occurs, replace_all, append}
use dev_agent.Redaction.Replace.{is_bare, replace_from-occurs, marker-occurs}
use dev_agent.Redaction.Telemetry.{
  Value, Values, Entries, plain, text, arr, dict, nil, cons, empty, entry, put_entry, hide,
  runner_hide, credential_fields, sensitive, is_credential_field, is_sensitive,
  redact_worker_telemetry, redact_items, redact_entries, redact, runner_items, runner_entries,
  mentions, items_mention, entries_mention,
}

module _ (l : Text) where
  put_entry-mention :
      (k : Text) (v : Value) (d : Entries)
      → occurs l k ≡ false
      → mentions l v ≡ false
      → entries_mention l d ≡ false
      → entries_mention l (put_entry k v d) ≡ false
  unfolding put_entry mentions
  put_entry-mention k v empty a b c = ground arith
  put_entry-mention k v (entry j w d) a b c = ground (arith, put_entry-mention k v d)

module _ (lower : Text → Text) (c : ℕ) (lease : Text) (b : is_bare (c ∷ lease) ≡ true)
    (long : ltb 8 (length (c ∷ lease)) ≡ true) where
  hidden : (t : Text) → occurs (c ∷ lease) (hide (some (c ∷ lease)) t) ≡ false
  unfolding hide replace_all
  hidden t = replace_from-occurs (c ∷ lease) b long zero t

  marker_clean : occurs (c ∷ lease) marker ≡ false
  unfolding append occurs
  marker_clean = marker-occurs (c ∷ lease) b long [] refl

  mutual
    unfolding redact_worker_telemetry mentions

    telemetry_clean :
        (v : Value)
        → mentions (c ∷ lease) (redact_worker_telemetry lower (some (c ∷ lease)) v) ≡ false
    telemetry_clean (plain k) = refl
    telemetry_clean (text t) = hidden t
    telemetry_clean (arr xs) = items_clean xs
    telemetry_clean (dict d) = entries_clean d empty refl

    items_clean :
        (xs : Values) → items_mention (c ∷ lease) (redact_items lower (some (c ∷ lease)) xs) ≡ false
    items_clean nil = refl
    items_clean (cons x xs) = rw (telemetry_clean x) (items_clean xs)

    entries_clean :
        (d made : Entries)
        → entries_mention (c ∷ lease) made ≡ false
        → entries_mention (c ∷ lease) (redact_entries lower (some (c ∷ lease)) d made) ≡ false
    entries_clean empty made h = h
    entries_clean (entry key item d) made h = elim (Bool-cases (is_credential_field lower key)) [
      | inl secret ↦ rw secret (
          entries_clean d _
            (put_entry-mention (c ∷ lease) _ (text marker) made (hidden key) marker_clean h))
      | inr other ↦ rw other (
          entries_clean d _
            (put_entry-mention (c ∷ lease) _ _ made (hidden key) (telemetry_clean item) h))
    ]

module _ (lower : Text → Text) (o : Option Text) (l : Text)
    (same : (t : Text) → hide o t ≡ runner_hide l t) where
  same_fields : (key : Text) → is_credential_field lower key ≡ is_sensitive lower key
  unfolding credential_fields sensitive
  same_fields key = refl

  mutual
    unfolding redact_worker_telemetry redact

    values_agree : (v : Value) → redact_worker_telemetry lower o v ≡ redact lower l v
    values_agree (plain k) = refl
    values_agree (text t) = rw (same t) refl
    values_agree (arr xs) = rw (items_agree xs) refl
    values_agree (dict d) = rw (entries_agree d empty) refl

    items_agree : (xs : Values) → redact_items lower o xs ≡ runner_items lower l xs
    items_agree nil = refl
    items_agree (cons x xs) = rw (values_agree x) (rw (items_agree xs) refl)

    entries_agree :
        (d made : Entries) → redact_entries lower o d made ≡ runner_entries lower l d made
    entries_agree empty made = refl
    entries_agree (entry key item d) made =
        rw (same key) (rw (same_fields key) (rw (values_agree item) (entries_agree d _)))

hide-some : (l t : Text) → hide (some l) t ≡ runner_hide l t
unfolding hide runner_hide
hide-some [] t = refl
hide-some (c ∷ l) t = refl

hide-none : (t : Text) → hide none t ≡ runner_hide [] t
unfolding hide runner_hide
hide-none t = refl

module _ (lower : Text → Text) where
  -- The control plane redacts a worker's telemetry as the runner does: with the same lease, and without
  -- one as with the empty one.
  pub redact_worker_telemetry-redact :
      (l : Text) (v : Value)
      → (redact_worker_telemetry lower (some l) v ≡ redact lower l v)
        × (redact_worker_telemetry lower none v ≡ redact lower [] v)
  redact_worker_telemetry-redact l v =
      (values_agree lower (some l) l (hide-some l) v, values_agree lower none [] hide-none v)

  -- No text of redacted telemetry holds the worker's lease, in whatever value, list, key or nested
  -- object it stood. (A lease has no brackets and more than eight characters.)
  pub redact_worker_telemetry-mentions :
      (l : Text)
      → is_bare l ≡ true
      → ltb 8 (length l) ≡ true
      → (v : Value) → mentions l (redact_worker_telemetry lower (some l) v) ≡ false
  redact_worker_telemetry-mentions [] b long v = absurd (ground arith)
  redact_worker_telemetry-mentions (c ∷ l) b long v = telemetry_clean lower c l b long v
