-- ===== src/Redaction/Telemetry.antt =====
-- The two functions that redact telemetry: `redact_worker_telemetry` of
-- apps/api/app/event_redaction.py and `redact` of apps/runner/kelpie_runner/main.py.
use dev_agent.Base.{Bool, false, Option, none, some, List, [], ◌∷◌, any, if◌then◌else◌, Key, ◌||◌}
use dev_agent.Redaction.{Text, text_beq, codes, replace_all, drop_marks, marker, occurs}

-- JSON telemetry; `plain` is None, a Boolean or a number, which both functions return as it is.
mutual
  pub data Value : Type 0 where
    plain : Key → Value
    text : Text → Value
    arr : Values → Value
    dict : Entries → Value

  pub data Values : Type 0 where
    nil : Values
    cons : Value → Values → Values

  pub data Entries : Type 0 where
    empty : Entries
    entry : Text → Value → Entries → Entries

-- `d[key] = value`
unfoldable pub put_entry : Text → Value → Entries → Entries
put_entry k v empty = entry k v empty
put_entry k v (entry j w d) =
    let rest = put_entry k v d in if text_beq j k then entry j v d else entry j w rest

unfoldable pub credential_fields : List Text
unfolding codes
credential_fields =
    codes "token"
    ∷ codes "accesstoken"
    ∷ codes "refreshtoken"
    ∷ codes "idtoken"
    ∷ codes "sessiontoken"
    ∷ codes "authorization"
    ∷ codes "proxyauthorization"
    ∷ codes "cookie"
    ∷ codes "setcookie"
    ∷ codes "apikey"
    ∷ codes "secret"
    ∷ codes "clientsecret"
    ∷ codes "password"
    ∷ codes "passwd"
    ∷ codes "privatekey"
    ∷ codes "leasetoken"
    ∷ codes "xkelpielease"
    ∷ codes "kelpieleasetoken"
    ∷ []

-- `sensitive` of the runner
unfoldable pub sensitive : List Text
unfolding codes
sensitive =
    codes "token"
    ∷ codes "accesstoken"
    ∷ codes "refreshtoken"
    ∷ codes "idtoken"
    ∷ codes "sessiontoken"
    ∷ codes "authorization"
    ∷ codes "proxyauthorization"
    ∷ codes "cookie"
    ∷ codes "setcookie"
    ∷ codes "apikey"
    ∷ codes "secret"
    ∷ codes "clientsecret"
    ∷ codes "password"
    ∷ codes "passwd"
    ∷ codes "privatekey"
    ∷ codes "leasetoken"
    ∷ codes "xkelpielease"
    ∷ codes "kelpieleasetoken"
    ∷ []

-- `value.replace(lease, "[REDACTED]")` where there is a lease
unfoldable pub hide : (lease : Option Text) → Text → Text
unfolding replace_all
hide none t = t
hide (some []) t = t
hide (some (c ∷ l)) t = replace_all (c ∷ l) t

unfoldable pub runner_hide : (lease : Text) → Text → Text
unfolding replace_all
runner_hide [] t = t
runner_hide (c ∷ l) t = replace_all (c ∷ l) t

-- `lower` is `str.lower`.
module _ (lower : Text → Text) where
  abbrev pub is_credential_field : Text → Bool
  is_credential_field key = any (text_beq (drop_marks (lower key))) credential_fields

  abbrev pub is_sensitive : Text → Bool
  is_sensitive key = any (text_beq (drop_marks (lower key))) sensitive

  unfoldable mutual
    unfolding hide put_entry

    pub redact_worker_telemetry : (lease : Option Text) → Value → Value
    redact_worker_telemetry lease (plain k) = plain k
    redact_worker_telemetry lease (text t) = text (hide lease t)
    redact_worker_telemetry lease (arr xs) = arr (redact_items lease xs)
    redact_worker_telemetry lease (dict d) = dict (redact_entries lease d empty)

    pub redact_items : (lease : Option Text) → Values → Values
    redact_items lease nil = nil
    redact_items lease (cons x xs) = cons (redact_worker_telemetry lease x) (redact_items lease xs)

    -- The comprehension, by the entries it has made.
    pub redact_entries : (lease : Option Text) → Entries → Entries → Entries
    redact_entries lease empty made = made
    redact_entries lease (entry key item d) made =
        let clean = redact_worker_telemetry lease item in
        redact_entries lease d
          (put_entry (hide lease key) (if is_credential_field key then text marker else clean) made)

  unfoldable mutual
    unfolding runner_hide put_entry

    pub redact : (lease : Text) → Value → Value
    redact lease (plain k) = plain k
    redact lease (text t) = text (runner_hide lease t)
    redact lease (arr xs) = arr (runner_items lease xs)
    redact lease (dict d) = dict (runner_entries lease d empty)

    pub runner_items : (lease : Text) → Values → Values
    runner_items lease nil = nil
    runner_items lease (cons x xs) = cons (redact lease x) (runner_items lease xs)

    pub runner_entries : (lease : Text) → Entries → Entries → Entries
    runner_entries lease empty made = made
    runner_entries lease (entry key item d) made =
        let clean = redact lease item in
        runner_entries lease d
          (put_entry (runner_hide lease key) (if is_sensitive key then text marker else clean) made)

-- Whether a text occurs anywhere in a value, keys included.
unfoldable mutual
  unfolding occurs

  pub mentions : Text → Value → Bool
  mentions l (plain k) = false
  mentions l (text t) = occurs l t
  mentions l (arr xs) = items_mention l xs
  mentions l (dict d) = entries_mention l d

  pub items_mention : Text → Values → Bool
  items_mention l nil = false
  items_mention l (cons x xs) = mentions l x || items_mention l xs

  pub entries_mention : Text → Entries → Bool
  entries_mention l empty = false
  entries_mention l (entry k v d) = occurs l k || mentions l v || entries_mention l d
