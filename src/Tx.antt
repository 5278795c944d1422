-- ===== src/Tx.antt =====
-- A request's transaction: what a handler does between `get_session` and `session.commit()`
-- (apps/api/app/db.py). A raised exception leaves the session uncommitted, so the error carries
-- no database: what was written before it is rolled back.
use dev_agent.Base.{
  ℕ, Key, Time, Bool, true, false, Option, none, some, List, [], ◌∷◌, String, ◌≡◌, refl, ◌⊎◌, inl,
  inr, ◌∙◌, arith,
}
use dev_agent.Models.{Db}

-- The exceptions. `integrity` is an `IntegrityError`, `key_error` a `KeyError`, `protected`
-- a `ProtectedArtifact`, `file_error` a `RetentionFileError`,
-- `delivery_error` is a `DeliveryAuthorityError` or `BundleIntegrityError` with its
-- code, `invalid` a `ValueError`; `http` has the status code and the detail, without the values that the text interpolates.
pub data Error : Type 0 where
  http : ℕ → String → Error
  invalid : String → Error
  integrity key_error : Error
  delivery_stopped : Error
  delivery_error : String → Error
  protected : String → Error
  file_error : String → Error

pub data Result {ℓ} (A : Type ℓ) : Type ℓ where
  ok : A → Result A
  err : Error → Result A

-- What a request reads of the world: the clock (read once), its own ids, the digest `hash_token`
-- (SHA-256), the length of the text that a key stands for, and the peer's address.
pub record Env : Type 0 where
  pub now : Time
  pub request_id : Key
  pub hash_token : Key → Key
  pub text_length : Key → ℕ
  pub source_ip : Option Key

abbrev pub Tx {ℓ} : Type ℓ → Type ℓ
Tx A = Env → Db → Result (A × Db)

abbrev pub pure {ℓ} : {A : Type ℓ} → A → Tx A
pure a e db = ok (a, db)

abbrev pub raise {ℓ} : {A : Type ℓ} → Error → Tx A
raise x e db = err x

infixl 5 ◌>>=◌ ◌>>◌
abbrev pub ◌>>=◌ : {A B : Type 0} → Tx A → (A → Tx B) → Tx B
◌>>=◌ m f e db = elim (m e db) [ ok (a, db') ↦ f a e db' | err x ↦ err x ]

abbrev pub ◌>>◌ : {A B : Type 0} → Tx A → Tx B → Tx B
m >> k = m >>= λ _. k

-- `if not test: raise error`
abbrev pub require : Bool → Error → Tx (Unit {0})
require true x e db = ok (tt, db)
require false x e db = err x

-- `if value is None: raise error`
abbrev pub or_raise : {A : Type 0} → Option A → Error → Tx A
or_raise none x e db = err x
or_raise (some a) x e db = ok (a, db)

abbrev pub lift {ℓ} : {A : Type ℓ} → Result A → Tx A
lift (ok a) e db = ok (a, db)
lift (err x) e db = err x

abbrev pub reads : {A : Type 0} → (Db → A) → Tx A
reads f e db = ok (f db, db)

abbrev pub asks : {A : Type 0} → (Env → A) → Tx A
asks f e db = ok (f e, db)

abbrev pub modify : (Db → Db) → Tx (Unit {0})
modify f e db = ok (tt, f db)

-- The request as a whole: the database after it.
abbrev pub after : {A : Type 0} → Db → Result (A × Db) → Db
after db (ok (a, db')) = db'
after db (err x) = db

-- `for item in items: …`
unfoldable pub for_each : {A : Type 0} → List A → (A → Tx (Unit {0})) → Tx (Unit {0})
for_each [] f = pure tt
for_each (x ∷ xs) f = do f x; for_each xs f

pub Result-cases {ℓ} :
    {A : Type ℓ} (r : Result A) → ((x : Error) × (r ≡ err x)) ⊎ ((a : A) × (r ≡ ok a))
Result-cases (ok a) = inr (a, refl)
Result-cases (err x) = inl (x, refl)

-- A loop whose body leaves a part of the database alone leaves it alone.
pub for_each_keeps :
    {A X : Type 0} (part : Db → A) (f : X → Tx (Unit {0})) (e : Env)
    → ((i : X) (db db' : Db) → f i e db ≡ ok (tt, db') → part db' ≡ part db)
    → (keys : List X) (db db' : Db) → for_each keys f e db ≡ ok (tt, db')
    → part db' ≡ part db
unfolding for_each
for_each_keeps part f e body [] db db' h = ground arith
for_each_keeps part f e body (k ∷ keys) db db' h = elim (Result-cases (f k e db)) [
  | inl bad ↦ absurd (ground arith)
  | inr ((x, db1), good) ↦
      for_each_keeps part f e body keys db1 db' (ground arith) ∙ body k db db1 good
]
