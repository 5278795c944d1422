-- ===== src/Models/Values.antt =====
-- JSON values: event payloads, audit details and worker labels (the `dict` columns of
-- apps/api/app/models.py). The insertion order of a dict is kept.
use dev_agent.Base.{
  ℕ, Key, Bool, Option, none, some, String, ◌==◌, text_eq, if◌then◌else◌, ◌≡◌, arith,
}
use text.Mathlib.TextEquality.{eq_iff}

-- `ident` is a text that is an identifier or a digest, which the code only compares, and
-- `other` is a float or a negative number: the code only finds that it is no count and no text.
mutual
  pub data Json : Type 0 where
    null : Json
    bool : Bool → Json
    num : ℕ → Json
    str : String → Json
    ident : Key → Json
    other : Json
    arr : Items → Json
    obj : Fields → Json

  pub data Items : Type 0 where
    nil : Items
    cons : Json → Items → Items

  pub data Fields : Type 0 where
    end : Fields
    field : String → Json → Fields → Fields

-- `d.get(name)`
unfoldable pub get_field : String → Fields → Option Json
get_field k end = none
get_field k (field j v d) = if j == k then some v else get_field k d

-- `d[name] = value`: an old entry keeps its place.
unfoldable pub put_field : String → Json → Fields → Fields
put_field k v end = field k v end
put_field k v (field j w d) = if j == k then field j v d else field j w (put_field k v d)

pub get_field-put_field :
    (j k : String) (v : Json) (d : Fields)
    → get_field j (put_field k v d) ≡ (if k == j then some v else get_field j d)
unfolding get_field put_field
get_field-put_field j k v end = ground arith
get_field-put_field j k v (field i w d) =
    ground (arith, eq_iff k j, eq_iff i k, eq_iff i j, get_field-put_field j k v d)

-- `v == "text"`, `v is True`, `v is False`, `v is None` and `type(v) is int and v == n`.
abbrev pub is_text : String → Option Json → Bool
is_text s (some (str t)) = t == s
is_text s _ = Bool.false

abbrev pub is_bool : Bool → Option Json → Bool
is_bool Bool.true (some (bool Bool.true)) = Bool.true
is_bool Bool.false (some (bool Bool.false)) = Bool.true
is_bool b _ = Bool.false

abbrev pub as_count : Option Json → Option ℕ
as_count (some (num n)) = some n
as_count _ = none

abbrev pub as_key : Option Json → Option Key
as_key (some (ident k)) = some k
as_key _ = none

abbrev pub is_missing : Option Json → Bool
is_missing none = Bool.true
is_missing (some null) = Bool.true
is_missing _ = Bool.false
