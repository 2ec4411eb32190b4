-- ===== src/Database/Schemas.antt =====
-- What the statements of the constructors make of a schema.
use suda_gureum.Base.{
  ◌≡◌, refl, ap, ◌∙◌, true, List, [], ◌∷◌, ◌++◌, inl, inr, Bool-cases, arith, Bytes, bytes_eq_iff,
  map, All,
}
use suda_gureum.Database.{
  lower, Statement, Schema, name_of, same_name, has_name, create_if_not_exists,
}

abbrev pub create_all : List Statement → Schema → Schema
create_all [] schema = schema
create_all (st ∷ sts) schema = create_all sts (create_if_not_exists st schema)

-- The schema has an object with the name of the statement's.
abbrev IsThere : Schema → Statement → Type 0
IsThere schema st = has_name (name_of st) schema ≡ true

same_name_refl : (name : Bytes) → same_name name name ≡ true
same_name_refl name = (bytes_eq_iff (map lower name) (map lower name)).1 refl

has_name-append :
    (name : Bytes) (schema : Schema) (st : Statement)
    → has_name name schema ≡ true
    → has_name name (schema ++ st ∷ []) ≡ true
has_name-append name [] st h = ground (arith, h)
has_name-append name (object ∷ schema) st h = ground (arith, h, has_name-append name schema st)

has_name-last :
    (schema : Schema) (st : Statement) → has_name (name_of st) (schema ++ st ∷ []) ≡ true
has_name-last [] st = rw (same_name_refl (name_of st))
has_name-last (object ∷ schema) st = ground (arith, has_name-last schema st)

create_if_not_exists-kept :
    (name : Bytes) (st : Statement) (schema : Schema)
    → has_name name schema ≡ true
    → has_name name (create_if_not_exists st schema) ≡ true
create_if_not_exists-kept name st schema h = elim (Bool-cases (has_name (name_of st) schema)) [
  | inl there ↦ rw (there, h)
  | inr missing ↦ rw (missing, has_name-append name schema st h)
]

create_if_not_exists-IsThere :
    (st : Statement) (schema : Schema) → IsThere (create_if_not_exists st schema) st
create_if_not_exists-IsThere st schema = elim (Bool-cases (has_name (name_of st) schema)) [
  | inl there ↦ rw (there, there)
  | inr missing ↦ rw (missing, has_name-last schema st)
]

create_all-kept :
    (name : Bytes) (sts : List Statement) (schema : Schema)
    → has_name name schema ≡ true
    → has_name name (create_all sts schema) ≡ true
create_all-kept name [] schema h = h
create_all-kept name (st ∷ sts) schema h =
    create_all-kept name sts (create_if_not_exists st schema)
      (create_if_not_exists-kept name st schema h)

create_all-IsThere :
    (sts : List Statement) (schema : Schema) → All (IsThere (create_all sts schema)) sts
create_all-IsThere [] schema = tt
create_all-IsThere (st ∷ sts) schema = (
  create_all-kept (name_of st) sts (create_if_not_exists st schema)
      (create_if_not_exists-IsThere st schema),
  create_all-IsThere sts (create_if_not_exists st schema),
)

-- Statements whose objects are all there change nothing.
create_all-there :
    (sts : List Statement) (schema : Schema)
    → All (IsThere schema) sts
    → create_all sts schema ≡ schema
create_all-there [] schema h = refl
create_all-there (st ∷ sts) schema (there, h) =
    ap (create_all sts) (rw there) ∙ create_all-there sts schema h

pub create_all-twice :
    (sts : List Statement) (schema : Schema)
    → create_all sts (create_all sts schema) ≡ create_all sts schema
create_all-twice sts schema =
    create_all-there sts (create_all sts schema) (create_all-IsThere sts schema)
