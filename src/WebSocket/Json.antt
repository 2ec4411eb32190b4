-- ===== src/WebSocket/Json.antt =====
-- What the code takes from rapidjson, which is not part of the repository.
use mathlib.Core.Path.{◌≡◌}
use suda_gureum.Base.{ℕ, Bool, List, Option, Bytes, length}

-- A parsed document, as far as `parsePayload` reads it: `doc["_reqid"].GetInt()`, as a 32-bit
-- pattern, and `doc["_method"].GetString()`. `none` is a member that is missing or of another type,
-- at which rapidjson's assertion fails.
pub record Document : Type 0 where
  pub reqid : Option ℕ
  pub method : Option Bytes

-- `ParseInsitu`: it decodes strings in place, so it leaves other bytes in the buffer, as many as
-- there were. `none` is a parse error.
pub record Insitu : Type 0 where
  pub buffer : Bytes
  pub document : Option Document

pub record Json : Type 0 where
  pub parse_insitu : Bytes → Insitu
  pub parse_insitu_length : (t : Bytes) → length (parse_insitu t).buffer ≡ length t

-- The members of a document, and the text that a `Writer` makes of them.
pub record Writer : Type 1 where
  pub Member : Type 0
  pub number_member : Bytes → ℕ → Member
  pub bool_member : Bytes → Bool → Member
  pub string_member : Bytes → Bytes → Member
  pub accept : List Member → Bytes
