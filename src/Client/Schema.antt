-- ===== src/Client/Schema.antt =====
-- rustend-client/src/schema.rs: the indexes that an application asks for. `version` and `add` build a
-- schema from the default one.
use rustend.Prelude.{ℕ, List, [], ◌∷◌, ◌++◌}
use rustend.Core.Ids.{Text}

pub record IndexEntry : Type 0 where
  pub name : Text
  pub object_type : Text
  pub json_path : Text

pub record IndexSchema : Type 0 where
  pub version : ℕ
  pub entries : List IndexEntry

abbrev pub new : IndexSchema
new = record { version = 1; entries = [] }

abbrev pub with_version : ℕ → IndexSchema → IndexSchema
with_version v schema = record schema { version = v }

abbrev pub add : Text → Text → Text → IndexSchema → IndexSchema
add name object_type json_path schema = record schema {
  entries =
      schema.entries
      ++ (record { name = name; object_type = object_type; json_path = json_path } ∷ []);
}
