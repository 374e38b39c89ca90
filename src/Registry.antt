-- ===== src/Registry.antt =====
-- The registry of instances (src/beetroot/registry.py): the rows, and the third-party code that
-- reads and writes them.
pub mod Tests
pub mod Backend
pub mod Rows
pub mod Storage
pub mod Operations
pub mod Invariant
pub mod Reach
pub mod Reread
pub mod RoundTrip
pub mod Salvage
pub mod Transactions
pub mod Listing
pub mod Commits
pub mod Updates
pub mod Paths
pub mod Classes
pub mod Collisions
pub mod Protection
pub mod Siblings
pub mod Locking
pub mod Exclusion
pub mod Serial
pub mod Interleaved
use beetroot.Prelude.{◌≡◌, String, Option, some, ℤ, Distinct, string_eq}
use beetroot.Json.{Json, Fields, num, str, field_keys, field_get, IsKeyed, FieldsKeyed}

-- The libraries that the registry calls. `Text` is the type of a file's text, and `T` of a
-- `datetime`. `loads` and `dumps` are json's; `datetime_of` and `int_of` are pydantic's checks of a
-- field of type `datetime` and of type `int`; `external_of` checks a backend payload against the
-- config class of another package, by the name of the class, and dumps the model.
pub record Platform (T Text : Type 0) : Type 0 where
  pub loads : Text → Option Json
  pub dumps : Json → Text
  pub loads-dumps : (j : Json) → IsKeyed j → loads (dumps j) ≡ some j
  pub loads-IsKeyed : (t : Text) (j : Json) → loads t ≡ some j → IsKeyed j
  pub datetime_of : Json → Option T
  pub isoformat : T → String
  pub datetime_of-isoformat : (t : T) → datetime_of (str (isoformat t)) ≡ some t
  pub int_of : Json → Option ℤ
  pub int_of-num : (n : ℤ) → int_of (num n) ≡ some n
  pub external_of : String → Fields → Option Fields
  pub external_of_again :
      (c : String) (fs d : Fields) → external_of c fs ≡ some d → external_of c d ≡ some d
  pub external_of-kind :
      (c : String) (fs d : Fields)
      → external_of c fs ≡ some d
      → field_get "kind" d ≡ field_get "kind" fs
  pub external_of-IsKeyed :
      (c : String) (fs d : Fields)
      → external_of c fs ≡ some d
      → Distinct (field_keys d) × FieldsKeyed d
