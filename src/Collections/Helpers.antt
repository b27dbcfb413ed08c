-- ===== src/Collections/Helpers.antt =====
-- The functions of gutil/collections.h, over whatever map or set they are used with.
use p4rt_standalone.Prelude.{
  ◌≡◌, ◌≢◌, ◌↔◌, String, Bool, true, not, Option, none, some, if◌then◌else◌,
}
use p4rt_standalone.Status.Code.{StatusCode, AbslStatus, StatusApi, StatusOr, value, failure}

-- `find`, and `insert` with whether it inserted, of `absl::flat_hash_map` and
-- `google::protobuf::Map`; an `absl::flat_hash_set` maps its elements to the unit type. An insertion
-- adds an entry for a new key, and leaves a map that has the key as it is.
pub record MapApi (K V M : Type 0) : Type 0 where
  pub find : K → M → Option V
  pub insert : K → V → M → Bool × M
  pub insert_iff : (k : K) (v : V) (m : M) → ((insert k v m).0 ≡ true) ↔ (find k m ≡ none)
  pub find-insert : (k : K) (v : V) (m : M) → find k m ≡ none → find k (insert k v m).1 ≡ some v
  pub find-insert_other : (k k' : K) (v : V) (m : M) → k ≢ k' → find k' (insert k v m).1 ≡ find k' m
  pub insert_present : (k : K) (v w : V) (m : M) → find k m ≡ some w → (insert k v m).1 ≡ m

-- What a function gives that may end the process by a `CHECK`, with its message.
pub data Checked (A : Type 0) : Type 0 where
  returned : A → Checked A
  died : String → Checked A

-- A pointer or a reference into the map is the value that it leads to when the function returns.
module _ {K V M : Type 0} ⦃api : MapApi K V M⦄ where
  -- Both overloads of `FindOrNull`; the null pointer is `none`.
  unfoldable pub find_or_null : K → M → Option V
  find_or_null k m = elim (api.find k m) [ none ↦ none | some v ↦ some v ]

  -- Both overloads of `FindOrDie`.
  unfoldable pub find_or_die : K → M → Checked V
  find_or_die k m = elim (api.find k m) [ none ↦ died "Could not find key" | some v ↦ returned v ]

  module _ ⦃status : StatusApi⦄ where
    unfoldable pub find_or_status : K → M → StatusOr V
    find_or_status k m = elim (api.find k m) [
      | none ↦ failure (status.status StatusCode.not_found "Key not found")
      | some v ↦ value v
    ]

    unfoldable pub find_ptr_or_status : K → M → StatusOr V
    find_ptr_or_status k m = elim (api.find k m) [
      | none ↦ failure (status.status StatusCode.not_found "Key not found")
      | some v ↦ value v
    ]

    -- The three overloads of `InsertIfUnique`.
    unfoldable pub insert_if_unique : K → V → String → M → AbslStatus × M
    insert_if_unique k v error_message m =
        let (inserted, m') = api.insert k v m in
        if not inserted
        then (status.status StatusCode.invalid_argument error_message, m')
        else (status.status StatusCode.ok "", m')
