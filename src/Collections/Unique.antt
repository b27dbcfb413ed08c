-- ===== src/Collections/Unique.antt =====
-- What the lookups find after an insertion.
use p4rt_standalone.Prelude.{◌≡◌, ◌≢◌, refl, String, none, some, inl, inr, Bool-cases, Option-cases}
use p4rt_standalone.Status.Code.{StatusCode, AbslStatus, StatusApi, value}
use p4rt_standalone.Collections.Helpers.{
  MapApi, returned, find_or_null, find_or_die, find_or_status, find_ptr_or_status, insert_if_unique,
}

module _ {K V M : Type 0} ⦃api : MapApi K V M⦄ ⦃status : StatusApi⦄ where
  -- Every lookup finds this value for the key.
  abbrev Finds : K → V → M → Type 0
  Finds k v m =
      (find_or_status k m ≡ value v)
      × (find_ptr_or_status k m ≡ value v)
      × (find_or_null k m ≡ some v)
      × (find_or_die k m ≡ returned v)

  Finds-of_eq : (k : K) (v : V) (m : M) → api.find k m ≡ some v → Finds k v m
  unfolding find_or_status find_ptr_or_status find_or_null find_or_die
  Finds-of_eq k v m e = (
    rw (e, find_or_status) refl,
    rw (e, find_ptr_or_status) refl,
    rw (e, find_or_null) refl,
    rw (e, find_or_die) refl,
  )

  -- How an insertion ends.
  pub data Insertion (k : K) (v : V) (error_message : String) (m : M)
      : AbslStatus × M → Type 0 where
    inserted :
        (s : AbslStatus) (m' : M)
        → find_or_null {V = V} k m ≡ none
        → s.code ≡ StatusCode.ok
        → Finds k v m'
        → ((k' : K) → k ≢ k' → find_or_null {V = V} k' m' ≡ find_or_null {V = V} k' m)
        → Insertion k v error_message m (s, m')
    refused :
        (s : AbslStatus) (w : V)
        → Finds k w m
        → s.code ≡ StatusCode.invalid_argument
        → s.message ≡ error_message
        → Insertion k v error_message m (s, m)

  -- InsertIfUnique answers OK exactly if no lookup finds the key; all of them then find the value,
  -- and other keys have what they had. Otherwise it answers INVALID_ARGUMENT with the message that
  -- it was given, and the map, which has an entry for the key, is unchanged.
  pub insert_if_unique-Insertion :
      (k : K) (v : V) (error_message : String) (m : M)
      → Insertion k v error_message m (insert_if_unique k v error_message m)
  unfolding insert_if_unique find_or_null
  insert_if_unique-Insertion k v error_message m = elim (Option-cases (api.find k m)) [
    | inl e ↦ rw ((api.insert_iff k v m).1 e) (
        inserted (status.status StatusCode.ok "") (api.insert k v m).1 (rw (e, find_or_null) refl)
          (status.status_code StatusCode.ok "")
          (Finds-of_eq k v (api.insert k v m).1 (api.find-insert k v m e))
          (λ k' n. rw (api.find-insert_other k k' v m n, find_or_null) refl))
    | inr (w, e) ↦ elim (Bool-cases (api.insert k v m).0) [
      | inl f ↦ cc (e, (api.insert_iff k v m).0 f)
      | inr f ↦
          rw (f, api.insert_present k v w m e)
            (refused (status.status StatusCode.invalid_argument error_message) w
              (Finds-of_eq k w m e) (status.status_code StatusCode.invalid_argument error_message)
              (status.status_message StatusCode.invalid_argument error_message (λ h. cc)))
    ]
  ]
