-- ===== src/Matchers/Status.antt =====
-- gutil/status_matchers.h.
use p4rt_standalone.Prelude.{
  ◌≡◌, ◌↔◌, refl, String, Bool, true, false, List, [], ◌∷◌, ◌++◌, if◌then◌else◌,
}
use p4rt_standalone.Status.Code.{
  StatusCode, AbslStatus, StatusApi, StatusOr, value, failure, is_ok_code,
}

-- A `testing::Matcher`: whether it matches, with what it tells the listener, and its description.
pub record Matcher (A : Type 0) : Type 0 where
  pub explain : A → Bool × List String
  pub describe : List String

-- What the matchers use of the test framework: `testing::_`, which matches everything, and the
-- printing of codes, statuses and values.
pub record TestApi : Type 0 where
  pub anything : Matcher String
  pub code_text : StatusCode → String
  pub status_text : AbslStatus → String
  pub explain-anything : (s : String) → (anything.explain s).0 ≡ true

-- `StatusIsOkMatcher`
abbrev pub describe_ok : List String
describe_ok = "is OK" ∷ []

abbrev pub describe_not_ok : List String
describe_not_ok = "is not OK" ∷ []

-- `StatusIsMatcher`
pub record StatusIsMatcher : Type 0 where
  pub status_code : StatusCode
  pub message_matcher : Matcher String

-- `==` on codes.
pub StatusCode-discrete : Discrete StatusCode
StatusCode-discrete = hlevel

unfoldable pub same_code : StatusCode → StatusCode → Bool
same_code a b = elim (StatusCode-discrete a b) [ yes e ↦ true | no n ↦ false ]

pub same_code_iff : (a b : StatusCode) → (same_code a b ≡ true) ↔ (a ≡ b)
unfolding same_code
same_code_iff a b =
    elim (StatusCode-discrete a b)
      as (λ (d : Dec (a ≡ b)). (elim d [ yes e ↦ true | no n ↦ false ] ≡ true) ↔ (a ≡ b)) [
        | yes e ↦ (λ h. e, λ h. refl)
        | no n ↦ (λ h. cc, λ h. absurd (n h))
      ]

module _ ⦃status : StatusApi⦄ where
  -- `internal::GetStatus` of a `StatusOr`, its `status()`; that of a status is the status.
  abbrev pub get_status {ℓ} : {A : Type ℓ} → StatusOr A → AbslStatus
  get_status (value a) = status.status StatusCode.ok ""
  get_status (failure s) = s

  -- `MatchAndExplain` of `StatusIsOkMatcher`, on a status and on a `StatusOr`, whose `ok()` tells
  -- whether it holds a value.
  unfoldable pub is_ok_matches : AbslStatus → Bool
  is_ok_matches actual = is_ok_code actual.code

  unfoldable pub is_ok_matches_or : {A : Type 0} → StatusOr A → Bool
  is_ok_matches_or (value a) = true
  is_ok_matches_or (failure s) = false

  module _ ⦃test : TestApi⦄ where
    -- The two functions `StatusIs`.
    abbrev pub status_is : StatusCode → StatusIsMatcher
    status_is code = record { status_code = code; message_matcher = test.anything }

    abbrev pub status_is_with : StatusCode → Matcher String → StatusIsMatcher
    status_is_with code message = record { status_code = code; message_matcher = message }

    abbrev pub describe_to : StatusIsMatcher → List String
    describe_to m =
        test.code_text m.status_code
        ∷ " status code where the message "
        ∷ m.message_matcher.describe

    abbrev pub describe_negation_to : StatusIsMatcher → List String
    describe_negation_to m = "not (" ∷ describe_to m ++ ")" ∷ []

    -- `MatchAndExplain` of `StatusIsMatcher`; the message is looked at only if the code is right.
    unfoldable pub status_is_matches : StatusIsMatcher → AbslStatus → Bool × List String
    unfolding same_code
    status_is_matches m actual =
        if same_code actual.code m.status_code
        then m.message_matcher.explain actual.message
        else (false, [])

    -- `IsOkAndHolds`, with the text of the value.
    unfoldable pub is_ok_and_holds :
        {A : Type 0} → (A → String) → Matcher A → StatusOr A → Bool × List String
    is_ok_and_holds print matcher (failure s) = (false, [])
    is_ok_and_holds print matcher (value a) =
        let (matches, told) = matcher.explain a in (matches, "with value: " ∷ print a ∷ told)

    -- The insertion operator for `StatusOr`.
    abbrev pub status_or_text : {A : Type 0} → StatusOr A → String
    status_or_text result = test.status_text (get_status result)

    -- `ASSERT_OK_AND_ASSIGN(lhs, expression); rest`: the test fails with a text, or goes on.
    unfoldable pub assert_ok_and_assign :
        {A R : Type 0} → String → (List String → R) → StatusOr A → (A → R) → R
    assert_ok_and_assign text fail (failure s) rest =
        fail (text ∷ " failed: " ∷ test.status_text s ∷ [])
    assert_ok_and_assign text fail (value a) rest = rest a
