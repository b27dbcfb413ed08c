-- ===== src/Matchers/Agree.antt =====
-- What the status matchers match, of each other and of a `StatusOr`.
use p4rt_standalone.Prelude.{◌≡◌, ◌↔◌, refl, ap, ◌∙◌, true, false, inl, inr, Bool-cases, String}
use p4rt_standalone.Status.Code.{
  StatusCode, AbslStatus, StatusApi, StatusOr, value, failure, is_ok_code,
}
use p4rt_standalone.Matchers.Status.{
  Matcher, TestApi, same_code, same_code_iff, get_status, is_ok_matches_or, status_is,
  status_is_with, status_is_matches, is_ok_and_holds,
}

module _ ⦃status : StatusApi⦄ where
  -- What Abseil keeps: a `StatusOr` without a value has a status that is not OK.
  abbrev pub HasStatus : {A : Type 0} → StatusOr A → Type 0
  HasStatus (value a) = Unit {0}
  HasStatus (failure s) = is_ok_code s.code ≡ false

  module _ ⦃test : TestApi⦄ where
    status_is_iff :
        (code : StatusCode) (message : Matcher String) (s : AbslStatus)
        → ((status_is_matches (status_is_with code message) s).0 ≡ true)
          ↔ ((s.code ≡ code) × ((message.explain s.message).0 ≡ true))
    unfolding status_is_matches
    status_is_iff code message s = elim (Bool-cases (same_code s.code code)) [
      | inl e ↦ rw e (λ h. ((same_code_iff s.code code).0 e, h), λ (_, h). h)
      | inr e ↦ rw e (λ h. cc, λ (h, _). cc (e, (same_code_iff s.code code).1 h))
    ]

    holds_iff :
        {A : Type 0} (print : A → String) (matcher : Matcher A) (r : StatusOr A)
        → ((is_ok_and_holds print matcher r).0 ≡ true)
          ↔ ((a : A) × (r ≡ value a) × ((matcher.explain a).0 ≡ true))
    unfolding is_ok_and_holds
    holds_iff print matcher (value a) =
        (λ h. (a, refl, h), λ (b, e, h). ap (λ x. (matcher.explain x).0) (cc e) ∙ h)
    holds_iff print matcher (failure s) = (λ h. cc, λ (b, e, h). cc)

    is_ok_matches_or_iff :
        {A : Type 0} (r : StatusOr A)
        → HasStatus r
        → (is_ok_matches_or r ≡ true) ↔ ((get_status r).code ≡ StatusCode.ok)
    unfolding is_ok_matches_or
    is_ok_matches_or_iff (value a) h = (λ e. status.status_code StatusCode.ok "", λ e. refl)
    is_ok_matches_or_iff (failure s) h = (λ e. cc, λ e. cc)

    -- StatusIs matches exactly the right code with a message that matches; for a StatusOr whose
    -- status is OK only with a value, IsOk matches exactly if StatusIs(OK) does; IsOkAndHolds
    -- matches exactly a value that the matcher matches.
    pub status_matchers_lem :
        {A : Type 0} (print : A → String) (matcher : Matcher A) (code : StatusCode)
        (message : Matcher String) (r : StatusOr A)
        → HasStatus r
        → (((status_is_matches (status_is_with code message) (get_status r)).0 ≡ true)
            ↔ (((get_status r).code ≡ code) × ((message.explain (get_status r).message).0 ≡ true)))
          × ((is_ok_matches_or r ≡ true)
              ↔ ((status_is_matches (status_is StatusCode.ok) (get_status r)).0 ≡ true))
          × (((is_ok_and_holds print matcher r).0 ≡ true)
              ↔ ((a : A) × (r ≡ value a) × ((matcher.explain a).0 ≡ true)))
    status_matchers_lem print matcher code message r h = (
      status_is_iff code message (get_status r),
      (
        λ e.
            (status_is_iff StatusCode.ok test.anything (get_status r)).1
              ((is_ok_matches_or_iff r h).0 e, test.explain-anything (get_status r).message),
        λ e.
            (is_ok_matches_or_iff r h).1
              ((status_is_iff StatusCode.ok test.anything (get_status r)).0 e).0,
      ),
      holds_iff print matcher r,
    )
