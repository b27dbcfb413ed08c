-- ===== src/Tests/Matchers.antt =====
-- The theorems on matchers at concrete ones.
use p4rt_standalone.Prelude.{ℕ, ◌≡◌, ◌↔◌, refl, true, String, [], ◌∷◌, same_number}
use p4rt_standalone.Status.Code.{StatusCode, StatusOr, value}
use p4rt_standalone.Matchers.Status.{
  Matcher, TestApi, get_status, is_ok_matches_or, status_is, status_is_with, status_is_matches,
  is_ok_and_holds,
}
use p4rt_standalone.Matchers.Agree.{status_matchers_lem}
use p4rt_standalone.Matchers.Proto.{DifferApi, ProtobufEqMatcher, equals_text, proto_matches}
use p4rt_standalone.Tests.Samples.{absl}

abbrev any_text : Matcher String
any_text = record { explain = λ s. (true, []); describe = "is anything" ∷ [] }

anything_law : (s : String) → (any_text.explain s).0 ≡ true
anything_law s = refl

instance abbrev framework : TestApi
framework = record {
  anything = any_text;
  code_text = λ code. "a code";
  status_text = λ s. s.message;
  explain-anything = anything_law;
}

abbrev is_three : Matcher ℕ
is_three = record { explain = λ n. (same_number n 3, []); describe = "is three" ∷ [] }

abbrev three : StatusOr ℕ
three = value 3

status_matchers_lem_example :
    (((status_is_matches (status_is_with StatusCode.not_found any_text) (get_status three)).0
        ≡ true)
      ↔ (((get_status three).code ≡ StatusCode.not_found)
          × ((any_text.explain (get_status three).message).0 ≡ true)))
    × ((is_ok_matches_or three ≡ true)
        ↔ ((status_is_matches (status_is StatusCode.ok) (get_status three)).0 ≡ true))
    × (((is_ok_and_holds (λ n. "a number") is_three three).0 ≡ true)
        ↔ ((a : ℕ) × (three ≡ value a) × ((is_three.explain a).0 ≡ true)))
status_matchers_lem_example =
    status_matchers_lem (λ n. "a number") is_three StatusCode.not_found any_text three tt

-- Messages are numbers; every text is that of 3.
instance abbrev numbers : DifferApi ℕ
numbers = record {
  compare = same_number;
  fresh = λ message. 0;
  parse_from_string = λ text message. (true, 3);
  debug_string = λ message. "a number";
  type_name = λ message. "number";
}

abbrev actual : ℕ
actual = 3

abbrev expects_three : ProtobufEqMatcher ℕ
expects_three = equals_text "3"

matches_three : (proto_matches expects_three actual).0 ≡ true
unfolding proto_matches
matches_three = refl
