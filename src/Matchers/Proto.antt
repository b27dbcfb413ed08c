-- ===== src/Matchers/Proto.antt =====
-- gutil/proto_matchers.h.
use p4rt_standalone.Prelude.{
  ◌≡◌, refl, ap, String, Bool, false, not, Option, none, some, List, [], ◌∷◌, if◌then◌else◌, ◌&&◌,
  Bool-cases, Option-cases, inl, inr,
}

-- What the matcher uses of the protobuf library, for messages of all types: `fresh` gives an empty
-- message of the type of another, and `compare` is a `MessageDifferencer` to which repeated fields
-- are sets.
pub record DifferApi (Message : Type 0) : Type 0 where
  pub compare : Message → Message → Bool
  pub fresh : Message → Message
  pub parse_from_string : String → Message → Bool × Message
  pub debug_string : Message → String
  pub type_name : Message → String

-- The members; a null pointer is `none`, and a message that is copied is the same message.
pub record ProtobufEqMatcher (Message : Type 0) : Type 0 where
  pub expected : Option Message
  pub expected_text : String

module _ {Message : Type 0} where
  -- The two constructors, which are the functions `EqualsProto`, and the copy constructor.
  abbrev pub equals_message : Message → ProtobufEqMatcher Message
  equals_message expected = record { expected = some expected; expected_text = "" }

  abbrev pub equals_text : String → ProtobufEqMatcher Message
  equals_text expected_text = record { expected = none; expected_text = expected_text }

  unfoldable pub copy_matcher : ProtobufEqMatcher Message → ProtobufEqMatcher Message
  copy_matcher other = elim other.expected [
    | none ↦ record { expected = none; expected_text = other.expected_text }
    | some message ↦ record { expected = some message; expected_text = other.expected_text }
  ]

  module _ ⦃differ : DifferApi Message⦄ where
    unfoldable pub describe_proto : ProtobufEqMatcher Message → List String
    describe_proto m = elim m.expected [
      | none ↦ "\n" ∷ m.expected_text ∷ []
      | some expected ↦ "\n" ∷ differ.debug_string expected ∷ []
    ]

    abbrev pub describe_proto_negation : ProtobufEqMatcher Message → List String
    describe_proto_negation m = "not" ∷ describe_proto m

    -- `MatchAndExplain`, with what the listener is told.
    unfoldable pub proto_matches : ProtobufEqMatcher Message → Message → Bool × List String
    proto_matches m actual = elim m.expected [
      | none ↦
          let (parsed, expected_proto) =
            differ.parse_from_string m.expected_text (differ.fresh actual) in
          if not parsed
          then (
            false,
            "\n"
                ∷ differ.debug_string actual
                ∷ "\nCould not parse expected proto text as "
                ∷ differ.type_name expected_proto
                ∷ [],
          )
          else (differ.compare actual expected_proto, "\n" ∷ differ.debug_string actual ∷ [])
      | some expected ↦ (differ.compare actual expected, "\n" ∷ differ.debug_string actual ∷ [])
    ]

    copy_matcher_lem : (m : ProtobufEqMatcher Message) → copy_matcher m ≡ m
    unfolding copy_matcher
    copy_matcher_lem m = elim (Option-cases m.expected) [
      | inl e ↦ rw e refl
      | inr (message, e) ↦ rw e refl
    ]

    -- A matcher for a text matches exactly if the text parses to a message of the type of the
    -- actual one and the matcher for that message matches; a copied matcher matches, explains and
    -- describes itself as the one it was copied from.
    pub proto_matches_text :
        (text : String) (actual : Message) (m : ProtobufEqMatcher Message)
        → ((proto_matches (equals_text text) actual).0 ≡ (
            (differ.parse_from_string text (differ.fresh actual)).0
            && (proto_matches
                (equals_message (differ.parse_from_string text (differ.fresh actual)).1)
                actual).0))
          × (proto_matches (copy_matcher m) actual ≡ proto_matches m actual)
          × (describe_proto (copy_matcher m) ≡ describe_proto m)
    unfolding proto_matches
    proto_matches_text text actual m = (
      elim (Bool-cases (differ.parse_from_string text (differ.fresh actual)).0) [
        | inl e ↦ rw e refl
        | inr e ↦ rw e refl
      ],
      ap (λ (x : ProtobufEqMatcher Message). proto_matches x actual) (copy_matcher_lem m),
      ap describe_proto (copy_matcher_lem m),
    )
