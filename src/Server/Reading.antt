-- ===== src/Server/Reading.antt =====
-- How Read ends.
use Prim.Native.String.{◌++◌}
use p4rt_standalone.Prelude.{
  String, ◌≡◌, ◌⊎◌, inl, inr, refl, Bool, true, false, Option, none, some, List, [], ◌∷◌,
}
use p4rt_standalone.Status.Code.{
  StatusCode, GrpcStatus, AbslStatus, StatusApi, value, failure, grpc_ok,
}
use p4rt_standalone.Proto.{ReadRequest, ReadResponse}
use p4rt_standalone.Server.Provider.{
  SwitchProvider, P4RtServer, completed, threw, Ended, replied, aborted, last_words, answer-cases,
}
use p4rt_standalone.Server.Rpc.{read}

module _ {S : Type 0} (provider : SwitchProvider S) ⦃api : StatusApi⦄ (s : P4RtServer S) where
  -- The server behind the provider's call.
  abbrev pub after_read : ReadRequest → P4RtServer S
  after_read request = record s { switch = (provider.do_read request s.switch).1 }

  pub data Answered (request : Option ReadRequest) (has_writer : Bool)
      (r : Ended (GrpcStatus × List ReadResponse) × P4RtServer S) : Type 0 where
    invalid :
        (request ≡ none) ⊎ (has_writer ≡ false)
        → (status : GrpcStatus) → status.error_code ≡ StatusCode.invalid_argument
        → r ≡ (replied (status, []), s)
        → Answered request has_writer r
    answered :
        (asked : ReadRequest) (response : ReadResponse)
        → request ≡ some asked
        → has_writer ≡ true
        → (provider.do_read asked s.switch).0 ≡ completed (value response)
        → r ≡ (replied (grpc_ok, response ∷ []), after_read asked)
        → Answered request has_writer r
    failed :
        (asked : ReadRequest) (status : AbslStatus)
        → request ≡ some asked
        → has_writer ≡ true
        → (provider.do_read asked s.switch).0 ≡ completed (failure status)
        → (answer : GrpcStatus) → answer.error_code ≡ StatusCode.unknown
        → answer.error_message ≡ "Read failure: " ++ api.to_text status
        → r ≡ (replied (answer, []), after_read asked)
        → Answered request has_writer r
    crashed :
        (asked : ReadRequest) (e : Option String)
        → request ≡ some asked
        → has_writer ≡ true
        → (provider.do_read asked s.switch).0 ≡ threw e
        → r ≡ (aborted (last_words "Read" e), after_read asked)
        → Answered request has_writer r

  -- Read needs no permission. Without request or writer: INVALID_ARGUMENT, and the provider is not
  -- called. If the provider succeeds: OK, and its one response is written; if it fails: UNKNOWN
  -- with its status's text, and nothing is written; if it throws: the process ends.
  pub read-Answered :
      (request : Option ReadRequest) (has_writer : Bool)
      → Answered request has_writer (read provider request has_writer s)
  unfolding read
  read-Answered none has_writer = invalid (inl refl) _ refl refl
  read-Answered (some asked) false = invalid (inr refl) _ refl refl
  read-Answered (some asked) true = elim (answer-cases (provider.do_read asked s.switch).0) [
    | inl (response, e) ↦ answered asked response refl refl e (rw e refl)
    | inr (inl (status, e)) ↦ failed asked status refl refl e _ refl refl (rw e refl)
    | inr (inr (what, e)) ↦ crashed asked what refl refl e (rw e refl)
  ]
