-- ===== src/Server/PacketOut.antt =====
-- What becomes of a packet-out on a stream.
use Prim.Native.String.{◌++◌}
use text.Mathlib.Text.{◌==◌}
use p4rt_standalone.Prelude.{
  ℕ, String, ◌≡◌, refl, ◌∙◌, true, false, Option, none, some, [], ◌∷◌, ◌++◌ as append, Elem,
  Bool-cases, inl, inr, if◌then◌else◌,
}
use p4rt_standalone.Status.Code.{StatusCode, GrpcStatus, AbslStatus, StatusApi, is_ok, is_ok_code}
use p4rt_standalone.Status.Builder.{from_code, from_status, append_text, to_status}
use p4rt_standalone.Status.Builders.{permission_denied_error_builder}
use p4rt_standalone.Status.Messages.{built_status, annotate_status}
use p4rt_standalone.Proto.{PacketOut, StreamError, StreamMessageResponse, Uint128Api}
use p4rt_standalone.Controller.Invariant.Defs.{IsValid, IsPrimary, role_at, id_at}
use p4rt_standalone.Controller.Requests.{allow_request}
use p4rt_standalone.Controller.Permission.{allow_request-IsPrimary}
use p4rt_standalone.Controller.PacketIn.{send_to_primary_reaches}
use p4rt_standalone.Server.Provider.{
  SwitchProvider, P4RtServer, completed, threw, Ended, aborted, last_words, attempt-cases,
}
use p4rt_standalone.Server.Stream.{
  generate_error_response, not_primary_error, packet_out_error, after_packet_out, on_packet,
}

-- The text of a failure, as `StatusBuilder` joins it.
abbrev failure_text : String → String
failure_text m =
    if m == "" then "Failed to send packet out." else m ++ ("; " ++ "Failed to send packet out.")

abbrev not_primary_text : String
not_primary_text = "Cannot process request. Only the primary connection can send PacketOuts."

-- The error message that hands a packet back.
abbrev error_of : AbslStatus → PacketOut → StreamError
error_of status packet = record {
  canonical_code = status.code;
  message = status.message;
  packet_out = some packet;
}

rejection : ⦃api : StatusApi⦄ → AbslStatus
rejection = to_status (append_text not_primary_text permission_denied_error_builder)

module _ {S : Type 0} (provider : SwitchProvider S) ⦃uint128 : Uint128Api⦄ ⦃api : StatusApi⦄
    (packet : PacketOut) (p : ℕ) (s : P4RtServer S) where
  -- A packet-out of the connection `p` in the state `s`: how the call ends, if it does, and the
  -- state `t` after it.
  pub data Handled (ended : Option (Ended GrpcStatus)) (t : P4RtServer S) : Type 0 where
    rejected :
        ended ≡ none
        → ¬ IsPrimary s.world p
        → t.switch ≡ s.switch
        → (e : StreamError) → e.canonical_code ≡ StatusCode.permission_denied
        → e.packet_out ≡ some packet
        → t.world.writes ≡ append s.world.writes ((p, StreamMessageResponse.error e) ∷ [])
        → Handled ended t
    sent :
        (status : AbslStatus)
        → (provider.send_packet_out packet s.switch).0 ≡ completed status
        → ended ≡ none
        → IsPrimary s.world p
        → t.switch ≡ (provider.send_packet_out packet s.switch).1
        → is_ok_code status.code ≡ true
        → t.world.writes ≡ s.world.writes
        → Handled ended t
    failed :
        (status : AbslStatus)
        → (provider.send_packet_out packet s.switch).0 ≡ completed status
        → ended ≡ none
        → IsPrimary s.world p
        → t.switch ≡ (provider.send_packet_out packet s.switch).1
        → (e : StreamError) → e.canonical_code ≡ status.code
        → e.message ≡ failure_text status.message
        → e.packet_out ≡ some packet
        → t.world.writes ≡ append s.world.writes ((p, StreamMessageResponse.error e) ∷ [])
        → Handled ended t
    crashed :
        (what : Option String)
        → (provider.send_packet_out packet s.switch).0 ≡ threw what
        → ended ≡ some (aborted (last_words "StreamChannel" what))
        → IsPrimary s.world p
        → t.world ≡ s.world
        → Handled ended t

  rejected_code : (error_of rejection packet).canonical_code ≡ StatusCode.permission_denied
  unfolding rejection append_text from_code
  rejected_code =
      (built_status (append_text not_primary_text permission_denied_error_builder)).0
      ∙ api.status_code StatusCode.permission_denied ""

  abbrev failed_error : AbslStatus → StreamError
  failed_error answer =
      error_of (to_status (append_text "Failed to send packet out." (from_status answer))) packet

  failed_message :
      (answer : AbslStatus)
      → is_ok_code answer.code ≡ false
      → (failed_error answer).message ≡ failure_text answer.message
  failed_message answer n = (annotate_status answer "Failed to send packet out.").1 ∙ rw n refl

  -- From a valid state, a registered connection's packet-out reaches the provider exactly if the
  -- connection is primary; otherwise it gets it back with PERMISSION_DENIED. If the provider fails,
  -- it gets it back with the provider's code and joined message; if it throws, the process ends.
  pub on_packet-Handled :
      IsValid s.world
      → Elem p s.world.connections
      → Handled (on_packet provider packet p s).0 (on_packet provider packet p s).1
  unfolding on_packet after_packet_out not_primary_error packet_out_error generate_error_response
      rejection
  on_packet-Handled v m =
      elim (Bool-cases (is_ok (allow_request (role_at s.world p) (id_at s.world p) s.world))) [
        | inl e ↦
            let a = (allow_request-IsPrimary p s.world m).0 e in
            elim (attempt-cases (provider.send_packet_out packet s.switch).0) [
              | inl (answer, g) ↦ elim (Bool-cases (is_ok_code answer.code)) [
                | inl f ↦ rw (e, g, f) (sent answer g refl a refl f refl)
                | inr f ↦
                    rw (e, g, f)
                      (failed answer g refl a refl (failed_error answer)
                        (annotate_status answer "Failed to send packet out.").0
                        (failed_message answer f) refl
                        (send_to_primary_reaches p
                          (StreamMessageResponse.error (failed_error answer)) s.world v a))
              ]
              | inr (what, g) ↦ rw (e, g) (crashed what g refl a refl)
            ]
        | inr e ↦ rw e (
            rejected refl (λ a. cc ((allow_request-IsPrimary p s.world m).1 a)) refl
              (error_of rejection packet) rejected_code refl refl)
      ]
