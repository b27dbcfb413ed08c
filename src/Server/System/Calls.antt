-- ===== src/Server/System/Calls.antt =====
-- A call of StreamChannel as steps of the whole system.
use p4rt_standalone.Prelude.{
  ℕ, refl, Option, none, some, List, [], ◌∷◌, Elem, erase_first, Bool-cases, Option-cases, inl, inr,
}
use p4rt_standalone.Status.Code.{GrpcStatus, StatusApi, is_ok, is_ok_code}
use p4rt_standalone.Proto.{StreamMessageRequest, PacketOut, MasterArbitrationUpdate, Uint128Api}
use p4rt_standalone.Controller.State.{World, new_connection, set_object}
use p4rt_standalone.Controller.Arbitration.{handle_arbitration_update}
use p4rt_standalone.Controller.Requests.{allow_request}
use p4rt_standalone.Controller.Invariant.Defs.{role_at, id_at}
use p4rt_standalone.Server.Provider.{
  SwitchProvider, P4RtServer, Ended, replied, aborted, attempt-cases,
}
use p4rt_standalone.Server.Stream.{
  generate_error_response, not_primary_error, unsupported_error, on_arbitration, after_packet_out,
  on_packet, on_request, serve_requests, stream_channel,
}
use p4rt_standalone.Server.System.Steps.{
  System, Reach, open_stream, arbitrate, answer, message_primary, end_stream, here, next,
}

abbrev system : World → List ℕ → System
system w streams = record { world = w; streams = streams }

-- The streams after a call that answered; a call at whose end the process ends leaves its own.
abbrev pub streams_left : ℕ → List ℕ → Ended GrpcStatus → List ℕ
streams_left p streams (replied status) = erase_first p streams
streams_left p streams (aborted words) = streams

-- The streams after a request that ended the call, or did not.
abbrev pub streams_after : ℕ → List ℕ → Option (Ended GrpcStatus) → List ℕ
streams_after p streams none = streams
streams_after p streams (some ended) = streams_left p streams ended

module _ {S : Type 0} (provider : SwitchProvider S) ⦃uint128 : Uint128Api⦄ ⦃api : StatusApi⦄ where
  Reach-trans : {s t u : System} → Reach s t → Reach t u → Reach s u
  Reach-trans a here = a
  Reach-trans a (next r st) = next (Reach-trans a r) st

  arbitration-Reach :
      (update : MasterArbitrationUpdate) (p : ℕ) (s : P4RtServer S) (streams : List ℕ)
      → Elem p streams
      → let (ended, t) = on_arbitration provider update p s in
        Reach (system s.world streams) (system t.world (streams_after p streams ended))
  unfolding on_arbitration
  arbitration-Reach update p s streams m =
      elim (Bool-cases (is_ok (handle_arbitration_update update p s.world).0)) [
        | inl e ↦ rw e (next here (arbitrate update p m))
        | inr e ↦ rw e (next (next here (arbitrate update p m)) (end_stream p m))
      ]

  packet-Reach :
      (packet : PacketOut) (p : ℕ) (s : P4RtServer S) (streams : List ℕ)
      → Elem p streams
      → let (ended, t) = on_packet provider packet p s in
        Reach (system s.world streams) (system t.world (streams_after p streams ended))
  unfolding on_packet after_packet_out not_primary_error generate_error_response
  packet-Reach packet p s streams m =
      elim (Bool-cases (is_ok (allow_request (role_at s.world p) (id_at s.world p) s.world))) [
        | inl e ↦ elim (attempt-cases (provider.send_packet_out packet s.switch).0) [
          | inl (status, g) ↦ elim (Bool-cases (is_ok_code status.code)) [
            | inl f ↦ rw (e, g, f) here
            | inr f ↦ rw (e, g, f) (next here (message_primary _ _))
          ]
          | inr (what, g) ↦ rw (e, g) here
        ]
        | inr e ↦ rw e (next here (answer p _ m))
      ]

  request-Reach :
      (request : StreamMessageRequest) (p : ℕ) (s : P4RtServer S) (streams : List ℕ)
      → Elem p streams
      → let (ended, t) = on_request provider request p s in
        Reach (system s.world streams) (system t.world (streams_after p streams ended))
  unfolding on_request unsupported_error generate_error_response
  request-Reach (StreamMessageRequest.arbitration update) p s streams m =
      arbitration-Reach update p s streams m
  request-Reach (StreamMessageRequest.packet packet) p s streams m =
      packet-Reach packet p s streams m
  request-Reach _ p s streams m = next here (answer p _ m)

  serve-Reach :
      (p : ℕ) (requests : List StreamMessageRequest) (s : P4RtServer S) (streams : List ℕ)
      → Elem p streams
      → Reach (system s.world streams) (
          system
            (serve_requests provider p requests s).1.world
            (streams_left p streams (serve_requests provider p requests s).0))
  unfolding serve_requests
  serve-Reach p [] s streams m = next here (end_stream p m)
  serve-Reach p (request ∷ rest) s streams m =
      let now = request-Reach request p s streams m in
      elim (Option-cases (on_request provider request p s).0) [
        | inl e ↦
            rw (e, serve_requests)
              (Reach-trans (rw e at now)
                (serve-Reach p rest (on_request provider request p s).1 streams m))
        | inr (ended, e) ↦ rw (e, serve_requests) (rw e at now)
      ]

  -- A whole call of StreamChannel, with a connection object at an address that no other call has,
  -- is a run of the step relation, at whose end the streams are those of before, and its own too if
  -- an exception of the provider has ended the process.
  pub stream_channel-Reach :
      (p : ℕ) (requests : List StreamMessageRequest) (s : P4RtServer S) (streams : List ℕ)
      → ¬ Elem p streams
      → Reach
          (record { world = s.world; streams = streams })
          (record {
            world = (stream_channel provider p requests s).1.world;
            streams = streams_left p (p ∷ streams) (stream_channel provider p requests s).0;
          })
  unfolding stream_channel
  stream_channel-Reach p requests s streams n = Reach-trans (next here (open_stream p n)) (
      serve-Reach p requests (record s { world = set_object p new_connection s.world })
        (p ∷ streams) (inl refl))
