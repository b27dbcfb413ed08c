-- ===== src/Server/Lifetime.antt =====
-- Whole calls of StreamChannel.
use p4rt_standalone.Prelude.{
  ℕ, String, ◌≡◌, ◌⊎◌, ap, subst, ◌∙◌, Option, some, List, [], ◌∷◌, Bool-cases, Option-cases, inl,
  inr,
}
use p4rt_standalone.Status.Code.{GrpcStatus, AbslStatus, StatusApi, grpc_ok, is_ok, is_ok_code}
use p4rt_standalone.Proto.{StreamMessageRequest, PacketOut, MasterArbitrationUpdate, Uint128Api}
use p4rt_standalone.Controller.State.{World}
use p4rt_standalone.Controller.Primary.{id_already_used}
use p4rt_standalone.Controller.Arbitration.{handle_arbitration_update}
use p4rt_standalone.Controller.Requests.{allow_request}
use p4rt_standalone.Controller.Frame.{SameState, SameState-refl}
use p4rt_standalone.Controller.Invariant.Defs.{IsValid, SameState-IsValid}
use p4rt_standalone.Controller.Invariant.Steps.{
  handle_arbitration_update-IsValid, disconnect-IsValid, send_to_primary-SameState,
}
use p4rt_standalone.Controller.Outcome.Cases.{
  Outcome, unchanged, refused, accepted, handle-Outcome, status_of_accept,
}
use p4rt_standalone.Server.Provider.{
  SwitchProvider, P4RtServer, Attempt, completed, threw, Ended, replied, aborted, last_words,
}
use p4rt_standalone.Server.Stream.{
  on_arbitration, on_packet, after_packet_out, on_request, serve_requests, stream_channel,
}
use p4rt_standalone.Server.System.Invariant.{open-IsValid}

module _ {S : Type 0} (provider : SwitchProvider S) ⦃uint128 : Uint128Api⦄ ⦃api : StatusApi⦄ where
  on_arbitration-IsValid :
      (update : MasterArbitrationUpdate) (p : ℕ) (s : P4RtServer S)
      → IsValid s.world
      → IsValid (on_arbitration provider update p s).1.world
  unfolding on_arbitration
  on_arbitration-IsValid update p s v =
      let u = handle_arbitration_update-IsValid update p s.world v in
      elim (Bool-cases (is_ok (handle_arbitration_update update p s.world).0)) [
        | inl e ↦ rw e u
        | inr e ↦ rw e (disconnect-IsValid p _ u)
      ]

  after_packet_out-SameState :
      (attempt : Attempt AbslStatus) (packet : PacketOut) (role : Option String) (s : P4RtServer S)
      → SameState s.world (after_packet_out provider attempt packet role s).1.world
  unfolding after_packet_out
  after_packet_out-SameState (threw e) packet role s = SameState-refl s.world
  after_packet_out-SameState (completed status) packet role s =
      elim (Bool-cases (is_ok_code status.code)) [
        | inl e ↦ rw e (SameState-refl s.world)
        | inr e ↦ rw e (send_to_primary-SameState role _ s.world)
      ]

  on_packet-IsValid :
      (packet : PacketOut) (p : ℕ) (s : P4RtServer S)
      → IsValid s.world
      → IsValid (on_packet provider packet p s).1.world
  unfolding on_packet
  on_packet-IsValid packet p s v =
      elim (Bool-cases (
        is_ok
          (allow_request (s.world.objects p).role_name (s.world.objects p).election_id s.world))) [
            | inl e ↦ rw e (
                SameState-IsValid
                  (after_packet_out-SameState (provider.send_packet_out packet s.switch).0 packet
                    (s.world.objects p).role_name
                    (record s { switch = (provider.send_packet_out packet s.switch).1 }))
                  v)
            | inr e ↦ rw e (record {
              named = v.named;
              unique = v.unique;
              bounded = v.bounded;
              nameless = v.nameless;
            })
          ]

  on_request-IsValid :
      (request : StreamMessageRequest) (p : ℕ) (s : P4RtServer S)
      → IsValid s.world
      → IsValid (on_request provider request p s).1.world
  unfolding on_request
  on_request-IsValid (StreamMessageRequest.arbitration update) p s v =
      on_arbitration-IsValid update p s v
  on_request-IsValid (StreamMessageRequest.packet packet) p s v = on_packet-IsValid packet p s v
  on_request-IsValid _ p s v = record {
    named = v.named;
    unique = v.unique;
    bounded = v.bounded;
    nameless = v.nameless;
  }

  serve-IsValid :
      (p : ℕ) (requests : List StreamMessageRequest) (s : P4RtServer S)
      → IsValid s.world
      → IsValid (serve_requests provider p requests s).1.world
  unfolding serve_requests
  serve-IsValid p [] s v = disconnect-IsValid p s.world v
  serve-IsValid p (request ∷ rest) s v = elim (Option-cases (on_request provider request p s).0) [
    | inl e ↦
        rw (e, serve_requests)
          (serve-IsValid p rest (on_request provider request p s).1
            (on_request-IsValid request p s v))
    | inr (status, e) ↦ rw (e, serve_requests) (on_request-IsValid request p s v)
  ]

  -- From a valid state, whatever a controller sends on a stream, from its first request to the end
  -- of the call, the state stays valid.
  pub stream_channel-IsValid :
      (p : ℕ) (requests : List StreamMessageRequest) (s : P4RtServer S)
      → IsValid s.world
      → IsValid (stream_channel provider p requests s).1.world
  unfolding stream_channel
  stream_channel-IsValid p requests s v = serve-IsValid p requests _ (open-IsValid p s.world v)

  -- How the stream's call can end.
  pub data Ends : Ended GrpcStatus → Type 0 where
    closed : Ends (replied grpc_ok)
    refused_id : Ends (replied id_already_used)
    crashed : (e : Option String) → Ends (aborted (last_words "StreamChannel" e))

  Outcome-status :
      {p : ℕ} {role : Option String} {id : Option ℕ} {w : World} {r : GrpcStatus × World}
      → Outcome p role id w r
      → (r.0 ≡ grpc_ok) ⊎ (r.0 ≡ id_already_used)
  Outcome-status (unchanged _ e) = inl (ap (λ (x : GrpcStatus × World). x.0) e)
  Outcome-status (refused _ _ _ _ _ _ e) = inr (ap (λ (x : GrpcStatus × World). x.0) e)
  Outcome-status {p} {role} {id} {w} (accepted _ _ _ e) =
      inl (ap (λ (x : GrpcStatus × World). x.0) e ∙ status_of_accept p role id w)

  after_packet_out-Ends :
      (attempt : Attempt AbslStatus) (packet : PacketOut) (role : Option String) (s : P4RtServer S)
      (end : Ended GrpcStatus)
      → (after_packet_out provider attempt packet role s).0 ≡ some end
      → Ends end
  unfolding after_packet_out
  after_packet_out-Ends (threw e) packet role s end h =
      subst (λ (o : Ended GrpcStatus). Ends o) (cc h) (crashed e)
  after_packet_out-Ends (completed status) packet role s end h = cc h

  on_request-Ends :
      (request : StreamMessageRequest) (p : ℕ) (s : P4RtServer S) (end : Ended GrpcStatus)
      → (on_request provider request p s).0 ≡ some end
      → Ends end
  unfolding on_request
  on_request-Ends (StreamMessageRequest.arbitration update) p s end h =
      elim (Outcome-status (handle-Outcome update p s.world)) [
        | inl e ↦ cc (rw e at h)
        | inr e ↦ subst (λ (o : Ended GrpcStatus). Ends o) (cc (rw e at h)) refused_id
      ]
  on_request-Ends (StreamMessageRequest.packet packet) p s end h =
      elim (Bool-cases (
        is_ok
          (allow_request (s.world.objects p).role_name (s.world.objects p).election_id s.world))) [
            | inl e ↦
                after_packet_out-Ends (provider.send_packet_out packet s.switch).0 packet
                  (s.world.objects p).role_name
                  (record s { switch = (provider.send_packet_out packet s.switch).1 }) end
                  (rw e at h)
            | inr e ↦ cc (rw e at h)
          ]
  on_request-Ends _ p s end h = cc h

  serve-Ends :
      (p : ℕ) (requests : List StreamMessageRequest) (s : P4RtServer S)
      → Ends (serve_requests provider p requests s).0
  unfolding serve_requests
  serve-Ends p [] s = closed
  serve-Ends p (request ∷ rest) s = elim (Option-cases (on_request provider request p s).0) [
    | inl e ↦ rw (e, serve_requests) (serve-Ends p rest (on_request provider request p s).1)
    | inr (end, e) ↦ rw (e, serve_requests) (on_request-Ends request p s end e)
  ]

  -- A stream's call ends with OK, with the INVALID_ARGUMENT of an election ID in use, or with the
  -- process, if the provider throws.
  pub stream_channel-Ends :
      (p : ℕ) (requests : List StreamMessageRequest) (s : P4RtServer S)
      → Ends (stream_channel provider p requests s).0
  unfolding stream_channel
  stream_channel-Ends p requests s = serve-Ends p requests _
