-- ===== src/Server/Threads/Stream.antt =====
-- A call of StreamChannel as the moves of one thread.
use p4rt_standalone.Prelude.{
  ℕ, String, refl, sym, ap, Option, List, [], ◌∷◌, Elem, erase_first, subst, Bool-cases,
  Option-cases, inl, inr,
}
use p4rt_standalone.Status.Code.{GrpcStatus, StatusApi, is_ok, is_ok_code}
use p4rt_standalone.Proto.{
  StreamMessageRequest, StreamMessageResponse, PacketOut, MasterArbitrationUpdate, Uint128Api,
}
use p4rt_standalone.Controller.State.{World, new_connection, set_object}
use p4rt_standalone.Controller.Arbitration.{handle_arbitration_update, disconnect}
use p4rt_standalone.Controller.Requests.{allow_request, send_stream_message_to_primary}
use p4rt_standalone.Controller.Uniform.{handle-after, disconnect-after, send_to_primary-after}
use p4rt_standalone.Controller.Invariant.Defs.{role_at, id_at}
use p4rt_standalone.Server.Provider.{SwitchProvider, P4RtServer, attempt-cases}
use p4rt_standalone.Server.Stream.{
  not_primary_error, unsupported_error, packet_out_error, on_arbitration, after_packet_out,
  on_packet, on_request, serve_requests, stream_channel,
}
use p4rt_standalone.Server.System.Calls.{streams_left, streams_after}
use p4rt_standalone.Server.Threads.Steps.{
  Machine, not_supported, not_permitted, arbitrating, disconnecting, messaging, testing,
}
use p4rt_standalone.Server.Threads.Solo.{Mirror, Solo, Solo-trans, op-Solo, open-Solo, answer-Solo}

module _ ⦃uint128 : Uint128Api⦄ ⦃api : StatusApi⦄ where
  module _ (m : Machine) (p : ℕ) (w : World) (streams : List ℕ) (mir : Mirror m p w streams) where
    present : Elem p streams → Elem p m.system.streams
    present e = subst (Elem p) (sym mir.streams) e

    arbitrate-Solo :
        (update : MasterArbitrationUpdate)
        → Elem p streams
        → Solo m p (handle_arbitration_update update p w).1 streams
    arbitrate-Solo update e =
        op-Solo (λ v. (handle_arbitration_update update p v).1)
          (λ ws v. ap (λ (r : GrpcStatus × World). r.1) (handle-after ws update p v)) m p w streams
          _ streams mir (arbitrating update (present e)) refl mir.streams

    disconnect-Solo : Elem p streams → Solo m p (disconnect p w) (erase_first p streams)
    disconnect-Solo e =
        op-Solo (disconnect p) (λ ws v. disconnect-after ws p v) m p w streams _
          (erase_first p streams) mir (disconnecting (present e)) refl
          (ap (erase_first p) mir.streams)

    notify-Solo :
        (role : Option String) (r : StreamMessageResponse)
        → Solo m p (send_stream_message_to_primary role r w).1 streams
    notify-Solo role r =
        op-Solo (λ v. (send_stream_message_to_primary role r v).1)
          (λ ws v. ap (λ x. x.1) (send_to_primary-after ws role r v)) m p w streams _ streams mir
          (messaging role r) refl mir.streams

    test-Solo : Solo m p w streams
    test-Solo = op-Solo (λ v. v) (λ ws v. refl) m p w streams _ streams mir testing refl mir.streams

  module _ {S : Type 0} (provider : SwitchProvider S) where
    arbitration-Solo :
        (update : MasterArbitrationUpdate) (m : Machine) (p : ℕ) (s : P4RtServer S)
        (streams : List ℕ)
        → Mirror m p s.world streams
        → Elem p streams
        → let (ended, t) = on_arbitration provider update p s in
          Solo m p t.world (streams_after p streams ended)
    unfolding on_arbitration
    arbitration-Solo update m p s streams mir e =
        elim (Bool-cases (is_ok (handle_arbitration_update update p s.world).0)) [
          | inl ok ↦ rw ok (arbitrate-Solo m p s.world streams mir update e)
          | inr n ↦ rw n (
              Solo-trans (arbitrate-Solo m p s.world streams mir update e)
                (λ k next. disconnect-Solo k p _ streams next e))
        ]

    -- The test of the permission comes first.
    packet-Solo :
        (packet : PacketOut) (m : Machine) (p : ℕ) (s : P4RtServer S) (streams : List ℕ)
        → Mirror m p s.world streams
        → Elem p streams
        → let (ended, t) = on_packet provider packet p s in
          Solo m p t.world (streams_after p streams ended)
    unfolding on_packet after_packet_out
    packet-Solo packet m p s streams mir e =
        let tested = test-Solo m p s.world streams mir in
        elim (Bool-cases (is_ok (allow_request (role_at s.world p) (id_at s.world p) s.world))) [
          | inl a ↦ elim (attempt-cases (provider.send_packet_out packet s.switch).0) [
            | inl (status, g) ↦ elim (Bool-cases (is_ok_code status.code)) [
              | inl f ↦ rw (a, g, f) tested
              | inr f ↦
                  rw (a, g, f)
                    (Solo-trans tested (λ k next.
                      notify-Solo k p s.world streams next (role_at s.world p)
                        (packet_out_error status packet)))
            ]
            | inr (what, g) ↦ rw (a, g) tested
          ]
          | inr n ↦ rw n (
              Solo-trans tested (λ k next.
                answer-Solo k p s.world streams next (not_primary_error packet)
                  (not_permitted packet) e))
        ]

    request-Solo :
        (request : StreamMessageRequest) (m : Machine) (p : ℕ) (s : P4RtServer S) (streams : List ℕ)
        → Mirror m p s.world streams
        → Elem p streams
        → let (ended, t) = on_request provider request p s in
          Solo m p t.world (streams_after p streams ended)
    unfolding on_request
    request-Solo (StreamMessageRequest.arbitration update) m p s streams mir e =
        arbitration-Solo update m p s streams mir e
    request-Solo (StreamMessageRequest.packet packet) m p s streams mir e =
        packet-Solo packet m p s streams mir e
    request-Solo _ m p s streams mir e =
        answer-Solo m p s.world streams mir unsupported_error not_supported e

    serve-Solo :
        (requests : List StreamMessageRequest) (m : Machine) (p : ℕ) (s : P4RtServer S)
        (streams : List ℕ)
        → Mirror m p s.world streams
        → Elem p streams
        → Solo m p
            (serve_requests provider p requests s).1.world
            (streams_left p streams (serve_requests provider p requests s).0)
    unfolding serve_requests
    serve-Solo [] m p s streams mir e = disconnect-Solo m p s.world streams mir e
    serve-Solo (request ∷ rest) m p s streams mir e =
        let now = request-Solo request m p s streams mir e in
        elim (Option-cases (on_request provider request p s).0) [
          | inl h ↦
              rw (h, serve_requests)
                (Solo-trans (rw h at now) (λ k next.
                  serve-Solo rest k p (on_request provider request p s).1 streams next e))
          | inr (ended, h) ↦ rw (h, serve_requests) (rw h at now)
        ]

    -- From a machine with a free lock that mirrors the server's state, a whole call of
    -- StreamChannel with a new connection object is a run in which only its thread makes steps;
    -- behind it the lock is free, and the guarded state, the streams and all messages written are
    -- those that the call leaves.
    pub stream_channel-Solo :
        (requests : List StreamMessageRequest) (m : Machine) (p : ℕ) (s : P4RtServer S)
        (streams : List ℕ)
        → Mirror m p s.world streams
        → ¬ Elem p streams
        → Solo m p
            (stream_channel provider p requests s).1.world
            (streams_left p (p ∷ streams) (stream_channel provider p requests s).0)
    unfolding stream_channel
    stream_channel-Solo requests m p s streams mir n =
        Solo-trans (open-Solo m p s.world streams mir n) (λ k next.
          serve-Solo requests k p (record s { world = set_object p new_connection s.world })
            (p ∷ streams) next (inl refl))
