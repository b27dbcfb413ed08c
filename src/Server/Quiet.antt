-- ===== src/Server/Quiet.antt =====
-- Streams without arbitration.
use p4rt_standalone.Prelude.{ℕ, ◌≡◌, refl, ap, ◌∙◌, none, List, [], ◌∷◌, same_number_iff}
use p4rt_standalone.Status.Code.{StatusApi, grpc_ok}
use p4rt_standalone.Proto.{StreamMessageRequest, Uint128Api}
use p4rt_standalone.Controller.State.{SdnConnection, new_connection, set_object}
use p4rt_standalone.Controller.Arbitration.{disconnect}
use p4rt_standalone.Controller.Requests.{allow_request}
use p4rt_standalone.Server.Provider.{SwitchProvider, P4RtServer, replied}
use p4rt_standalone.Server.Stream.{on_packet, on_request, serve_requests, stream_channel}

-- A request that is no arbitration.
abbrev IsQuiet : StreamMessageRequest → Type 0
IsQuiet (StreamMessageRequest.arbitration _) = ⊥
IsQuiet _ = Unit {0}

abbrev AllQuiet : List StreamMessageRequest → Type 0
AllQuiet [] = Unit {0}
AllQuiet (r ∷ rs) = IsQuiet r × AllQuiet rs

module _ {S : Type 0} (provider : SwitchProvider S) ⦃uint128 : Uint128Api⦄ ⦃api : StatusApi⦄ where
  -- What a connection that never arbitrated leaves alone.
  record Untouched (p : ℕ) (s t : P4RtServer S) : Type 0 where
    switch : t.switch ≡ s.switch
    manager : t.world.manager ≡ s.world.manager
    object : t.world.objects p ≡ new_connection

  quiet_request :
      (request : StreamMessageRequest) (p : ℕ) (s : P4RtServer S)
      → IsQuiet request
      → s.world.objects p ≡ new_connection
      → ((on_request provider request p s).0 ≡ none)
        × Untouched p s (on_request provider request p s).1
  unfolding on_request on_packet allow_request
  quiet_request (StreamMessageRequest.arbitration _) p s q n = absurd q
  quiet_request (StreamMessageRequest.packet packet) p s q n =
      rw (ap (λ (c : SdnConnection). c.election_id) n)
        (refl, record { switch = refl; manager = refl; object = n })
  quiet_request _ p s q n = (refl, record { switch = refl; manager = refl; object = n })

  quiet_serve :
      (p : ℕ) (requests : List StreamMessageRequest) (s : P4RtServer S)
      → AllQuiet requests
      → s.world.objects p ≡ new_connection
      → ((serve_requests provider p requests s).0 ≡ replied grpc_ok)
        × Untouched p s (serve_requests provider p requests s).1
  unfolding serve_requests disconnect
  quiet_serve p [] s q n = (
    refl,
    rw (ap (λ (c : SdnConnection). c.initialized) n)
        (record { switch = refl; manager = refl; object = n }),
  )
  quiet_serve p (request ∷ rest) s q n =
      let (e, u) = quiet_request request p s q.0 n in
      let (f, t) = quiet_serve p rest (on_request provider request p s).1 q.1 u.object in
      rw (e, serve_requests)
        (
          f,
          record {
            switch = t.switch ∙ u.switch;
            manager = t.manager ∙ u.manager;
            object = t.object;
          },
        )

  -- A controller that never sends an arbitration update reaches neither the switch nor the manager
  -- over its stream, and its call ends with OK.
  pub quiet_stream_channel :
      (p : ℕ) (requests : List StreamMessageRequest) (s : P4RtServer S)
      → AllQuiet requests
      → ((stream_channel provider p requests s).0 ≡ replied grpc_ok)
        × ((stream_channel provider p requests s).1.switch ≡ s.switch)
        × ((stream_channel provider p requests s).1.world.manager ≡ s.world.manager)
  unfolding stream_channel
  quiet_stream_channel p requests s q =
      let (e, u) =
        quiet_serve p requests (record s { world = set_object p new_connection s.world }) q
          (rw ((same_number_iff p p).1 refl) refl) in
      (e, u.switch, u.manager)
