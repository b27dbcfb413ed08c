-- ===== src/Server/System/Steps.antt =====
-- The step relation.
use p4rt_standalone.Prelude.{ℕ, String, Option, List, [], ◌∷◌, Elem, erase_first}
use p4rt_standalone.Proto.{MasterArbitrationUpdate, StreamError, StreamMessageResponse, Uint128Api}
use p4rt_standalone.Controller.State.{
  World, SdnConnection, new_connection, set_object, send_stream_message_response,
}
use p4rt_standalone.Controller.Arbitration.{handle_arbitration_update, disconnect}
use p4rt_standalone.Controller.Requests.{send_stream_message_to_primary}
use p4rt_standalone.Server.Provider.{new_server}

-- `streams` holds the addresses of the connection objects that are there: each call of
-- `StreamChannel` owns one from its start to its end. Behind the end the object's contents stay, as
-- nothing says what a pointer to it then reads.
pub record System : Type 0 where
  pub world : World
  pub streams : List ℕ

-- A server that has just been made, at any contents of the memory.
abbrev pub start : (ℕ → SdnConnection) → System
start memory = record { world = (new_server memory tt).world; streams = [] }

abbrev pub at_world : System → World → System
at_world s w = record s { world = w }

module _ ⦃api : Uint128Api⦄ where
  pub data Step (s : System) : System → Type 0 where
    open_stream :
        (p : ℕ)
        → ¬ Elem p s.streams
        → Step s (record { world = set_object p new_connection s.world; streams = p ∷ s.streams })
    arbitrate :
        (update : MasterArbitrationUpdate) (p : ℕ)
        → Elem p s.streams
        → Step s (at_world s (handle_arbitration_update update p s.world).1)
    answer :
        (p : ℕ) (e : StreamError)
        → Elem p s.streams
        → Step s
            (at_world s (send_stream_message_response p (StreamMessageResponse.error e) s.world))
    message_primary :
        (role : Option String) (response : StreamMessageResponse)
        → Step s (at_world s (send_stream_message_to_primary role response s.world).1)
    end_stream :
        (p : ℕ)
        → Elem p s.streams
        → Step s (record { world = disconnect p s.world; streams = erase_first p s.streams })

  pub data Reach (s : System) : System → Type 0 where
    here : Reach s s
    next : {t u : System} → Reach s t → Step t u → Reach s u
