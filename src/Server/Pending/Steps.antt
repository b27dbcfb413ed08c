-- ===== src/Server/Pending/Steps.antt =====
-- The step relation of requests that are tested and, later, performed.
use mathlib.Core.Option
use p4rt_standalone.Prelude.{
  ℕ, String, ◌≡◌, true, ◌&&◌, Bool, Option, List, ◌∷◌, ◌++◌, Elem, has_value,
}
use p4rt_standalone.Status.Code.{is_ok}
use p4rt_standalone.Proto.{WriteRequest, SetForwardingPipelineConfigRequest, PacketOut, Uint128Api}
use p4rt_standalone.Controller.State.{World, past}
use p4rt_standalone.Controller.Invariant.Defs.{role_at, id_at}
use p4rt_standalone.Controller.Arbitration.{of_proto, role_of_name}
use p4rt_standalone.Controller.Requests.{allow_request, allow_write_request, allow_pipeline_request}
use p4rt_standalone.Server.Provider.{SwitchProvider}
use p4rt_standalone.Server.Rpc.{is_supported}
use p4rt_standalone.Server.System.Steps.{System, Step}

-- A request that passed the tests; a packet-out with the data of its connection.
pub data Task : Type 0 where
  writing : WriteRequest → Task
  configuring : SetForwardingPipelineConfigRequest → Task
  sending : PacketOut → Option String → Option ℕ → Task

-- `pending` has the tasks whose calls have not reached the provider yet, and `performed` those that
-- have, the latest first.
pub record Busy (S : Type 0) : Type 0 where
  pub system : System
  pub switch : S
  pub pending : List Task
  pub performed : List Task

module _ ⦃uint128 : Uint128Api⦄ where
  -- The role and the election ID of a task.
  abbrev pub ticket : Task → Option String × Option ℕ
  ticket (writing request) = (role_of_name request.role, Option.map of_proto request.election_id)
  ticket (configuring request) =
      (role_of_name request.role, Option.map of_proto request.election_id)
  ticket (sending packet role id) = (role, id)

  -- The ID is the highest one that the role has had.
  abbrev pub Current : Task → World → Type 0
  Current task w = (has_value (ticket task).1 ≡ true) × ((ticket task).1 ≡ past w (ticket task).0)

  -- The tests before the call of the provider: `AllowRequest` in `Write` and in the case `kPacket` of
  -- `StreamChannel`, and in `SetForwardingPipelineConfig` also that of the action.
  abbrev pub is_admitted : Task → World → Bool
  is_admitted (writing request) w = is_ok (allow_write_request request w)
  is_admitted (configuring request) w =
      is_ok (allow_pipeline_request request w) && is_supported request.action
  is_admitted (sending packet role id) w = is_ok (allow_request role id w)

  module _ {S : Type 0} (provider : SwitchProvider S) where
    -- The state behind the call of the provider, in the same three functions; after an exception, at
    -- which the process ends, a run just has no further steps.
    abbrev pub perform : Task → S → S
    perform (writing request) s = (provider.do_write request s).1
    perform (configuring request) s = (provider.set_forwarding_pipeline_config request.config s).1
    perform (sending packet role id) s = (provider.send_packet_out packet s).1

    abbrev pub admitted_to : Busy S → Task → Busy S
    admitted_to b task = record b { pending = task ∷ b.pending }

    abbrev pub performed_to : Busy S → Task → List Task → Busy S
    performed_to b task rest = record b {
      switch = perform task b.switch;
      pending = rest;
      performed = task ∷ b.performed;
    }

    -- Streams go on meanwhile; which of the pending tasks comes next is open.
    pub data Move (b : Busy S) : Busy S → Type 0 where
      stream : {t : System} → Step b.system t → Move b (record b { system = t })
      admit_write :
          (request : WriteRequest)
          → is_admitted (writing request) b.system.world ≡ true
          → Move b (admitted_to b (writing request))
      admit_config :
          (request : SetForwardingPipelineConfigRequest)
          → is_admitted (configuring request) b.system.world ≡ true
          → Move b (admitted_to b (configuring request))
      admit_packet :
          (packet : PacketOut) (p : ℕ)
          → Elem p b.system.streams
          → is_admitted
              (sending packet (role_at b.system.world p) (id_at b.system.world p))
              b.system.world
            ≡ true
          → Move b
              (admitted_to b (sending packet (role_at b.system.world p) (id_at b.system.world p)))
      call :
          (before : List Task) (task : Task) (after : List Task)
          → b.pending ≡ before ++ task ∷ after
          → Move b (performed_to b task (before ++ after))

    pub data Moves (b : Busy S) : Busy S → Type 0 where
      stay : Moves b b
      move : {c d : Busy S} → Moves b c → Move c d → Moves b d
