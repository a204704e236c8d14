-- ===== src/Telemetry/Agent.antt =====
-- app/telemetry.py: `main` and the callbacks of `_build_client`, as steps of two threads: the loop of
-- `main`, and the client's own, which runs the callbacks.
use keekars_pi_vpn.Base.{
  ℕ, Bool, true, false, Option, none, some, List, [], ◌∷◌, ◌++◌, ◌==◌, if◌then◌else◌,
}
use keekars_pi_vpn.Base.Text.{Text, codes}
use keekars_pi_vpn.Base.Dict.{Dict}
use keekars_pi_vpn.Telemetry.Names.{TelemetrySettings}
use keekars_pi_vpn.Telemetry.Sensors.{Platform, Discovery, discovery_payload, topic}
use keekars_pi_vpn.Telemetry.Collect.{Value}

pub data Payload (F : Type 0) : Type 0 where
  discovery : Discovery → Payload F
  state : Dict (Value F) → Payload F
  words : Text → Payload F

pub record Message (F : Type 0) : Type 0 where
  pub topic : Text
  pub payload : Payload F
  pub qos : ℕ
  pub retain : Bool

-- `sent` is what has been published since the connection was made; `pending` is what `on_connect` has
-- still to publish.
pub record Agent (F : Type 0) : Type 0 where
  pub connected : Bool
  pub pending : List (Message F)
  pub sent : List (Message F)

-- A turn of a thread. The payload is what `collect` gives; where it raises, there is none.
pub data Event (F : Type 0) : Type 0 where
  connack : ℕ → Option (Dict (Value F)) → Event F
  callback_goes_on : Event F
  connection_lost : Event F
  loop_turn : Option (Dict (Value F)) → Event F

module _ {F : Type 0} where
  unfoldable pub publish : Message F → Agent F → Agent F
  publish m agent = record agent { sent = agent.sent ++ m ∷ [] }

  abbrev pub publish_next : List (Message F) → Agent F → Agent F
  publish_next [] agent = agent
  publish_next (m ∷ rest) agent = publish m (record agent { pending = rest })

  -- The callbacks of one thread: the connection's end is seen when `on_connect` has returned.
  abbrev pub lose : List (Message F) → Agent F → Agent F
  lose [] agent = record { connected = false; pending = []; sent = [] }
  lose (m ∷ rest) agent = agent

  unfoldable pub publish_all : List (Message F) → Agent F → Agent F
  unfolding publish
  publish_all [] agent = agent
  publish_all (m ∷ ms) agent = publish_all ms (publish m agent)

module _ {F : Type 0} (uname : Platform) (settings : TelemetrySettings)
    (interfaces : List Text) where
  unfoldable pub config_message : Message F
  config_message = record {
    topic = codes "homeassistant/device/" ++ (settings.device_id ++ codes "/config");
    payload = discovery (discovery_payload uname settings interfaces);
    qos = 1;
    retain = true;
  }

  unfoldable pub availability_message : Text → Message F
  availability_message word = record {
    topic = topic settings.device_id (codes "availability");
    payload = words word;
    qos = 1;
    retain = true;
  }

  -- `publish_state`, which catches what `collect` raises
  unfoldable pub state_messages : Option (Dict (Value F)) → List (Message F)
  state_messages none = []
  state_messages (some values) =
      record {
        topic = topic settings.device_id (codes "state");
        payload = state values;
        qos = 0;
        retain = true;
      }
      ∷ []

  -- What `on_connect` publishes, in order
  unfoldable pub connect_messages : Option (Dict (Value F)) → List (Message F)
  unfolding config_message availability_message state_messages
  connect_messages values =
      config_message ∷ availability_message (codes "online") ∷ state_messages values

  -- The client notes the connection, and starts `on_connect`, which returns at once on a refusal.
  unfoldable pub on_connect : ℕ → Option (Dict (Value F)) → Agent F → Agent F
  unfolding connect_messages
  on_connect reason_code values agent =
      let accepted : Agent F = record {
        connected = true;
        pending = connect_messages values;
        sent = [];
      } in
      if reason_code == 0 then accepted else agent

  -- `if client.is_connected(): publish_state(client)`
  unfoldable pub turn : Option (Dict (Value F)) → Agent F → Agent F
  unfolding publish_all state_messages
  turn values agent =
      let published = publish_all (state_messages values) agent in
      if agent.connected then published else agent

  -- A second `connack` comes only after the connection's end.
  unfoldable pub step : Event F → Agent F → Agent F
  unfolding on_connect turn publish
  step (connack reason_code values) agent =
      let next = on_connect reason_code values agent in if agent.connected then agent else next
  step callback_goes_on agent = publish_next agent.pending agent
  step connection_lost agent = lose agent.pending agent
  step (loop_turn values) agent = turn values agent

  -- What `main` does after its loop; without a connection the message waits in the queue and is lost.
  unfoldable pub stop : Agent F → Agent F
  unfolding availability_message publish
  stop agent =
      let published = publish (availability_message (codes "offline")) agent in
      if agent.connected then published else agent
