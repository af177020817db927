-- ===== src/Events/Samples.antt =====
-- A small wire format that meets the assumptions, for tests.
use llm_inference_logger.Prelude.{
  String, refl, Option, none, some, str_eq, Text, codes, if◌then◌else◌,
}
use llm_inference_logger.Events.Wire
use llm_inference_logger.Domain.Json.{Json, lit, str}
use llm_inference_logger.Domain.Event.{InferenceEvent}
use llm_inference_logger.Domain.Uuid.{print_uuid}
use llm_inference_logger.Events.Wire.{Wire}

-- A payload is a dumped event, or something that no schema accepts.
pub data Packet : Type 0 where
  typed : InferenceEvent → Packet
  junk : Option Json → Packet

abbrev pub packet_get : Packet → String → Option Json
packet_get (typed e) key =
    if str_eq key "id"
    then some (str (print_uuid e.id))
    else if str_eq key "event_type"
    then some (lit e.event_type)
    else none
packet_get (junk i) key = if str_eq key "id" then i else none

abbrev pub packet_fields : Packet → Option InferenceEvent
packet_fields (typed e) = some e
packet_fields (junk _) = none

abbrev pub packet_str : Json → Text
packet_str (str t) = t
packet_str _ = codes "?"

abbrev pub packets : Wire
packets = record {
  Payload = Packet;
  get = packet_get;
  dump = typed;
  fields = packet_fields;
  report = λ _. codes "invalid";
  to_str = packet_str;
}

pub packets-IsLawful : Wire.IsLawful packets
packets-IsLawful = record {
  fields-dump = λ e. refl;
  get-id = λ e. refl;
  get-event_type = λ e. refl;
  to_str-str = λ t. refl;
}
