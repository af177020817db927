-- ===== src/Pipeline/Tests.antt =====
-- A call of a provider, on its way to the log.
use llm_inference_logger.Prelude.{refl, true, false, none, [], ◌∷◌, arith, codes}
use llm_inference_logger.Core.Errors.{Exn}
use llm_inference_logger.Db.Tables.{empty_db, log_types_ok, find_raw, find_log, to_row}
use llm_inference_logger.Providers.Base.{ChatRequest, raised}
use llm_inference_logger.Instrumentation.Wrapper.{
  Wrapped, Call, build_event, stream_chat, last_user_text,
}
use llm_inference_logger.Instrumentation.Wrapper.Once.{Publishable}
use llm_inference_logger.Events.Memory.{empty_bus, publish_all}
use llm_inference_logger.Events.Samples.{packets, packets-IsLawful, Packet}
use llm_inference_logger.Pipeline.{traced-call-Logged, worker_at, Logged}
use llm_inference_logger.Instrumentation.Redaction.{preview, redact, clip}

abbrev wrapped : Wrapped
wrapped = record {
  inner_name = "mock";
  conversation_id = none;
  streamed = true;
  redactor = record { max_chars = 6; enabled = false; rules = [] };
}

abbrev request : ChatRequest
request = record { messages = []; model = "mock-small"; max_output_tokens = 16; system = none }

-- A call that its client left after one chunk.
abbrev call : Call
call = record {
  event_id = 9;
  started_at = 100;
  start = 1000;
  arrivals =
      record {
        chunk = record {
          delta_text = codes "hello world";
          finish_reason = none;
          usage = none;
          metadata = [];
        };
        clock = 4000;
      }
      ∷ [];
  ending = raised Exn.cancelled;
  completed_at = 104;
  stop = 6000;
  cancelled_in_publish = false;
}

call-Publishable : Publishable wrapped request call
call-Publishable = record {
  named = (omega arith, omega arith);
  model = (omega arith, omega arith);
  forward = omega arith;
  ends_well = tt;
  arrivals = (record { input = refl; output = refl; reason = refl }, tt);
}

traced-call-Logged_example :
    Logged packets 7 5
      (worker_at packets
        (empty_db Packet)
        3
        (publish_all packets (stream_chat wrapped request call).published (empty_bus packets)))
      9
      (build_event wrapped request call)
unfolding log_types_ok to_row build_event find_log find_raw preview last_user_text redact clip
traced-call-Logged_example =
    traced-call-Logged packets packets-IsLawful wrapped request call (empty_db Packet) 7 3 4
      call-Publishable (omega arith)
      (record { types = refl; fks = refl; new_log = refl; new_raw = refl })
