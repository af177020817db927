-- ===== src/Api/Frames/Tests.antt =====
-- The frames of a turn, with a codec that prints every object alike.
use llm_inference_logger.Prelude.{
  ◌≡◌, refl, Text, codes, List, [], map, ◌∷◌, true, false, arith, some, none,
}
use llm_inference_logger.Domain.Json.{Json}
use llm_inference_logger.Providers.Base.{finished}
use llm_inference_logger.Chat.Turn.{delta, ChatStreamEvent}
use llm_inference_logger.Chat.Turn.Tests.{service, ask, around, site}
use llm_inference_logger.Api.Frames.{chat_stream, to_sse, format_sse}
use llm_inference_logger.Api.Frames.RoundTrip.{ReadsBack, chat_stream-ReadsBack}
use llm_inference_logger.Api.Sse.{
  Relay, put, finish, receive, Reach, open_relay, next, here, put_step, finish_step, receive_step,
}
use llm_inference_logger.Api.Frames.Relayed.{HasRead, relayed-HasRead}

abbrev braces : Json → Text
braces j = codes "{}"

one_frame : to_sse braces (delta (codes "hi")) ≡ codes "event: chunk\ndata: {}\n\n"
unfolding to_sse format_sse
one_frame = refl

chat_stream-ReadsBack_example :
    ReadsBack braces
      (λ j. (refl, (refl, tt)))
      service
      ask
      (around finished)
      site
      (chat_stream braces service ask (around finished) site).0
chat_stream-ReadsBack_example =
    chat_stream-ReadsBack braces (λ j. (refl, (refl, tt))) service ask (around finished) site

abbrev hi : List ChatStreamEvent
hi = delta (codes "hi") ∷ []

-- A response that has ended after one frame.
abbrev ended : Relay Text
ended = record {
  source = [];
  queue = [];
  sent = map (to_sse braces) hi;
  producer_done = true;
  cancelled = false;
  closed = true;
}

one_frame_relayed : Reach (open_relay (map (to_sse braces) hi)) ended
unfolding put finish receive
one_frame_relayed =
    next
      (next
        (next
          (next here
            (put_step (to_sse braces (delta (codes "hi"))) [] refl refl (omega arith) refl))
          (finish_step refl refl refl))
        (receive_step (some (to_sse braces (delta (codes "hi")))) (none ∷ []) refl refl refl))
      (receive_step none [] refl refl refl)

relayed-HasRead_example :
    (got : List ChatStreamEvent) × (lost : List ChatStreamEvent) × HasRead braces
      (λ j. (refl, (refl, tt)))
      hi
      ended
      got
      lost
relayed-HasRead_example =
    relayed-HasRead braces (λ j. (refl, (refl, tt))) hi ended one_frame_relayed
