-- ===== src/Tests/Messages.antt =====
-- Message 7 is a query of one argument, every other message an event.
use minicomps.Prelude.{ℕ, ◌≡◌, refl, some, List, [], ◌∷◌, if◌then◌else◌, ◌==◌}
use minicomps.Prelude
use minicomps.Messaging
use minicomps.Messaging.{
  Signature, message_handler_async_impl, message_handler_event_impl, query, event, Program,
}
use minicomps.Messaging.Casts.{
  Call, publish_async_query, prepend_async_query_filter, subscribe_event, Handlers, publish_async,
  prepend_filter, subscribe, step, run, no_handlers, of_event, found, cast_type, Fits, run-Fits,
}

abbrev signature : Signature
signature = record { result = 1; arguments = 2 ∷ [] }

abbrev program : Program
program = record { declaration = λ m. if m == 7 then query signature else event; uniq = λ m. m }

abbrev published : List (Call program)
published =
    publish_async_query 7 signature refl
    ∷ subscribe_event 8
    ∷ prepend_async_query_filter 7 signature refl
    ∷ []

abbrev handlers : Handlers
handlers = record {
  sync_handlers = [];
  async_handlers =
      (7, message_handler_async_impl signature) ∷ (8, message_handler_event_impl 8) ∷ [];
}

run-published : run program published no_handlers ≡ some handlers
unfolding run step publish_async prepend_filter subscribe Messaging.get_message_id Prelude.find
    Prelude.put
run-published = refl

run-Fits_example :
    Fits program (found program (of_event 8) handlers) (cast_type program (of_event 8))
run-Fits_example =
    run-Fits program published (of_event 8) (λ m n e. e) (tt, (refl, (tt, tt))) refl run-published
