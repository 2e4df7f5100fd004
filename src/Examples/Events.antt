-- ===== src/Examples/Events.antt =====
-- The event backbone at concrete handlers and workflows: src/services/events/ and src/workflows/.
use ai_pmo_copilot.Common.{
  ℕ, ltb, suc, String, ◌≡◌, refl, none, some, List, [], ◌∷◌, Result, ok, err, IsElem, str_eq,
  if◌then◌else◌,
}
use ai_pmo_copilot.Events.Dispatch.{
  DomainEvent, Backbone, Handler, Handlers, dispatch_to_handler, publish,
}
use ai_pmo_copilot.Events.Dispatch.Retries.{Delivered, dispatch_to_handler-Delivered}
use ai_pmo_copilot.Events.Dispatch.Durability.{Grows, publish-durable}
use ai_pmo_copilot.Events.Workflow.{WorkflowContext, Raised, run}
use ai_pmo_copilot.Events.Workflow.Outcome.{Recorded, run-Recorded}
use ai_pmo_copilot.Events.Workflow.Rows.{OthersKept}
use ai_pmo_copilot.Events.Workflow.Steps.{Stepped}

abbrev created : DomainEvent String
created = record {
  event_id = "e1";
  event_type = "program.created";
  correlation_id = "c1";
  timestamp = 5;
  organization_id = 1;
  origin = "domain_service";
  payload_version = 1;
  payload = "{}";
}

abbrev idle : Backbone String ℕ
idle = record { events = []; dead_letters = []; world = 0 }

-- counts its calls, and raises in the first two
abbrev third_time : Handler String ℕ
third_time event b = (if ltb b.world 2 then some "down" else none, record b { world = suc b.world })

-- always raises
abbrev broken : Handler String ℕ
broken event b = (some "down", record b { world = suc b.world })

third_call_returns : (dispatch_to_handler created third_time idle).dead_letters ≡ []
unfolding dispatch_to_handler
third_call_returns = refl

broken_is_called_three_times : (dispatch_to_handler created broken idle).world ≡ 3
unfolding dispatch_to_handler
broken_is_called_three_times = refl

dispatch_to_handler-Delivered_example :
    Delivered 3 created broken none idle (dispatch_to_handler created broken idle)
dispatch_to_handler-Delivered_example = dispatch_to_handler-Delivered created broken idle

abbrev handlers : Handlers String ℕ
handlers key = if str_eq key "program.created" then broken ∷ third_time ∷ [] else []

publish-durable_example :
    IsElem
      (publish handlers "e1" 5 "program.created" "{}" 1 "c1" "domain_service" idle).0
      (publish handlers "e1" 5 "program.created" "{}" 1 "c1" "domain_service" idle).1.events
    × Grows idle (publish handlers "e1" 5 "program.created" "{}" 1 "c1" "domain_service" idle).1
publish-durable_example =
    publish-durable handlers "e1" "program.created" "c1" "domain_service" 5 1 "{}" idle
      (λ event b e m. m, (λ event b e m. m, tt))

abbrev steps : List (WorkflowContext String → ℕ → Result Raised (WorkflowContext String) × ℕ)
steps =
    (λ context n. (ok context, suc n))
    ∷ (λ context n. (err (record { type_name = "ValueError"; message = "no document" }), suc n))
    ∷ (λ context n. (ok context, suc n))
    ∷ []

run-Recorded_example :
    (stepped : Result Raised (WorkflowContext String)) × Stepped steps
      (record { correlation_id = "c1"; organization_id = 1; payload = created.payload })
      0
      stepped
      (run 7 9 "document_indexed" steps created ([], 0)).2
    × Recorded "e1" "document_indexed" 7 9 stepped
        (run 7 9 "document_indexed" steps created ([], 0)).0
        (run 7 9 "document_indexed" steps created ([], 0)).1
    × OthersKept "e1" "document_indexed" [] (run 7 9 "document_indexed" steps created ([], 0)).1
run-Recorded_example = run-Recorded 7 9 "document_indexed" steps created [] 0
