-- ===== src/Events/Dispatch.antt =====
-- src/services/events/dispatcher.py and in_process_publisher.py. A handler acts on the whole state of
-- the process, since a handler may publish too; it returns, or raises with a message (`str(exc)`).
pub mod Retries
pub mod Durability
use ai_pmo_copilot.Common.{
  ℕ, zero, suc, String, Option, none, some, List, [], ◌∷◌, ◌++◌, str_eq, if◌then◌else◌, truncate,
}

-- `DomainEvent`; `P` is the payload's type.
pub record DomainEvent (P : Type 0) : Type 0 where
  pub event_id : String
  pub event_type : String
  pub correlation_id : String
  pub timestamp : ℕ
  pub organization_id : ℕ
  pub origin : String
  pub payload_version : ℕ
  pub payload : P

pub record DeadLetterEvent : Type 0 where
  pub event_id : String
  pub organization_id : ℕ
  pub correlation_id : String
  pub attempts : ℕ
  pub last_error : String

-- The tables `events` and `dead_letter_events`, and all else that handlers act on.
pub record Backbone (P W : Type 0) : Type 0 where
  pub events : List (DomainEvent P)
  pub dead_letters : List DeadLetterEvent
  pub world : W

abbrev pub max_attempts : ℕ
max_attempts = 3

abbrev pub current_payload_version : ℕ
current_payload_version = 1

-- `str(None)` before the first failure, which `max_attempts` excludes
abbrev pub error_text : Option String → String
error_text none = "None"
error_text (some message) = message

-- The state that a handler leaves, and the message of what it raised.
abbrev pub Handler : Type 0 → Type 0 → Type 0
Handler P W = DomainEvent P → Backbone P W → Option String × Backbone P W

-- `_handlers: defaultdict(list)`
abbrev pub Handlers : Type 0 → Type 0 → Type 0
Handlers P W = String → List (Handler P W)

module _ {P W : Type 0} where
  unfoldable pub record_dead_letter :
      DomainEvent P → ℕ → Option String → Backbone P W → Backbone P W
  record_dead_letter event attempts error b = record b {
    dead_letters =
        b.dead_letters
        ++ record {
          event_id = event.event_id;
          organization_id = event.organization_id;
          correlation_id = event.correlation_id;
          attempts = attempts;
          last_error = truncate 2000 (error_text error);
        }
          ∷ [];
  }

  -- `for attempt in range(...)`, with the attempts that are left
  unfoldable pub attempt :
      ℕ → DomainEvent P → Handler P W → Option String → Backbone P W → Backbone P W
  unfolding record_dead_letter
  attempt zero event handler last_error b = record_dead_letter event max_attempts last_error b
  attempt (suc left) event handler last_error b = elim ((handler event b).0) [
    | none ↦ (handler event b).1
    | some exc ↦ attempt left event handler (some exc) (handler event b).1
  ]

  unfoldable pub dispatch_to_handler : DomainEvent P → Handler P W → Backbone P W → Backbone P W
  unfolding attempt
  dispatch_to_handler event handler b = attempt max_attempts event handler none b

  unfoldable pub register : String → Handler P W → Handlers P W → Handlers P W
  register event_type handler handlers key =
      if str_eq event_type key then handlers key ++ handler ∷ [] else handlers key

  unfoldable pub dispatch_to : List (Handler P W) → DomainEvent P → Backbone P W → Backbone P W
  unfolding dispatch_to_handler
  dispatch_to [] event b = b
  dispatch_to (handler ∷ rest) event b =
      dispatch_to rest event (dispatch_to_handler event handler b)

  -- the loop reads the list of handlers once, since no handler registers another
  unfoldable pub dispatch : Handlers P W → DomainEvent P → Backbone P W → Backbone P W
  unfolding dispatch_to
  dispatch handlers event b = dispatch_to (handlers event.event_type) event b

  unfoldable pub persist : DomainEvent P → Backbone P W → Backbone P W
  persist event b = record b { events = b.events ++ event ∷ [] }

  -- `publish`, with the `uuid4` and the time that it reads
  unfoldable pub publish :
      Handlers P W
      → String
      → ℕ
      → String
      → P
      → ℕ
      → String
      → String
      → Backbone P W
      → DomainEvent P × Backbone P W
  unfolding persist dispatch
  publish handlers event_id timestamp event_type payload organization_id correlation_id origin b =
      let event : DomainEvent P = record {
        event_id = event_id;
        event_type = event_type;
        correlation_id = correlation_id;
        timestamp = timestamp;
        organization_id = organization_id;
        origin = origin;
        payload_version = current_payload_version;
        payload = payload;
      } in
      (event, dispatch handlers event (persist event b))
