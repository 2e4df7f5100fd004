-- ===== src/Events/Dispatch/Durability.antt =====
-- `publish` writes the event down before any handler runs.
use ai_pmo_copilot.Common.{
  ℕ, zero, suc, String, refl, inl, inr, Option, none, some, List, [], ◌∷◌, ◌++◌, Option-cases, All,
  IsElem, at_head, in_tail,
}
use ai_pmo_copilot.Events.Dispatch.{
  DomainEvent, Backbone, Handler, Handlers, max_attempts, attempt, dispatch_to_handler,
  record_dead_letter, dispatch_to, dispatch, persist, publish,
}

IsElem-append_left : {A : Type 0} (a : A) (xs ys : List A) → IsElem a xs → IsElem a (xs ++ ys)
IsElem-append_left a [] ys h = elim h [ ]
IsElem-append_left a (x ∷ xs) ys (at_head e) = at_head e
IsElem-append_left a (x ∷ xs) ys (in_tail m) = in_tail (IsElem-append_left a xs ys m)

IsElem-append_last : {A : Type 0} (a : A) (xs : List A) → IsElem a (xs ++ a ∷ [])
IsElem-append_last a [] = at_head refl
IsElem-append_last a (x ∷ xs) = in_tail (IsElem-append_last a xs)

module _ {P W : Type 0} where
  -- No event is lost from the table.
  abbrev pub Grows : Backbone P W → Backbone P W → Type 0
  Grows b after = (e : DomainEvent P) → IsElem e b.events → IsElem e after.events

  abbrev pub IsAppending : Handler P W → Type 0
  IsAppending handler = (event : DomainEvent P) (b : Backbone P W) → Grows b (handler event b).1

  attempt-Grows :
      (left : ℕ) (event : DomainEvent P) (handler : Handler P W) (error : Option String)
      (b : Backbone P W)
      → IsAppending handler
      → Grows b (attempt left event handler error b)
  unfolding attempt record_dead_letter
  attempt-Grows zero event handler error b h e m = m
  attempt-Grows (suc left) event handler error b h e m = elim (Option-cases (handler event b).0) [
    | inl returned ↦ rw (returned, attempt) (h event b e m)
    | inr (exc, raised) ↦
        rw (raised, attempt)
          (attempt-Grows left event handler (some exc) (handler event b).1 h e (h event b e m))
  ]

  dispatch_to-Grows :
      (handlers : List (Handler P W)) (event : DomainEvent P) (b : Backbone P W)
      → All IsAppending handlers
      → Grows b (dispatch_to handlers event b)
  unfolding dispatch_to dispatch_to_handler
  dispatch_to-Grows [] event b h e m = m
  dispatch_to-Grows (handler ∷ rest) event b (k, h) e m =
      dispatch_to-Grows rest event (dispatch_to_handler event handler b) h e
        (attempt-Grows max_attempts event handler none b k e m)

  -- If the handlers of an event's type never remove an event, then whatever else they do, and however
  -- often they raise, the published event is in the table `events` afterwards, with all that were
  -- there before.
  pub publish-durable :
      (handlers : Handlers P W) (event_id event_type correlation_id origin : String)
      (timestamp organization_id : ℕ) (payload : P) (b : Backbone P W)
      → All IsAppending (handlers event_type)
      → IsElem
          (publish handlers event_id timestamp event_type payload organization_id correlation_id
            origin b).0
          (publish handlers event_id timestamp event_type payload organization_id correlation_id
            origin b).1.events
        × Grows b
            (publish handlers event_id timestamp event_type payload organization_id correlation_id
              origin b).1
  unfolding publish dispatch persist
  publish-durable handlers event_id event_type correlation_id origin timestamp g payload b h = (
    dispatch_to-Grows (handlers event_type) _ (persist _ b) h _ (IsElem-append_last _ b.events),
    λ e m.
        dispatch_to-Grows (handlers event_type) _ (persist _ b) h e
          (IsElem-append_left e b.events _ m),
  )
