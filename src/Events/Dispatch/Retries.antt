-- ===== src/Events/Dispatch/Retries.antt =====
-- How often a handler is called, and what becomes of its failure.
use ai_pmo_copilot.Common.{
  ℕ, zero, suc, ◌<◌, String, ◌≡◌, refl, sym, inl, inr, ◌⊎◌, Option, none, some, Option-cases, arith,
  [], ◌∷◌, ◌++◌, truncate,
}
use mathlib.Core.Path.{subst}
use ai_pmo_copilot.Events.Dispatch.{
  DomainEvent, Backbone, Handler, attempt, dispatch_to_handler, record_dead_letter,
}

module _ {P W : Type 0} where
  -- `n` calls of the handler in a row that raise, the last of them with `error`: from a state to the
  -- state after them.
  pub data Failing (event : DomainEvent P) (handler : Handler P W)
      : ℕ → Option String → Backbone P W → Option String → Backbone P W → Type 0 where
    no_call : (error : Option String) (b : Backbone P W) → Failing event handler 0 error b error b
    failed :
        (n : ℕ) (before last : Option String) (exc : String) (b after end : Backbone P W)
        → handler event b ≡ (some exc, after)
        → Failing event handler n (some exc) after last end
        → Failing event handler (suc n) before b last end

  -- The state after a dead letter of the event, with the message of the last error.
  abbrev pub with_dead_letter : DomainEvent P → String → Backbone P W → Backbone P W
  with_dead_letter event message b = record b {
    dead_letters =
        b.dead_letters
        ++ record {
          event_id = event.event_id;
          organization_id = event.organization_id;
          correlation_id = event.correlation_id;
          attempts = 3;
          last_error = truncate 2000 message;
        }
          ∷ [];
  }

  -- From a state to the state after: the handler returned within `left` calls, or it raised `left`
  -- times and a dead letter with the last message was added.
  abbrev pub Delivered :
      ℕ → DomainEvent P → Handler P W → Option String → Backbone P W → Backbone P W → Type 0
  Delivered left event handler before b final =
      ((n : ℕ) × (last : Option String) × (end : Backbone P W) × (n < left)
        × Failing event handler n before b last end
        × (handler event end ≡ (none, final)))
      ⊎ ((message : String) × (end : Backbone P W) × Failing event handler left before b
            (some message) end
          × (final ≡ with_dead_letter event message end))

  pair_eq : (r : Option String × Backbone P W) (o : Option String) → r.0 ≡ o → r ≡ (o, r.1)
  pair_eq (o, b) p e = cc

  -- A call that raises, before what follows it.
  again :
      (left : ℕ) (event : DomainEvent P) (handler : Handler P W) (before : Option String)
      (exc : String) (b final : Backbone P W)
      → handler event b ≡ (some exc, (handler event b).1)
      → Delivered left event handler (some exc) (handler event b).1 final
      → Delivered (suc left) event handler before b final
  again left event handler before exc b final e (inl (n, last, end, small, calls, returned)) = inl (
    suc n,
    last,
    end,
    ground arith,
    failed n before last exc b (handler event b).1 end e calls,
    returned,
  )
  again left event handler before exc b final e (inr (message, end, calls, dead)) =
      inr (
        message,
        end,
        failed left before (some message) exc b (handler event b).1 end e calls,
        dead,
      )

  attempt-returned :
      (left : ℕ) (event : DomainEvent P) (handler : Handler P W) (before : Option String)
      (b : Backbone P W)
      → (handler event b).0 ≡ none
      → attempt (suc left) event handler before b ≡ (handler event b).1
  unfolding attempt
  attempt-returned left event handler before b e = rw (e, attempt)

  attempt-raised :
      (left : ℕ) (event : DomainEvent P) (handler : Handler P W) (before : Option String)
      (exc : String) (b : Backbone P W)
      → (handler event b).0 ≡ some exc
      → attempt (suc left) event handler before b
        ≡ attempt left event handler (some exc) (handler event b).1
  unfolding attempt
  attempt-raised left event handler before exc b e = rw (e, attempt)

  -- With a call left, or an error before the dead letter.
  attempt-Delivered :
      (left : ℕ) (event : DomainEvent P) (handler : Handler P W) (before : Option String)
      (b : Backbone P W)
      → (0 < left) ⊎ ((message : String) × (before ≡ some message))
      → Delivered left event handler before b (attempt left event handler before b)
  unfolding attempt record_dead_letter
  attempt-Delivered zero event handler before b (inl h) = absurd (omega arith)
  attempt-Delivered zero event handler before b (inr (message, e)) =
      rw e (inr (message, b, no_call (some message) b, refl))
  attempt-Delivered (suc left) event handler before b h = elim (Option-cases (handler event b).0) [
    | inl returned ↦
        subst (Delivered (suc left) event handler before b)
          (sym (attempt-returned left event handler before b returned))
          (inl
            (0, before, b, ground arith, no_call before b, pair_eq (handler event b) none returned))
    | inr (exc, raised) ↦
        subst (Delivered (suc left) event handler before b)
          (sym (attempt-raised left event handler before exc b raised))
          (again left event handler before exc b _ (pair_eq (handler event b) (some exc) raised)
            (attempt-Delivered left event handler (some exc) (handler event b).1 (inr (exc, refl))))
  ]

  -- Whatever a handler does: it is called until it returns, at most three times, and then the state is
  -- the one that it left; or it raises three times, and the state is the one that the third call left with
  -- one dead letter more: of the event, its organization and its correlation, with three attempts and
  -- the first 2000 characters of the third message.
  pub dispatch_to_handler-Delivered :
      (event : DomainEvent P) (handler : Handler P W) (b : Backbone P W)
      → Delivered 3 event handler none b (dispatch_to_handler event handler b)
  unfolding dispatch_to_handler
  dispatch_to_handler-Delivered event handler b =
      attempt-Delivered 3 event handler none b (inl (omega arith))
