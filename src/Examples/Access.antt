-- ===== src/Examples/Access.antt =====
-- The admission to the HTTP API at concrete calls: src/api/rate_limiter.py.
use ai_pmo_copilot.Common.{ℕ, String, ◌≡◌, refl, ◌≤◌, List, [], ◌∷◌, Ensures, leb, ltb, arith, ◌&&◌}
use ai_pmo_copilot.Access.RateLimiter.{Limits, allow}
use ai_pmo_copilot.Access.RateLimiter.Window.{
  calls, fresh_observed, admitted_in, recent_count, calls-window_bound, allow-answer,
}
use ai_pmo_copilot.Access.LoginGuard.{Policy, new_guard, check, record_success, record_failure}
use ai_pmo_copilot.Access.LoginGuard.Lockout.{
  SameFor, fail_at, is_locked_out, check-fail_at, operations_frame,
}

abbrev limits : Limits
limits = record { max_requests = 2; window = 60 }

abbrev four_calls : List (String × ℕ)
four_calls = ("bff", 0) ∷ ("bff", 10) ∷ ("cron", 10) ∷ ("bff", 20) ∷ []

-- The third call of one identifier within the window is refused.
third_refused : (calls limits four_calls fresh_observed).admitted "bff" ≡ 10 ∷ 0 ∷ []
unfolding calls allow
third_refused = refl

calls-window_bound_example :
    admitted_in 60 20 ((calls limits four_calls fresh_observed).admitted "bff") ≤ 2
calls-window_bound_example =
    calls-window_bound limits four_calls 0 "bff" 20
      (omega arith, (omega arith, (omega arith, (omega arith, tt))))

allow-answer_example :
    (allow limits 65 "bff" (calls limits four_calls fresh_observed).hits).0
    ≡ ltb (recent_count 60 65 ((calls limits four_calls fresh_observed).admitted "bff")) 2
allow-answer_example =
    allow-answer limits four_calls 0 65 "bff"
      (omega arith, (omega arith, (omega arith, (omega arith, tt)))) (omega arith)

abbrev policy : Policy
policy = record { max_attempts = 3; window = 900; lockout = 600 }

abbrev three_failures : List ℕ
three_failures = 1 ∷ 5 ∷ 9 ∷ []

check-fail_at_example :
    is_locked_out (
      check 100 "acme:ana"
        (fail_at policy "acme:ana" three_failures (record_success "acme:ana" new_guard)))
    ≡ (leb 3 3 && ltb 100 609)
check-fail_at_example =
    check-fail_at policy "acme:ana" 1 100 three_failures new_guard (omega arith)
      (omega arith, (omega arith, (omega arith, omega arith)))

operations_frame_example :
    SameFor "acme:rui" (record_failure policy 7 "acme:ana" new_guard) new_guard
    × SameFor "acme:rui" (record_success "acme:ana" new_guard) new_guard
    × Ensures (λ left. SameFor "acme:rui" left new_guard) (check 7 "acme:ana" new_guard)
operations_frame_example = operations_frame policy 7 "acme:ana" "acme:rui" new_guard refl
