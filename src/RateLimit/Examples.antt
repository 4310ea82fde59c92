-- ===== src/RateLimit/Examples.antt =====
-- The limits at a few calls of two clients.
use critalarm_server.Prelude.{ℕ, ◌≤◌, ◌≡◌, String, List, [], ◌∷◌, arith, length}
use critalarm_server.RateLimit.Rolling.{answers, fresh_limit}
use critalarm_server.RateLimit.Rolling.Refinement.{spec_answers, answers-spec}
use critalarm_server.RateLimit.Daily.{use_all, new_daily}
use critalarm_server.RateLimit.Daily.Passes.{passes, passes_bounded}

-- Two calls a minute: the third within the minute waits for the first to leave the window.
abbrev calls : List (ℕ × String)
calls =
    (100, "10.0.0.1")
    ∷ (110, "10.0.0.1")
    ∷ (120, "10.0.0.2")
    ∷ (130, "10.0.0.1")
    ∷ (160, "10.0.0.1")
    ∷ []

answers-spec_example : answers (fresh_limit 2 60 10000) calls ≡ spec_answers 2 60 [] calls
answers-spec_example =
    answers-spec 2 60 10000 calls
      (omega arith, (omega arith, (omega arith, (omega arith, (omega arith, tt)))))

passes_bounded_example :
    (passes (new_daily 2 10) calls 0 "10.0.0.1" ≤ 2)
    × (length (use_all (new_daily 2 10) calls).counts ≤ 10)
passes_bounded_example =
    passes_bounded 2 10 calls 0 "10.0.0.1" (omega arith)
      (omega arith, (omega arith, (omega arith, (omega arith, (omega arith, tt)))))
