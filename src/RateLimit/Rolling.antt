-- ===== src/RateLimit/Rolling.antt =====
-- src/rate-limit.ts: `RollingLimit`. Times are whole seconds; the code's `at > now - windowS` and
-- `now - sweptAt >= windowS` are written with a sum, since a difference on ℕ stops at 0.
pub mod Refinement
use critalarm_server.Prelude.{
  ℕ, ◌+◌, ◌==◌, ltb, leb, if◌then◌else◌, Bool, true, false, not, ◌&&◌, ◌||◌, String, Option, none,
  some, List, [], ◌∷◌, ◌++◌, length, select, delete_where, map_get, map_set,
}

-- `this.hits.get(key) ?? []`
abbrev pub times_of : Option (List ℕ) → List ℕ
times_of none = []
times_of (some ts) = ts

pub record RollingLimit : Type 0 where
  pub limit : ℕ
  pub window_s : ℕ
  pub sweep_above : ℕ
  pub hits : List (String × List ℕ)
  pub swept_at : ℕ

abbrev pub is_live : ℕ → ℕ → ℕ → Bool
is_live window_s now at = ltb now (at + window_s)

unfoldable pub live : RollingLimit → String → ℕ → List ℕ
live r key now = select (is_live r.window_s now) (times_of (map_get key r.hits))

-- times.some((at) => at > now - this.windowS)
unfoldable pub some_live : ℕ → ℕ → List ℕ → Bool
some_live window_s now [] = false
some_live window_s now (t ∷ ts) = is_live window_s now t || some_live window_s now ts

unfoldable pub sweep_due : RollingLimit → ℕ → Bool
sweep_due r now =
    leb (r.swept_at + r.window_s) now
    || (ltb r.sweep_above (length r.hits) && not (now == r.swept_at))

unfoldable pub sweep : RollingLimit → ℕ → RollingLimit
unfolding sweep_due some_live
sweep r now =
    if sweep_due r now
    then record r {
      swept_at = now;
      hits = delete_where (λ e. not (some_live r.window_s now e.1)) r.hits;
    }
    else r

unfoldable pub allowed : RollingLimit → ℕ → String → Bool × RollingLimit
unfolding sweep live
allowed r now key = let r' = sweep r now in (ltb (length (live r' key now)) r'.limit, r')

-- `record`: the times that are no longer live are dropped as the call is counted.
unfoldable pub record_hit : RollingLimit → ℕ → String → RollingLimit
unfolding live
record_hit r now key = record r { hits = map_set key (live r key now ++ now ∷ []) r.hits }

unfoldable pub allow : RollingLimit → ℕ → String → Bool × RollingLimit
unfolding allowed record_hit
allow r now key =
    let (fits, r') = allowed r now key in
    if fits then (true, record_hit r' now key) else (false, r')

-- A client's calls of `allow`, each at what the clock reads.
unfoldable pub answers : RollingLimit → List (ℕ × String) → List Bool
unfolding allow
answers r [] = []
answers r ((now, key) ∷ calls) = let (fits, r') = allow r now key in fits ∷ answers r' calls

-- `new RollingLimit(clock, limit, windowS, sweepAbove)`
abbrev pub fresh_limit : ℕ → ℕ → ℕ → RollingLimit
fresh_limit limit window_s sweep_above = record {
  limit = limit;
  window_s = window_s;
  sweep_above = sweep_above;
  hits = [];
  swept_at = 0;
}
