-- ===== src/RateLimit/Daily.antt =====
-- src/rate-limit.ts: `DailyLimit`, a count per key for the current UTC day.
pub mod Passes
use critalarm_server.Prelude.{
  ℕ, suc, ◌+◌, ◌/◌, ◌≤◌, ◌<◌, ◌==◌, ltb, if◌then◌else◌, Bool, true, false, ◌≡◌, refl, ◌∙◌, String,
  str_eq, Option, none, some, inl, inr, List, [], ◌∷◌, arith, length, All, map_get, map_set,
  Bool-cases,
}

-- `day` is none before the first call, where the source holds -1.
pub record DailyLimit : Type 0 where
  pub limit : ℕ
  pub max_keys : ℕ
  pub day : Option ℕ
  pub counts : List (String × ℕ)

abbrev pub day_is : Option ℕ → ℕ → Bool
day_is none n = false
day_is (some d) n = d == n

-- `private roll`
unfoldable pub roll : DailyLimit → ℕ → DailyLimit
roll d now =
    let day = now / 86400 in
    if day_is d.day day then d else record d { day = some day; counts = [] }

abbrev pub admits : DailyLimit → Option ℕ → Bool
admits d none = ltb (length d.counts) d.max_keys
admits d (some count) = ltb count d.limit

unfoldable pub allowed : DailyLimit → ℕ → String → Bool × DailyLimit
allowed d now key = let d' = roll d now in (admits d' (map_get key d'.counts), d')

abbrev pub count_or : Option ℕ → ℕ
count_or none = 0
count_or (some n) = n

unfoldable pub record_hit : DailyLimit → ℕ → String → DailyLimit
record_hit d now key =
    let d' = roll d now in
    record d' { counts = map_set key (count_or (map_get key d'.counts) + 1) d'.counts }

-- The way the callers use it: ask, and count the call if it was let through.
unfoldable pub use_daily : DailyLimit → ℕ → String → Bool × DailyLimit
unfolding allowed record_hit
use_daily d now key =
    let (fits, d') = allowed d now key in
    if fits then (true, record_hit d' now key) else (false, d')

unfoldable pub use_all : DailyLimit → List (ℕ × String) → DailyLimit
unfolding use_daily
use_all d [] = d
use_all d ((now, key) ∷ calls) = use_all (use_daily d now key).1 calls

abbrev pub new_daily : ℕ → ℕ → DailyLimit
new_daily limit max_keys = record { limit = limit; max_keys = max_keys; day = none; counts = [] }

abbrev pub Capped : ℕ → List (String × ℕ) → Type 0
Capped limit = All (λ e. e.1 ≤ limit)

pub record IsBounded (d : DailyLimit) : Type 0 where
  pub small : length d.counts ≤ d.max_keys
  pub capped : Capped d.limit d.counts

length-set_new :
    (k : String) (v : ℕ) (m : List (String × ℕ))
    → length (map_set k v m) ≡ (elim (map_get k m) [ none ↦ suc (length m) | some _ ↦ length m ])
unfolding map_set map_get
length-set_new k v [] = refl
length-set_new k v ((j, w) ∷ m) = ground (arith, length-set_new k v m)

Capped-set :
    (limit : ℕ) (k : String) (v : ℕ) (m : List (String × ℕ))
    → v ≤ limit
    → Capped limit m
    → Capped limit (map_set k v m)
unfolding map_set
Capped-set limit k v [] h c = (h, tt)
Capped-set limit k v ((j, w) ∷ m) h c = elim (Bool-cases (str_eq j k)) [
  | inl e ↦ rw e (h, c.1)
  | inr e ↦ rw e (c.0, Capped-set limit k v m h c.1)
]

pub roll-IsBounded : (d : DailyLimit) (now : ℕ) → IsBounded d → IsBounded (roll d now)
unfolding roll
roll-IsBounded d now b = elim (Bool-cases (day_is d.day (now / 86400))) [
  | inl e ↦ rw e b
  | inr e ↦ rw e (record { small = omega arith; capped = tt })
]

pub roll-roll : (d : DailyLimit) (now : ℕ) → roll (roll d now) now ≡ roll d now
unfolding roll
roll-roll d now = ground arith

pub roll-keeps :
    (d : DailyLimit) (now : ℕ)
    → ((roll d now).limit ≡ d.limit) × ((roll d now).max_keys ≡ d.max_keys)
unfolding roll
roll-keeps d now = ground arith

counted-IsBounded :
    (d : DailyLimit) (key : String) (o : Option ℕ)
    → 0 < d.limit
    → IsBounded d
    → map_get key d.counts ≡ o
    → admits d o ≡ true
    → IsBounded (record d { counts = map_set key (count_or o + 1) d.counts })
counted-IsBounded d key none pos b e fits = record {
  small = ground (arith, length-set_new key 1 d.counts, e, b.small, fits);
  capped = Capped-set d.limit key 1 d.counts (omega arith) b.capped;
}
counted-IsBounded d key (some n) pos b e fits = record {
  small = ground (arith, length-set_new key (n + 1) d.counts, e, b.small, fits);
  capped = Capped-set d.limit key (n + 1) d.counts (ground (arith, fits)) b.capped;
}

pub use_daily-IsBounded :
    (d : DailyLimit) (now : ℕ) (key : String)
    → 0 < d.limit
    → IsBounded d
    → IsBounded (use_daily d now key).1
unfolding use_daily
use_daily-IsBounded d now key pos b =
    let d' = roll d now in
    let b' = roll-IsBounded d now b in
    elim (Bool-cases (admits d' (map_get key d'.counts))) [
      | inl fits ↦
          rw (roll-roll d now, fits)
            (counted-IsBounded d' key (map_get key d'.counts) (rw (roll-keeps d now).0 pos) b' refl
              fits)
      | inr full ↦ rw full b'
    ]

pub use_daily-keeps :
    (d : DailyLimit) (now : ℕ) (key : String)
    → ((use_daily d now key).1.limit ≡ d.limit) × ((use_daily d now key).1.max_keys ≡ d.max_keys)
unfolding use_daily
use_daily-keeps d now key = ground (arith, roll-keeps d now, roll-keeps (roll d now) now)

pub use_all-IsBounded :
    (d : DailyLimit) (calls : List (ℕ × String))
    → 0 < d.limit
    → IsBounded d
    → IsBounded (use_all d calls)
      × ((use_all d calls).limit ≡ d.limit)
      × ((use_all d calls).max_keys ≡ d.max_keys)
unfolding use_all
use_all-IsBounded d [] pos b = (b, refl, refl)
use_all-IsBounded d ((now, key) ∷ calls) pos b =
    let d' = (use_daily d now key).1 in
    let kept = use_daily-keeps d now key in
    let rest =
      use_all-IsBounded d' calls (omega (arith, kept.0)) (use_daily-IsBounded d now key pos b) in
    (rest.0, rest.1 ∙ kept.0, rest.2 ∙ kept.1)
