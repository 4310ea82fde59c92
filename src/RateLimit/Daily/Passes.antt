-- ===== src/RateLimit/Daily/Passes.antt =====
-- src/rate-limit.ts: how often a `DailyLimit` lets a key through.
use critalarm_server.Prelude.{
  ℕ, ◌+◌, ◌/◌, ◌≤◌, ◌<◌, ◌==◌, ==_iff, ==_refl, if◌then◌else◌, if_both, true, false, ◌&&◌, ◌≡◌, ◌⊎◌,
  refl, sym, ap, ◌∙◌, String, str_eq, eq_iff, Option, none, some, inl, inr, List, [], ◌∷◌, arith,
  length, map_get, map_get-set, Bool-cases,
}
use critalarm_server.RateLimit.Daily.{
  DailyLimit, day_is, roll, admits, count_or, use_daily, use_all, new_daily, Capped, IsBounded,
  roll-roll, use_daily-IsBounded, use_daily-keeps, use_all-IsBounded,
}

-- How many of the calls come from the key on the day and are let through.
abbrev pub passes : DailyLimit → List (ℕ × String) → (day : ℕ) (key : String) → ℕ
passes d [] day key = 0
passes d ((now, k) ∷ calls) day key =
    let (fits, d') = use_daily d now k in
    (if fits && str_eq k key && (now / 86400 == day) then 1 else 0) + passes d' calls day key

-- The clock does not run back.
abbrev pub InOrder : ℕ → List (ℕ × String) → Type 0
InOrder from [] = Unit
InOrder from ((now, k) ∷ calls) = (from ≤ now) × InOrder now calls

-- What the table holds of the key for the day.
abbrev held : DailyLimit → ℕ → String → ℕ
held d day key = if day_is d.day day then count_or (map_get key d.counts) else 0

day_is-some : (o : Option ℕ) (n : ℕ) → day_is o n ≡ true → o ≡ some n
day_is-some none n h = cc
day_is-some (some d) n h = ap some ((==_iff d n).0 h)

day-roll : (d : DailyLimit) (now : ℕ) → (roll d now).day ≡ some (now / 86400)
unfolding roll
day-roll d now = elim (Bool-cases (day_is d.day (now / 86400))) [
  | inl e ↦ rw e (day_is-some d.day (now / 86400) e)
  | inr e ↦ rw e refl
]

-- On the day of the call, rolling forgets nothing of this day.
held-roll :
    (d : DailyLimit) (now day : ℕ) (key : String)
    → (now / 86400 == day) ≡ true
    → held (roll d now) day key ≡ held d day key
unfolding roll map_get
held-roll d now day key same =
    rw (sym ((==_iff (now / 86400) day).0 same)) (elim (Bool-cases (day_is d.day (now / 86400))) [
      | inl e ↦ rw (e, e) refl
      | inr e ↦ rw (e, ==_refl (now / 86400)) refl
    ])

held-use_daily :
    (d : DailyLimit) (now : ℕ) (k : String) (day : ℕ) (key : String)
    → (now / 86400 == day) ≡ true
    → held (use_daily d now k).1 day key
      ≡ held d day key + (if (use_daily d now k).0 && str_eq k key then 1 else 0)
unfolding use_daily
held-use_daily d now k day key same =
    let d' = roll d now in
    let kept = held-roll d now day key same in
    elim (Bool-cases (admits d' (map_get k d'.counts))) [
      | inr full ↦ rw full (omega (arith, kept))
      | inl fits ↦
          rw (fits, roll-roll d now)
            (let today : day_is d'.day day ≡ true =
                ap (λ o. day_is o day) (day-roll d now) ∙ same in
              let known : count_or (map_get key d'.counts) ≡ held d day key =
                ground (arith, kept, today) in
              rw (today, map_get-set key k (count_or (map_get k d'.counts) + 1) d'.counts)
                (elim (Bool-cases (str_eq k key)) [
                  | inr other ↦ rw other (omega (arith, known))
                  | inl own ↦
                      let twin : count_or (map_get k d'.counts) ≡ count_or (map_get key d'.counts) =
                        ap (λ t. count_or (map_get t d'.counts)) ((eq_iff k key).0 own) in
                      rw own (omega (arith, known, twin))
                ]))
    ]

day-use_daily :
    (d : DailyLimit) (now : ℕ) (k : String) → (use_daily d now k).1.day ≡ some (now / 86400)
unfolding use_daily
day-use_daily d now k = elim (Bool-cases (admits (roll d now) (map_get k (roll d now).counts))) [
  | inl fits ↦ rw (fits, roll-roll d now) (day-roll d now)
  | inr full ↦ rw full (day-roll d now)
]

-- A day that is over has no more calls.
passes_past :
    (d : DailyLimit) (from : ℕ) (calls : List (ℕ × String)) (day : ℕ) (key : String)
    → InOrder from calls
    → day + 1 ≤ from / 86400
    → passes d calls day key ≡ 0
passes_past d from [] day key order over = refl
passes_past d from ((now, k) ∷ calls) day key order over =
    let over' : day + 1 ≤ now / 86400 = omega (arith, over, order.0) in
    let rest = passes_past (use_daily d now k).1 now calls day key order.1 over' in
    ground (arith, over', rest)

held-Capped :
    (limit : ℕ) (key : String) (m : List (String × ℕ))
    → Capped limit m
    → count_or (map_get key m) ≤ limit
unfolding map_get
held-Capped limit key [] c = omega arith
held-Capped limit key ((j, n) ∷ m) c = elim (Bool-cases (str_eq j key)) [
  | inl e ↦ rw e c.0
  | inr e ↦ rw e (held-Capped limit key m c.1)
]

-- The table's day is not ahead of the clock.
abbrev NotAhead : Option ℕ → ℕ → Type 0
NotAhead none from = Unit
NotAhead (some d) from = d ≤ from / 86400

-- On another day than the table's next one, the table holds nothing or the day is over.
held-other :
    (o : Option ℕ) (from now day count : ℕ)
    → NotAhead o from
    → from ≤ now
    → (now / 86400 == day) ≡ false
    → ((if day_is o day then count else 0) ≡ 0) ⊎ (day + 1 ≤ now / 86400)
held-other none from now day count h order other = inl refl
held-other (some d) from now day count h order other = elim (Bool-cases (d == day)) [
  | inr apart ↦ inl (rw apart refl)
  | inl own ↦ inr (ground (arith, own, other, h, order))
]

passes-held :
    (d : DailyLimit) (from : ℕ) (calls : List (ℕ × String)) (day : ℕ) (key : String)
    → 0 < d.limit
    → IsBounded d
    → NotAhead d.day from
    → InOrder from calls
    → passes d calls day key + held d day key ≤ d.limit
passes-held d from [] day key pos b past order =
    let least = held-Capped d.limit key d.counts b.capped in
    if_both (λ n. 0 + n ≤ d.limit) (day_is d.day day) _ _ (omega (arith, least)) (omega arith)
passes-held d from ((now, k) ∷ calls) day key pos b past order =
    let d' = (use_daily d now k).1 in
    let limit = (use_daily-keeps d now k).0 in
    let rest =
      passes-held d' now calls day key (omega (arith, pos, limit))
        (use_daily-IsBounded d now k pos b) (rw (day-use_daily d now k) (omega arith)) order.1 in
    elim (Bool-cases (now / 86400 == day)) [
      | inl same ↦
          let counted = held-use_daily d now k day key same in
          rw same (ground (arith, rest, counted, limit))
      | inr other ↦
          elim (held-other d.day from now day (count_or (map_get key d.counts)) past order.0
            other) [
              | inl nothing_held ↦ rw (other, nothing_held) (ground (arith, rest, limit))
              | inr over ↦
                  let done = passes_past d' now calls day key order.1 over in
                  let least = held-Capped d.limit key d.counts b.capped in
                  rw (other, done)
                    (if_both
                      (λ n.
                        (if (use_daily d now k).0 && str_eq k key && false then 1 else 0) + 0 + n
                        ≤ d.limit)
                      (day_is d.day day) _ _ (ground (arith, least)) (ground arith))
            ]
    ]

-- The clock not running back: however many calls come, from however many clients, a new daily limit
-- lets no key through more often in a day than the limit says, and its table never holds more keys
-- than it may.
pub passes_bounded :
    (limit max_keys : ℕ) (calls : List (ℕ × String)) (day : ℕ) (key : String)
    → 0 < limit
    → InOrder 0 calls
    → (passes (new_daily limit max_keys) calls day key ≤ limit)
      × (length (use_all (new_daily limit max_keys) calls).counts ≤ max_keys)
unfolding map_get
passes_bounded limit max_keys calls day key pos order =
    let d = new_daily limit max_keys in
    let fresh : IsBounded d = record { small = omega arith; capped = tt } in
    let (b, kept_limit, kept_keys) = use_all-IsBounded d calls pos fresh in
    (
      omega (arith, passes-held d 0 calls day key pos fresh tt order),
      omega (arith, b.small, kept_keys),
    )
