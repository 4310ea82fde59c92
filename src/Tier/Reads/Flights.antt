-- ===== src/Tier/Reads/Flights.antt =====
-- src/tier/billing-reads.ts: at most one read is out for a customer, whatever is called in what order.
use critalarm_server.Prelude.{
  ℕ, ◌+◌, ◌==◌, ◌≤◌, leb, ==_iff, if_both, Bool, false, ◌&&◌, Option, none, some, List, [], ◌∷◌,
  ◌≡◌, refl, sym, ap, ◌∙◌, inl, inr, Bool-cases, Option-cases, arith, find_row, count_where,
  count_where-append, count_where-update_where, delete_where,
}
use mathlib.Core.Path.{subst}
use critalarm_server.Tier.Caps.{Tier}
use critalarm_server.Tier.Purchases.{resolve_account}
use critalarm_server.Tier.Reads.View.{
  StoreAnswer, listed, not_read, StoreReadConfig, StoreView, view_entitlements,
}
use critalarm_server.Tier.Reads.Apply.{
  ReadBillingRow, ReadRow, Flight, ReadStore, ReadTrigger, billing_row, as_billing, forget_unlinked,
  link_row, link, write_account_tier, clear_queued, write_view, apply_view, apply, holds_something,
  gives_nothing, target,
}
use critalarm_server.Tier.Reads.{
  in_flight, mark_dirty, enqueue, take_dirty, take_number, begin, read, scan_read, queue_row,
  queue_retry, read_failed, retry_after_s, finish_read, end_flight, settle, followed,
}

flights-write_account_tier :
    (trigger : ReadTrigger) (id now account_id : ℕ) (before after : Tier) (s : ReadStore)
    → (write_account_tier trigger id now account_id before after s).flights ≡ s.flights
unfolding write_account_tier
flights-write_account_tier trigger id now account_id before after s =
    elim (Option-cases (find_row (λ a. a.id == account_id) s.accounts)) [
      | inl e ↦ rw (e, write_account_tier) refl
      | inr (a, e) ↦
          rw (e, write_account_tier)
            (if_both (λ (t : ReadStore). t.flights ≡ s.flights) _ _ _ refl refl)
    ]

flights-write_view :
    (id seq : ℕ) (trigger : ReadTrigger) (now : ℕ) (view : StoreView) (account_id : ℕ)
    (before : Tier) (s : ReadStore)
    → (write_view id seq trigger now view account_id before s).flights ≡ s.flights
unfolding write_view clear_queued
flights-write_view id seq trigger now view account_id before s =
    flights-write_account_tier trigger id now account_id before _ _

flights-link :
    (id account_id now : ℕ) (s : ReadStore) → (link id account_id now s).flights ≡ s.flights
unfolding link link_row forget_unlinked
flights-link id account_id now s = elim (Option-cases (billing_row id s)) [
  | inl e ↦ rw (e, link_row) refl
  | inr (row, e) ↦
      rw (e, link_row)
        (if_both (λ (t : ReadStore). t.flights ≡ s.flights) (row.link.account_id == account_id) _ _
          refl refl)
]

flights-apply_view :
    (id seq : ℕ) (trigger : ReadTrigger) (now : ℕ) (view : StoreView) (row : Option ReadBillingRow)
    (account : Option ℕ) (s : ReadStore)
    → (apply_view id seq trigger now view row account s).flights ≡ s.flights
unfolding apply_view clear_queued
flights-apply_view id seq trigger now view none none s = refl
flights-apply_view id seq trigger now view none (some account_id) s =
    if_both (λ (t : ReadStore). t.flights ≡ s.flights) (gives_nothing view) _ _ refl
      (flights-write_view id seq trigger now view account_id _ _ ∙ flights-link id account_id now s)
flights-apply_view id seq trigger now view (some row) account s =
    if_both (λ (t : ReadStore). t.flights ≡ s.flights) (leb seq row.applied_seq) _ _ refl
      (flights-write_view id seq trigger now view (target account row.link.account_id) _ _
        ∙ flights-link id (target account row.link.account_id) now s)

flights-queue_retry :
    (id failures now : ℕ) (s : ReadStore) → (queue_retry id failures now s).flights ≡ s.flights
unfolding queue_retry
flights-queue_retry id failures now s = elim (Option-cases (retry_after_s failures)) [
  | inl e ↦ rw (e, queue_retry) refl
  | inr (wait, e) ↦ rw (e, queue_retry) refl
]

flights-read_failed : (id now : ℕ) (s : ReadStore) → (read_failed id now s).flights ≡ s.flights
unfolding read_failed
flights-read_failed id now s = elim (Option-cases (queue_row id s)) [
  | inl e ↦ rw (e, read_failed) (flights-queue_retry id 1 now s)
  | inr (r, e) ↦
      rw (e, read_failed)
        (if_both (λ (t : ReadStore). t.flights ≡ s.flights) r.dirty _ _ refl
          (flights-queue_retry id (r.attempts + 1) now s))
]

flights-finish_read :
    (config : StoreReadConfig) (id seq : ℕ) (trigger : ReadTrigger) (answer : StoreAnswer) (now : ℕ)
    (s : ReadStore)
    → (finish_read config id seq trigger answer now s).1.flights ≡ s.flights
unfolding finish_read apply
flights-finish_read config id seq trigger not_read now s = flights-read_failed id now s
flights-finish_read config id seq trigger (listed never_seen items) now s =
    if_both (λ (t : Bool × ReadStore). t.1.flights ≡ s.flights) (never_seen && holds_something id s)
      _ _ (flights-read_failed id now s)
      (flights-apply_view id seq trigger now (view_entitlements config items) (billing_row id s)
        (resolve_account id (as_billing s)) s)

flights-take_number : (id : ℕ) (s : ReadStore) → (take_number id s).1.flights ≡ s.flights
unfolding take_number
flights-take_number id s = elim (Option-cases (billing_row id s)) [
  | inl e ↦ rw (e, take_number) refl
  | inr (row, e) ↦ rw (e, take_number) refl
]

-- How many reads are out for a customer.
abbrev pub out_for : ℕ → ReadStore → ℕ
out_for id s = count_where (λ f. f.app_user_id == id) s.flights

abbrev pub OneInFlight : ReadStore → Type 0
OneInFlight s = (id : ℕ) → out_for id s ≤ 1

begin-OneInFlight :
    (id : ℕ) (trigger : ReadTrigger) (s : ReadStore)
    → out_for id s ≡ 0
    → OneInFlight s
    → OneInFlight (begin id trigger s)
unfolding begin count_where
begin-OneInFlight id trigger s free_now one other =
    rw
      (
        count_where-append (λ f. f.app_user_id == other) (take_number id s).1.flights _,
        flights-take_number id s,
      )
      (elim (Bool-cases (id == other)) [
        | inl e ↦ rw e (
            subst (λ n. out_for n s + (1 + 0) ≤ 1) ((==_iff id other).0 e)
              (omega (arith, free_now)))
        | inr e ↦ rw e (omega (arith, one other))
      ])

in_flight-none : (id : ℕ) (s : ReadStore) → in_flight id s ≡ false → out_for id s ≡ 0
unfolding in_flight
in_flight-none id s h = ground (arith, h)

app_user_id-followed :
    (trigger : ReadTrigger) (f : Flight) → (followed trigger f).app_user_id ≡ f.app_user_id
app_user_id-followed trigger f = elim (Option-cases f.follow) [
  | inl e ↦ rw (e, followed) refl
  | inr (waiting, e) ↦ rw (e, followed) refl
]

out_for-delete :
    (id other : ℕ) (flights : List Flight)
    → count_where (λ f. f.app_user_id == other) (delete_where (λ f. f.app_user_id == id) flights)
      ≤ count_where (λ f. f.app_user_id == other) flights
unfolding count_where delete_where
out_for-delete id other [] = omega arith
out_for-delete id other (f ∷ flights) = ground (arith, out_for-delete id other flights)

out_for-deleted :
    (id : ℕ) (flights : List Flight)
    → count_where (λ f. f.app_user_id == id) (delete_where (λ f. f.app_user_id == id) flights) ≡ 0
unfolding count_where delete_where
out_for-deleted id [] = refl
out_for-deleted id (f ∷ flights) = ground (arith, out_for-deleted id flights)

read-OneInFlight :
    (id : ℕ) (trigger : ReadTrigger) (now : ℕ) (s : ReadStore)
    → OneInFlight s
    → OneInFlight (read id trigger now s)
unfolding read mark_dirty
read-OneInFlight id trigger now s one = elim (Bool-cases (in_flight id s)) [
  | inr e ↦ rw e (begin-OneInFlight id trigger s (in_flight-none id s e) one)
  | inl e ↦ rw e (λ other. omega (
    arith,
    one other,
    count_where-update_where (λ (f : Flight). f.app_user_id == id)
        (λ (f : Flight). f.app_user_id == other) (followed trigger) s.flights
        (λ f hit miss. ap (λ n. n == other) (app_user_id-followed trigger f) ∙ miss),
  ))
]

scan_read-OneInFlight :
    (row : ReadRow) (s : ReadStore) → OneInFlight s → OneInFlight (scan_read row s)
unfolding scan_read take_dirty
scan_read-OneInFlight row s one = elim (Bool-cases (in_flight row.app_user_id s)) [
  | inl e ↦ rw e one
  | inr e ↦ rw e (
      begin-OneInFlight row.app_user_id _ (take_dirty row.app_user_id s).1
        (in_flight-none row.app_user_id s e) one)
]

end_flight-OneInFlight :
    (f : Flight) (x : Bool × ReadStore) → OneInFlight x.1 → OneInFlight (end_flight f x).1
unfolding end_flight take_dirty forget_unlinked
end_flight-OneInFlight f (outcome, s) one =
    let id = f.app_user_id in
    let s' =
      (take_dirty id
        (record s { flights = delete_where (λ g. g.app_user_id == id) s.flights })).1 in
    let fewer : OneInFlight s' =
      λ other. omega (arith, one other, out_for-delete id other s.flights) in
    if_both OneInFlight _ _ _ (begin-OneInFlight id _ s' (out_for-deleted id s.flights) fewer) fewer

settle-OneInFlight :
    (config : StoreReadConfig) (id : ℕ) (answer : StoreAnswer) (now : ℕ) (s : ReadStore)
    → OneInFlight s
    → OneInFlight (settle config id answer now s).1
unfolding settle
settle-OneInFlight config id answer now s one =
    elim (Option-cases (find_row (λ f. f.app_user_id == id) s.flights)) [
      | inl e ↦ rw (e, settle) one
      | inr (f, e) ↦
          rw (e, settle)
            (end_flight-OneInFlight f (finish_read config id f.seq f.trigger answer now s) (λ other.
              subst (λ flights. count_where (λ f. f.app_user_id == other) flights ≤ 1)
                (sym (flights-finish_read config id f.seq f.trigger answer now s)) (one other)))
    ]

enqueue-OneInFlight : (id now : ℕ) (s : ReadStore) → OneInFlight s → OneInFlight (enqueue id now s)
unfolding enqueue mark_dirty
enqueue-OneInFlight id now s one = if_both OneInFlight (in_flight id s) _ _ one one

-- The calls of the read path, and an answer that arrives.
pub data ReadCall : Type 0 where
  enqueues : (id now : ℕ) → ReadCall
  reads : (id : ℕ) (trigger : ReadTrigger) (now : ℕ) → ReadCall
  scans : ReadRow → ReadCall
  settles : (id : ℕ) (answer : StoreAnswer) (now : ℕ) → ReadCall

unfoldable pub read_step : StoreReadConfig → ReadCall → ReadStore → ReadStore
read_step config (enqueues id now) s = enqueue id now s
read_step config (reads id trigger now) s = read id trigger now s
read_step config (scans row) s = scan_read row s
read_step config (settles id answer now) s = (settle config id answer now s).1

read_step-OneInFlight :
    (config : StoreReadConfig) (call : ReadCall) (s : ReadStore)
    → OneInFlight s
    → OneInFlight (read_step config call s)
unfolding read_step
read_step-OneInFlight config (enqueues id now) s one = enqueue-OneInFlight id now s one
read_step-OneInFlight config (reads id trigger now) s one = read-OneInFlight id trigger now s one
read_step-OneInFlight config (scans row) s one = scan_read-OneInFlight row s one
read_step-OneInFlight config (settles id answer now) s one =
    settle-OneInFlight config id answer now s one

unfoldable pub run_reads : StoreReadConfig → List ReadCall → ReadStore → ReadStore
run_reads config [] s = s
run_reads config (call ∷ calls) s = run_reads config calls (read_step config call s)

-- When no customer has two reads out, none has after any sequence of triggers, scanned rows and
-- answers of the store.
pub run_reads_one :
    (config : StoreReadConfig) (calls : List ReadCall) (s : ReadStore)
    → OneInFlight s
    → OneInFlight (run_reads config calls s)
unfolding run_reads
run_reads_one config [] s one = one
run_reads_one config (call ∷ calls) s one =
    run_reads_one config calls (read_step config call s) (read_step-OneInFlight config call s one)
