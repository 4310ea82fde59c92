-- ===== src/Tier/Reads.antt =====
-- src/tier/billing-reads.ts: the queue of store reads, the reads that are out, and what a finished
-- one writes. A read is out between `begin` and `settle`; the store's answer comes with `settle`. A
-- call of the database does not throw here. `view` is what `viewEntitlements` makes of the answer.
pub mod View
pub mod Apply
pub mod Fence
pub mod Failed
pub mod Flights
mod Examples
use critalarm_server.Prelude.{
  ℕ, ◌+◌, ◌==◌, ltb, leb, if◌then◌else◌, Bool, true, false, not, ◌&&◌, ◌||◌, Option, none, some,
  List, [], ◌∷◌, ◌++◌, find_row, select, delete_where, update_where, count_where, max,
}
use critalarm_server.Tier.Reads.View.{
  StoreAnswer, listed, not_read, ActiveEntitlement, StoreReadConfig,
}
use critalarm_server.Tier.Reads.Apply.{
  ReadBillingRow, ReadRow, Flight, ReadStore, ReadTrigger, by_webhook, by_retry, unlinked_number,
  forget_unlinked, billing_row, has_app_user, apply, holds_something,
}

-- this.flights.has(appUserId)
unfoldable pub in_flight : ℕ → ReadStore → Bool
in_flight id s = leb 1 (count_where (λ f. f.app_user_id == id) s.flights)

-- INSERT ... ON CONFLICT(app_user_id) DO UPDATE
unfoldable pub upsert_read : ReadRow → (ReadRow → ReadRow) → List ReadRow → List ReadRow
upsert_read row f [] = row ∷ []
upsert_read row f (r ∷ rows) =
    let rest = r ∷ upsert_read row f rows in
    if r.app_user_id == row.app_user_id then f r ∷ rows else rest

unfoldable pub mark_dirty : ℕ → ℕ → ReadStore → ReadStore
mark_dirty id now s = record s {
  queue =
      upsert_read (record { app_user_id = id; due_at = now; attempts = 0; dirty = true })
        (λ r. record r { dirty = true }) s.queue;
}

unfoldable pub enqueue : ℕ → ℕ → ReadStore → ReadStore
enqueue id now s = if in_flight id s then mark_dirty id now s else record s {
  queue =
      upsert_read (record { app_user_id = id; due_at = now; attempts = 0; dirty = false })
        (λ r. record r { due_at = now; attempts = 0 }) s.queue;
}

abbrev dirty_row : ℕ → ReadRow → Bool
dirty_row id r = (r.app_user_id == id) && r.dirty

unfoldable pub take_dirty : ℕ → ReadStore → Bool × ReadStore
take_dirty id s = (
  leb 1 (count_where (dirty_row id) s.queue),
  record s { queue = update_where (dirty_row id) (λ r. record r { dirty = false }) s.queue },
)

-- With `UPDATE ... RETURNING read_seq`, or the number in memory for an id that has no row.
unfoldable pub take_number : ℕ → ReadStore → ℕ × ReadStore
take_number id s = elim (billing_row id s) [
  | some row ↦ (
    row.read_seq + 1,
    record s {
      billing_ids =
          update_where (has_app_user id) (λ b. record b { read_seq = b.read_seq + 1 })
            s.billing_ids;
    },
  )
  | none ↦
      let next = unlinked_number id s + 1 in
      (next, record s { unlinked = (id, next) ∷ delete_where (λ e. e.0 == id) s.unlinked })
]

-- `start`, up to the request.
unfoldable pub begin : ℕ → ReadTrigger → ReadStore → ReadStore
begin id trigger s =
    let (seq, s') = take_number id s in
    record s' {
      flights =
          s'.flights
          ++ record { app_user_id = id; seq = seq; trigger = trigger; follow = none } ∷ [];
    }

-- `flight.follow` keeps the trigger of the first call that waits.
abbrev pub followed : ReadTrigger → Flight → Flight
followed trigger f = elim f.follow [ none ↦ record f { follow = some trigger } | some _ ↦ f ]

unfoldable pub read : ℕ → ReadTrigger → ℕ → ReadStore → ReadStore
read id trigger now s =
    if in_flight id s
    then record (mark_dirty id now s) {
      flights = update_where (λ f. f.app_user_id == id) (followed trigger) s.flights;
    }
    else begin id trigger s

-- One row of `scanOnce`.
unfoldable pub scan_read : ReadRow → ReadStore → ReadStore
scan_read row s =
    if in_flight row.app_user_id s
    then s
    else begin row.app_user_id (if row.attempts == 0 then by_webhook else by_retry)
        (take_dirty row.app_user_id s).1

-- RETRY_AFTER_S[failures - 1]
abbrev pub retry_after_s : ℕ → Option ℕ
retry_after_s failures =
    if failures == 1
    then some 60
    else if failures == 2
    then some 300
    else if failures == 3
    then some 900
    else if failures == 4
    then some 3600
    else none

unfoldable pub queue_row : ℕ → ReadStore → Option ReadRow
queue_row id s = find_row (λ r. r.app_user_id == id) s.queue

-- The queue after one more failure.
unfoldable pub queue_retry : ℕ → ℕ → ℕ → ReadStore → ReadStore
queue_retry id failures now s = elim (retry_after_s failures) [
  | none ↦ record s { queue = delete_where (λ r. r.app_user_id == id) s.queue }
  | some wait ↦ record s {
    queue =
        upsert_read
          (record { app_user_id = id; due_at = now + wait; attempts = failures; dirty = false })
          (λ r. record r { due_at = now + wait; attempts = failures }) s.queue;
  }
]

unfoldable pub read_failed : ℕ → ℕ → ReadStore → ReadStore
read_failed id now s = elim (queue_row id s) [
  | none ↦ queue_retry id 1 now s
  | some r ↦ if r.dirty then s else queue_retry id (r.attempts + 1) now s
]

-- `once`, from the store's answer on.
unfoldable pub finish_read :
    StoreReadConfig → ℕ → ℕ → ReadTrigger → StoreAnswer → ℕ → ReadStore → Bool × ReadStore
finish_read config id seq trigger not_read now s = (false, read_failed id now s)
finish_read config id seq trigger (listed never_seen items) now s =
    if never_seen && holds_something id s
    then (false, read_failed id now s)
    else (true, apply config id seq items trigger now s)

abbrev trigger_or : Option ReadTrigger → ReadTrigger
trigger_or none = by_webhook
trigger_or (some trigger) = trigger

abbrev pub is_followed : Option ReadTrigger → Bool
is_followed none = false
is_followed (some _) = true

-- The `then` of `start`: the flight ends, and one more may start.
unfoldable pub end_flight : Flight → Bool × ReadStore → Bool × ReadStore
end_flight f (outcome, s) =
    let (dirty, s') =
      take_dirty f.app_user_id
        (record s { flights = delete_where (λ g. g.app_user_id == f.app_user_id) s.flights }) in
    (
      outcome,
      if dirty || is_followed f.follow
          then begin f.app_user_id (trigger_or f.follow) s'
          else forget_unlinked f.app_user_id s',
    )

-- The answer to the read that is out for a customer, if there is one.
unfoldable pub settle : StoreReadConfig → ℕ → StoreAnswer → ℕ → ReadStore → Bool × ReadStore
settle config id answer now s = elim (find_row (λ f. f.app_user_id == id) s.flights) [
  | none ↦ (false, s)
  | some f ↦ end_flight f (finish_read config id f.seq f.trigger answer now s)
]
