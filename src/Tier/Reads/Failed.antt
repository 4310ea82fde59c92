-- ===== src/Tier/Reads/Failed.antt =====
-- src/tier/billing-reads.ts: what a failed read writes, and the order of the retries.
use critalarm_server.Prelude.{
  ℕ, ◌+◌, ◌==◌, ◌≤◌, ==_refl, if_both, Bool, true, false, ◌&&◌, Option, none, some, List, [], ◌∷◌,
  ◌≡◌, ◌⊎◌, refl, sym, ap, ◌∙◌, inl, inr, Bool-cases, Option-cases, arith, find_row, delete_where,
}
use critalarm_server.Tier.Reads.View.{StoreAnswer, listed, not_read, StoreReadConfig}
use critalarm_server.Tier.Reads.Apply.{ReadRow, ReadStore, ReadTrigger, holds_something}
use critalarm_server.Tier.Reads.{
  upsert_read, retry_after_s, queue_row, queue_retry, read_failed, finish_read,
}

find_row-upsert_read :
    (row : ReadRow) (f : ReadRow → ReadRow) (rows : List ReadRow)
    → ((r : ReadRow) → (f r).app_user_id ≡ r.app_user_id)
    → find_row (λ r. r.app_user_id == row.app_user_id) (upsert_read row f rows)
      ≡ some (elim (find_row (λ r. r.app_user_id == row.app_user_id) rows) [
        | none ↦ row
        | some r ↦ f r
      ])
unfolding find_row upsert_read
find_row-upsert_read row f [] same = rw (==_refl row.app_user_id) refl
find_row-upsert_read row f (r ∷ rows) same = elim (Bool-cases (r.app_user_id == row.app_user_id)) [
  | inl e ↦ rw (e, same r, e) refl
  | inr e ↦ rw (e, e) (find_row-upsert_read row f rows same)
]

find_row-deleted :
    (p : ReadRow → Bool) (rows : List ReadRow) → find_row p (delete_where p rows) ≡ none
unfolding find_row delete_where
find_row-deleted p [] = refl
find_row-deleted p (r ∷ rows) = ground (arith, find_row-deleted p rows)

-- Every table but the queue.
abbrev pub SameButQueue : ReadStore → ReadStore → Type 0
SameButQueue s s' = s' ≡ record s { queue = s'.queue }

queue_retry-SameButQueue :
    (id failures now : ℕ) (s : ReadStore) → SameButQueue s (queue_retry id failures now s)
unfolding queue_retry
queue_retry-SameButQueue id failures now s = elim (Option-cases (retry_after_s failures)) [
  | inl e ↦ rw (e, queue_retry) refl
  | inr (wait, e) ↦ rw (e, queue_retry) refl
]

read_failed-SameButQueue : (id now : ℕ) (s : ReadStore) → SameButQueue s (read_failed id now s)
unfolding read_failed
read_failed-SameButQueue id now s = elim (Option-cases (queue_row id s)) [
  | inl e ↦ rw (e, read_failed) (queue_retry-SameButQueue id 1 now s)
  | inr (r, e) ↦
      rw (e, read_failed)
        (if_both (SameButQueue s) r.dirty _ _ refl
          (queue_retry-SameButQueue id (r.attempts + 1) now s))
]

-- A failed read: no answer, or a customer never seen who holds something.
abbrev pub Fails : ℕ → StoreAnswer → ReadStore → Type 0
Fails id not_read s = Unit
Fails id (listed never_seen items) s = (never_seen && holds_something id s) ≡ true

finish_read-Fails :
    (config : StoreReadConfig) (id seq : ℕ) (trigger : ReadTrigger) (answer : StoreAnswer) (now : ℕ)
    (s : ReadStore)
    → Fails id answer s
    → finish_read config id seq trigger answer now s ≡ (false, read_failed id now s)
unfolding finish_read
finish_read-Fails config id seq trigger not_read now s h = refl
finish_read-Fails config id seq trigger (listed never_seen items) now s h = rw h refl

abbrev pub attempts_of : Option ReadRow → ℕ
attempts_of none = 0
attempts_of (some r) = r.attempts

abbrev pub is_dirty : Option ReadRow → Bool
is_dirty none = false
is_dirty (some r) = r.dirty

-- What is queued after one more failure: nothing after the fifth, and before that one more read,
-- from a minute to an hour later.
abbrev pub Requeued : ℕ → ℕ → ℕ → ReadStore → Type 0
Requeued id now attempts s =
    ((4 ≤ attempts) × (queue_row id s ≡ none))
    ⊎ ((r : ReadRow) × (attempts ≤ 3)
        × (queue_row id s ≡ some r)
        × (r.attempts ≡ attempts + 1)
        × (now + 60 ≤ r.due_at)
        × (r.due_at ≤ now + 3600))

retry_after_s-none : (n : ℕ) → retry_after_s (n + 1) ≡ none → 4 ≤ n
retry_after_s-none n h = ground arith

retry_after_s-some :
    (n : ℕ) {wait : ℕ} → retry_after_s (n + 1) ≡ some wait → (n ≤ 3) × (60 ≤ wait) × (wait ≤ 3600)
retry_after_s-some n {wait} h = ground arith

queue_retry-Requeued :
    (id attempts now : ℕ) (s : ReadStore)
    → Requeued id now attempts (queue_retry id (attempts + 1) now s)
unfolding queue_retry queue_row
queue_retry-Requeued id attempts now s = elim (Option-cases (retry_after_s (attempts + 1))) [
  | inl e ↦
      rw (e, queue_retry)
        (inl (retry_after_s-none attempts e, find_row-deleted (λ r. r.app_user_id == id) s.queue))
  | inr (wait, e) ↦
      let (most, least_wait, most_wait) = retry_after_s-some attempts e in
      let row : ReadRow = record {
        app_user_id = id;
        due_at = now + wait;
        attempts = attempts + 1;
        dirty = false;
      } in
      let again = λ (r : ReadRow). record r { due_at = now + wait; attempts = attempts + 1 } in
      let found = find_row-upsert_read row again s.queue (λ r. refl) in
      rw (e, queue_retry)
        (elim (Option-cases (find_row (λ r. r.app_user_id == id) s.queue)) [
          | inl e' ↦ inr (
            row,
            most,
            found ∙ rw e' refl,
            refl,
            omega (arith, least_wait),
            omega (arith, most_wait),
          )
          | inr (r, e') ↦ inr (
            again r,
            most,
            found ∙ rw e' refl,
            refl,
            omega (arith, least_wait),
            omega (arith, most_wait),
          )
        ])
]

read_failed-Requeued :
    (id now : ℕ) (s : ReadStore)
    → is_dirty (queue_row id s) ≡ false
    → Requeued id now (attempts_of (queue_row id s)) (read_failed id now s)
unfolding read_failed
read_failed-Requeued id now s clean = elim (Option-cases (queue_row id s)) [
  | inl e ↦ rw (e, read_failed) (queue_retry-Requeued id 0 now s)
  | inr (r, e) ↦
      rw (e, read_failed, ap is_dirty (sym e) ∙ clean) (queue_retry-Requeued id r.attempts now s)
]

-- What the queue holds after a failure: what it held where a trigger has arrived in the meantime, and
-- one more attempt where none has.
abbrev pub QueuedAfter : ℕ → ℕ → ReadStore → ReadStore → Type 0
QueuedAfter id now s s' =
    ((is_dirty (queue_row id s) ≡ true) × (s' ≡ s))
    ⊎ ((is_dirty (queue_row id s) ≡ false) × Requeued id now (attempts_of (queue_row id s)) s')

read_failed-dirty :
    (id now : ℕ) (s : ReadStore) → is_dirty (queue_row id s) ≡ true → read_failed id now s ≡ s
unfolding read_failed
read_failed-dirty id now s dirty = elim (Option-cases (queue_row id s)) [
  | inl e ↦ cc (dirty, e)
  | inr (r, e) ↦ rw (e, read_failed, ap is_dirty (sym e) ∙ dirty) refl
]

read_failed-QueuedAfter : (id now : ℕ) (s : ReadStore) → QueuedAfter id now s (read_failed id now s)
read_failed-QueuedAfter id now s = elim (Bool-cases (is_dirty (queue_row id s))) [
  | inl dirty ↦ inl (dirty, read_failed-dirty id now s dirty)
  | inr clean ↦ inr (clean, read_failed-Requeued id now s clean)
]

-- A read that fails, or that says that a customer who holds something was never seen, reports no
-- success and writes nothing but the queue: not the tiers, not the packs, not the fence. Where a
-- trigger has arrived in the meantime it writes nothing at all. Otherwise the next read is due a
-- minute to an hour later, and after the fifth failure none is queued.
pub finish_read_failed :
    (config : StoreReadConfig) (id seq : ℕ) (trigger : ReadTrigger) (answer : StoreAnswer) (now : ℕ)
    (s : ReadStore)
    → Fails id answer s
    → let (outcome, s') = finish_read config id seq trigger answer now s in
      (outcome ≡ false) × SameButQueue s s' × QueuedAfter id now s s'
finish_read_failed config id seq trigger answer now s fails =
    rw (finish_read-Fails config id seq trigger answer now s fails)
      (refl, read_failed-SameButQueue id now s, read_failed-QueuedAfter id now s)
