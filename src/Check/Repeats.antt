-- ===== src/Check/Repeats.antt =====
-- src/check/store.ts: a receipt that counted, sent again.
use critalarm_server.Prelude.{
  ℕ, ◌==◌, ==_refl, leb, Bool, true, false, ◌&&◌, ◌≡◌, refl, String, str_eq, none, some,
}
use mathlib.Core.Option
use critalarm_server.Check.CheckId.{is_check_id}
use critalarm_server.Check.Types.{received, Notes, RoundRow, CheckStore, Outside}
use critalarm_server.Check.Statements.{is_null, update_state, update_round, update_unclosed}
use critalarm_server.Check.Close.{closed_with, close}
use critalarm_server.Check.Receipts.{
  attempt_note, time_note, close_received, count_receipt, reread, receipt_of, receipt,
  round_of_nonce,
}
use critalarm_server.Check.Results.{find_row-update_where_hit, count_where-found}

module _ (o : Outside) (device_id account_id : ℕ) (check_id : String)
    (well : is_check_id check_id ≡ true) where
  -- A receipt of a round that has been received.
  receipt-received :
      (notes : Notes) (now : ℕ) (s : CheckStore) (r : RoundRow)
      → round_of_nonce device_id (o.sha256 check_id) s ≡ some r
      → r.result ≡ some received
      → let reply = receipt o device_id account_id check_id notes now s in
        (Option.map (λ x. x.counted) reply.0 ≡ some true) × (reply.1 ≡ s)
  unfolding receipt receipt_of reread count_receipt
  receipt-received notes now s r found got =
      (rw (receipt, well, found, got) refl, rw (receipt, well, found, got) refl)

  -- A receipt of a round that is still open.
  receipt-open :
      (notes : Notes) (now : ℕ) (s : CheckStore) (r : RoundRow)
      → round_of_nonce device_id (o.sha256 check_id) s ≡ some r
      → r.result ≡ none
      → leb r.closes_at now ≡ false
      → let reply = receipt o device_id account_id check_id notes now s in
        (Option.map (λ x. x.counted) reply.0 ≡ some true) × (reply.1 ≡ close_received r notes now s)
  unfolding receipt receipt_of reread count_receipt
  receipt-open notes now s r found running early = (
    rw (receipt, well, found, running, early) refl,
    rw (receipt, well, found, running, early) refl,
  )

  -- The round, once its receipt has come.
  received_row : RoundRow → Notes → ℕ → RoundRow
  received_row r notes now = record (closed_with received none now r) {
    receipt_at = some now;
    device_received_at = time_note notes.received_at;
    attempt_received = attempt_note notes.attempt r.attempts;
  }

  close_received-found :
      (notes : Notes) (now : ℕ) (s : CheckStore) (r : RoundRow)
      → round_of_nonce device_id (o.sha256 check_id) s ≡ some r
      → r.result ≡ none
      → round_of_nonce device_id (o.sha256 check_id) (close_received r notes now s)
        ≡ some (received_row r notes now)
  unfolding round_of_nonce close_received close update_state update_round update_unclosed
      received_row
  close_received-found notes now s r found running =
      let mine : RoundRow → Bool =
        λ q. (q.device_id == device_id) && str_eq q.nonce_hash (o.sha256 check_id) in
      let open_one : RoundRow → Bool = λ q. (q.id == r.id) && is_null q.result in
      let hit : open_one r ≡ true = rw (running, ==_refl r.id) refl in
      rw (count_where-found open_one mine s.check_rounds found hit) (
        find_row-update_where_hit (λ q. q.id == r.id) mine _ _ (λ y. refl)
          (find_row-update_where_hit open_one mine (closed_with received none now) s.check_rounds
            (λ y. refl) found hit)
          (==_refl r.id))

-- A receipt that comes while its round is open counts. The same receipt again, with whatever notes
-- and at whatever time, after the round's close time too, is answered as counted and writes nothing.
pub receipt_again :
    (o : Outside) (device_id account_id : ℕ) (check_id : String) (notes notes' : Notes)
    (now later : ℕ) (s : CheckStore) (r : RoundRow)
    → is_check_id check_id ≡ true
    → round_of_nonce device_id (o.sha256 check_id) s ≡ some r
    → r.result ≡ none
    → leb r.closes_at now ≡ false
    → let first = receipt o device_id account_id check_id notes now s in
      let second = receipt o device_id account_id check_id notes' later first.1 in
      (Option.map (λ x. x.counted) first.0 ≡ some true)
      × (Option.map (λ x. x.counted) second.0 ≡ some true)
      × (second.1 ≡ first.1)
unfolding received_row
receipt_again o device_id account_id check_id notes notes' now later s r well found running early =
    let first =
      receipt-open o device_id account_id check_id well notes now s r found running early in
    let again =
      receipt-received o device_id account_id check_id well notes' later
        (close_received r notes now s)
        (received_row o device_id account_id check_id well r notes now)
        (close_received-found o device_id account_id check_id well notes now s r found running)
        refl in
    (first.0, rw first.1 again.0, rw first.1 again.1)
