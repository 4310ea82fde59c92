-- ===== src/Check/Scan/Departures.antt =====
-- src/check/scheduler.ts and src/push/check.ts: which checks leave, and how many.
use critalarm_server.Prelude.{
  if_both, ◌&&◌, select, sort_by, ℕ, ◌+◌, ◌*◌, ◌≤◌, leb, true, Option, none, some, String, List, [],
  ◌∷◌, ◌++◌, ◌≡◌, refl, sym, ap, ◌∙◌, ◌⊎◌, inl, inr, Bool-cases, Option-cases, arith, length,
  length-take, map, All, All-append, All-imp, ltb,
}
use mathlib.Core.Path.{subst}
use critalarm_server.Check.Confirm.{confirm_yes}
use critalarm_server.Check.Types.{PlannedCheck, CheckStore, Outside, StateRow}
use critalarm_server.Check.Plan.{
  Planned, nothing, thrown, push, due_by, due_first, due, due_rows, plan, confirm,
}
use critalarm_server.Check.Scan.Senders.{
  ProviderResponse, CheckAnswer, Departure, Handing, Scan, ScanWorld, wait, wanted, depart,
  ask_other, after_first_answer, apns_send_check, fetch_access, access_from, check_access_token,
  post_with, fcm_send_check, send_check, bad_device_token, is_android, CachedAccess,
}
use critalarm_server.Check.Scan.{
  scan_batch, scan_budget_ms, flush, send_planned, scan_one, scan_each, scan,
}

-- The push is one of those that were handed out.
abbrev pub Among : PlannedCheck → List Handing → Type 0
Among p [] = ⊥
Among p (h ∷ hs) = (h.planned ≡ p) ⊎ Among p hs

-- `plan` has handed out the push, on the store and at the second that it was asked at.
abbrev pub WasHanded : Outside → Handing → Type 0
WasHanded o h = (plan o h.device_id h.at h.before).0 ≡ push h.planned

-- What is asked of a request that has left.
abbrev pub MayLeave : List Handing → Departure → Type 0
MayLeave hs d = ((confirm d.planned d.at d.before).0 ≡ true) × Among d.planned hs

-- What has left so far, while the pushes `hs` have been handed out.
record Sent (most : ℕ) (hs : List Handing) (x : Scan) : Type 0 where
  may : All (MayLeave hs) x.departures
  bounded : length x.departures ≤ most
  same : x.handings ≡ hs

length_snoc {ℓ} : {A : Type ℓ} (xs : List A) (x : A) → length (xs ++ x ∷ []) ≡ length xs + 1
length_snoc [] x = refl
length_snoc (y ∷ xs) x = omega (arith, length_snoc xs x)

-- Once it has said yes, `confirm` has written nothing.
confirm_again :
    (p : PlannedCheck) (now : ℕ) (s : CheckStore)
    → (confirm p now s).0 ≡ true
    → (confirm p now (confirm p now s).1).0 ≡ true
confirm_again p now s e =
    let (r, st, d, c, same) = confirm_yes p now s e in
    subst (λ t. (confirm p now t).0 ≡ true) (sym same) e

depart-Sent :
    (w : ScanWorld) (p : PlannedCheck) (host : Option String) (x : Scan) (most : ℕ)
    (hs : List Handing)
    → (wanted w p x).0 ≡ true
    → Among p hs
    → Sent most hs x
    → Sent (most + 1) hs (depart w p host (wanted w p x).1)
unfolding depart wait wanted
depart-Sent w p host x most hs yes_now among s = record {
  may =
      All-append (MayLeave hs) x.departures _ s.may
        ((confirm_again p (w.now x.step) x.store yes_now, among), tt);
  bounded = omega (arith, s.bounded, length_snoc x.departures _);
  same = s.same;
}

Sent-most : (m n : ℕ) (hs : List Handing) (x : Scan) → m ≤ n → Sent m hs x → Sent n hs x
Sent-most m n hs x h s = record {
  may = s.may;
  bounded = omega (arith, h, s.bounded);
  same = s.same;
}

wanted-Sent :
    (w : ScanWorld) (p : PlannedCheck) (x : Scan) (m n : ℕ) (hs : List Handing)
    → m ≤ n
    → Sent m hs x
    → Sent n hs (wanted w p x).1
unfolding wanted
wanted-Sent w p x m n hs h s = record {
  may = s.may;
  bounded = omega (arith, h, s.bounded);
  same = s.same;
}

ask_other-Sent :
    (w : ScanWorld) (p : PlannedCheck) (other : String) (x : Scan) (most : ℕ) (hs : List Handing)
    → Among p hs
    → Sent most hs x
    → Sent (most + 1) hs (ask_other w p other x).1
unfolding ask_other
ask_other-Sent w p other x most hs among s = elim (Bool-cases (wanted w p x).0) [
  | inl e ↦ rw e (depart-Sent w p (some other) x most hs e among s)
  | inr e ↦ rw e (wanted-Sent w p x most (most + 1) hs (omega arith) s)
]

after_first_answer-Sent :
    (w : ScanWorld) (p : PlannedCheck) (environment : String) (r : Option ProviderResponse)
    (x : Scan) (most : ℕ) (hs : List Handing)
    → Among p hs
    → Sent most hs x
    → Sent (most + 1) hs (after_first_answer w p environment r x).1
unfolding after_first_answer
after_first_answer-Sent w p environment none x most hs among s =
    Sent-most most (most + 1) hs x (omega arith) s
after_first_answer-Sent w p environment (some r) x most hs among s =
    elim (Bool-cases (bad_device_token r)) [
      | inl e ↦ rw e (ask_other-Sent w p _ x most hs among s)
      | inr e ↦ rw e (Sent-most most (most + 1) hs x (omega arith) s)
    ]

apns_send_check-Sent :
    (w : ScanWorld) (p : PlannedCheck) (x : Scan) (most : ℕ) (hs : List Handing)
    → Among p hs
    → Sent most hs x
    → Sent (most + 2) hs (apns_send_check w p x).1
unfolding apns_send_check
apns_send_check-Sent w p x most hs among s = elim (Bool-cases (wanted w p x).0) [
  | inr e ↦ rw e (wanted-Sent w p x most (most + 2) hs (omega arith) s)
  | inl e ↦ rw e (
      Sent-most (most + 1 + 1) (most + 2) hs _ (omega arith) (
        after_first_answer-Sent w p _ _ _ (most + 1) hs among
          (depart-Sent w p _ x most hs e among s)))
]

fetch_access-Sent :
    (w : ScanWorld) (x : Scan) (most : ℕ) (hs : List Handing)
    → Sent most hs x
    → Sent most hs (fetch_access w x).1
unfolding fetch_access wait
fetch_access-Sent w x most hs s = elim (Option-cases (w.fcm_access x.step)) [
  | inl e ↦ rw (e, fetch_access) (record { may = s.may; bounded = s.bounded; same = s.same })
  | inr (token, e) ↦
      rw (e, fetch_access) (record { may = s.may; bounded = s.bounded; same = s.same })
]

access_from-Sent :
    (w : ScanWorld) (c : Option CachedAccess) (x : Scan) (most : ℕ) (hs : List Handing)
    → Sent most hs x
    → Sent most hs (access_from w c x).1
unfolding access_from wait
access_from-Sent w none x most hs s = fetch_access-Sent w x most hs s
access_from-Sent w (some c) x most hs s =
    if_both (λ (t : Option String × Scan). Sent most hs t.1) (ltb (w.now x.step + 60) c.expires_at)
      _ _ (record { may = s.may; bounded = s.bounded; same = s.same })
      (fetch_access-Sent w x most hs s)

post_with-Sent :
    (w : ScanWorld) (p : PlannedCheck) (t : Option String × Scan) (most : ℕ) (hs : List Handing)
    → Among p hs
    → Sent most hs t.1
    → Sent (most + 2) hs (post_with w p t).1
unfolding post_with
post_with-Sent w p (none, x) most hs among s = Sent-most most (most + 2) hs x (omega arith) s
post_with-Sent w p (some token, x) most hs among s = elim (Bool-cases (wanted w p x).0) [
  | inr e ↦ rw e (wanted-Sent w p x most (most + 2) hs (omega arith) s)
  | inl e ↦ rw e (
      Sent-most (most + 1) (most + 2) hs _ (omega arith) (depart-Sent w p none x most hs e among s))
]

send_check-Sent :
    (w : ScanWorld) (p : PlannedCheck) (x : Scan) (most : ℕ) (hs : List Handing)
    → Among p hs
    → Sent most hs x
    → Sent (most + 2) hs (send_check w p x).1
unfolding send_check fcm_send_check check_access_token
send_check-Sent w p x most hs among s =
    let P = λ (t : CheckAnswer × Scan). Sent (most + 2) hs t.1 in
    let unsent = Sent-most most (most + 2) hs x (omega arith) s in
    if_both P (is_android p.platform) _ _
      (if_both P w.fcm_configured _ _
        (post_with-Sent w p (access_from w x.cached x) most hs among
          (access_from-Sent w x.cached x most hs s))
        unsent)
      (if_both P w.apns_configured _ _ (apns_send_check-Sent w p x most hs among s) unsent)

-- What the pass has handed out, one push for each that it counts, and sent, at most two requests for
-- each.
record Counted (w : ScanWorld) (t : ℕ × Scan) : Type 0 where
  sent : Sent (t.0 * 2) t.1.handings t.1
  handed : All (WasHanded w.outside) t.1.handings
  counted : length t.1.handings ≡ t.0

Among-last : (hs : List Handing) (h : Handing) → Among h.planned (hs ++ h ∷ [])
Among-last [] h = inl refl
Among-last (x ∷ hs) h = inr (Among-last hs h)

Among-more : (p : PlannedCheck) (hs more : List Handing) → Among p hs → Among p (hs ++ more)
Among-more p [] more h = absurd h
Among-more p (x ∷ hs) more (inl e) = inl e
Among-more p (x ∷ hs) more (inr h) = inr (Among-more p hs more h)

send_planned-Counted :
    (w : ScanWorld) (device_id : ℕ) (next : Planned × CheckStore) (planned : ℕ) (x : Scan)
    → ((p : PlannedCheck)
        → next.0 ≡ push p
        → (plan w.outside device_id (w.now x.step) x.store).0 ≡ push p)
    → Counted w (planned, x)
    → Counted w (send_planned w device_id next planned x)
unfolding send_planned
send_planned-Counted w device_id (nothing, s) planned x handed c = record {
  sent = record { may = c.sent.may; bounded = c.sent.bounded; same = refl };
  handed = c.handed;
  counted = c.counted;
}
send_planned-Counted w device_id (thrown, s) planned x handed c = record {
  sent = record { may = c.sent.may; bounded = c.sent.bounded; same = refl };
  handed = c.handed;
  counted = c.counted;
}
send_planned-Counted w device_id (push p, s) planned x handed c =
    let h : Handing = record {
      device_id = device_id;
      at = w.now x.step;
      before = x.store;
      planned = p;
    } in
    let hs : List Handing = x.handings ++ h ∷ [] in
    let x' : Scan = record x { store = s; handings = hs } in
    let s' = send_check-Sent w p x' (planned * 2) hs (Among-last x.handings h) (record {
      may =
          All-imp x.departures (λ d m. (m.0, Among-more d.planned x.handings (h ∷ []) m.1))
            c.sent.may;
      bounded = c.sent.bounded;
      same = refl;
    }) in
    let after = (send_check w p x').1 in
    record {
      sent = record {
        may = subst (λ t. All (MayLeave t) after.departures) (sym s'.same) s'.may;
        bounded = omega (arith, s'.bounded);
        same = refl;
      };
      handed =
          subst (All (WasHanded w.outside)) (sym s'.same)
            (All-append (WasHanded w.outside) x.handings _ c.handed (handed p refl, tt));
      counted = ap length s'.same ∙ length_snoc x.handings h ∙ omega (arith, c.counted);
    }

scan_one-Counted :
    (w : ScanWorld) (device_id planned : ℕ) (x : Scan)
    → Counted w (planned, x)
    → Counted w (scan_one w device_id planned x)
unfolding scan_one flush
scan_one-Counted w device_id planned x c =
    let x' = flush x in
    let now = w.now x'.step in
    send_planned-Counted w device_id (plan w.outside device_id now x'.store) planned x' (λ p e. e)
      (record {
        sent = record { may = c.sent.may; bounded = c.sent.bounded; same = refl };
        handed = c.handed;
        counted = c.counted;
      })

-- Each turn of the loop plans one push at most.
send_planned-one :
    (w : ScanWorld) (device_id : ℕ) (next : Planned × CheckStore) (planned : ℕ) (x : Scan)
    → (send_planned w device_id next planned x).0 ≤ planned + 1
unfolding send_planned
send_planned-one w device_id (nothing, s) planned x = omega arith
send_planned-one w device_id (thrown, s) planned x = omega arith
send_planned-one w device_id (push p, s) planned x = omega arith

scan_one-one :
    (w : ScanWorld) (device_id planned : ℕ) (x : Scan)
    → (scan_one w device_id planned x).0 ≤ planned + 1
unfolding scan_one
scan_one-one w device_id planned x = send_planned-one w device_id _ planned (flush x)

scan_each-Counted :
    (w : ScanWorld) (started_at : ℕ) (device_ids : List ℕ) (planned : ℕ) (x : Scan)
    → Counted w (planned, x)
    → Counted w (scan_each w started_at device_ids planned x)
unfolding scan_each
scan_each-Counted w started_at [] planned x c = c
scan_each-Counted w started_at (device_id ∷ device_ids) planned x c =
    let (planned', x') = scan_one w device_id planned x in
    if_both (Counted w) (leb (started_at + scan_budget_ms) (w.now_ms x.step)) _ _ c (
      scan_each-Counted w started_at device_ids planned' x'
        (scan_one-Counted w device_id planned x c))

scan_each-length :
    (w : ScanWorld) (started_at : ℕ) (device_ids : List ℕ) (planned : ℕ) (x : Scan)
    → (scan_each w started_at device_ids planned x).0 ≤ planned + length device_ids
unfolding scan_each
scan_each-length w started_at [] planned x = omega arith
scan_each-length w started_at (device_id ∷ device_ids) planned x =
    let (planned', x') = scan_one w device_id planned x in
    if_both (λ (t : ℕ × Scan). t.0 ≤ planned + length (device_id ∷ device_ids))
      (leb (started_at + scan_budget_ms) (w.now_ms x.step)) _ _ (omega arith)
      (omega (
        arith,
        scan_one-one w device_id planned x,
        scan_each-length w started_at device_ids planned' x',
      ))

length-map : (f : StateRow → ℕ) (rows : List StateRow) → length (map f rows) ≡ length rows
length-map f [] = refl
length-map f (r ∷ rows) = omega (arith, length-map f rows)

due-length : (limit now : ℕ) (s : CheckStore) → length (due limit now s) ≤ limit
unfolding due due_rows
due-length limit now s = omega (
  arith,
  length-map (λ r. r.device_id) (due_rows limit now s),
  length-take limit
      (sort_by due_first (select (λ r. r.enabled && due_by now r.next_attempt_at) s.device_checks)),
)

-- What a pass has done at its end.
pub record Passed (w : ScanWorld) (t : ℕ × Scan) : Type 0 where
  pub may_leave : All (MayLeave t.1.handings) t.1.departures
  pub two_each : length t.1.departures ≤ t.0 * 2
  pub was_handed : All (WasHanded w.outside) t.1.handings
  pub counted : length t.1.handings ≡ t.0
  pub batch : t.0 ≤ 100

-- Whatever the rest of the server does while a pass waits, and whatever the providers answer: each
-- request that the pass lets out carries a push that `plan` handed out in this pass, and `confirm`
-- said yes to it on the store and at the second at which it left. The pass hands out as many pushes
-- as it counts, at most a batch of a hundred, and lets out at most two requests for each.
pub scan_departures :
    (w : ScanWorld) (x : Scan) → x.departures ≡ [] → x.handings ≡ [] → Passed w (scan w x)
unfolding scan flush
scan_departures w x fresh unhanded =
    if_both (Passed w) x.running _ _
      (record {
        may_leave = rw fresh tt;
        two_each = rw fresh (omega arith);
        was_handed = rw unhanded tt;
        counted = rw unhanded refl;
        batch = omega arith;
      })
      (let x' = flush (record x { running = true }) in
        let device_ids = due scan_batch (w.now x'.step) x'.store in
        let c = scan_each-Counted w (w.now_ms x.step) device_ids 0 x' (record {
          sent = record { may = rw fresh tt; bounded = rw fresh (omega arith); same = refl };
          handed = rw unhanded tt;
          counted = rw unhanded refl;
        }) in
        record {
          may_leave = c.sent.may;
          two_each = c.sent.bounded;
          was_handed = c.handed;
          counted = c.counted;
          batch = omega (
            arith,
            scan_each-length w (w.now_ms x.step) device_ids 0 x',
            due-length scan_batch (w.now x'.step) x'.store,
          );
        })
