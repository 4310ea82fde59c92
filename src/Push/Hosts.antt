-- ===== src/Push/Hosts.antt =====
-- src/push/apns.ts: one retry of a request that fails on its way, and one turn to the other host for
-- a token that the first does not know.
use critalarm_server.Prelude.{
  ℕ, ◌+◌, ◌==◌, ◌≤◌, if◌then◌else◌, Bool, true, false, ◌&&◌, String, str_eq, Option, none, some,
  List, [], ◌∷◌, ◌++◌, ◌≡◌, ==_iff, eq_iff, ◌≢◌, ◌↔◌, ◌⊎◌, inl, inr, refl, Bool-cases, Option-cases,
  arith, count_where, count_where-append,
}
use mathlib.Core.Path.{subst}
use critalarm_server.Push.Types.{
  ApnsEnvironment, sandbox, production, PushDevice, PushResult, LiveActivityPush, Answer, answered,
  threw,
}
use critalarm_server.Incident.Types.{DeliveryEvent}
use critalarm_server.Push.Apns.{
  ApnsRequest, ApnsSenderOptions, ApnsProviderToken, get_token, request_for, activity_request,
}

-- `reason` is what `rejectionReason` finds in the body.
pub record ApnsTransportResponse : Type 0 where
  pub status : ℕ
  pub reason : String

-- The two hosts, given what was asked before in this push: an answer, or none where it throws.
abbrev pub ApnsTransport : Type 0
ApnsTransport = List ApnsEnvironment → ApnsEnvironment → ApnsRequest → Option ApnsTransportResponse

abbrev pub other_host : ApnsEnvironment → ApnsEnvironment
other_host sandbox = production
other_host production = sandbox

abbrev pub is_host : ApnsEnvironment → ApnsEnvironment → Bool
is_host sandbox sandbox = true
is_host production production = true
is_host _ _ = false

abbrev pub wrong_environment : ApnsTransportResponse → Bool
wrong_environment response = (response.status == 400) && str_eq response.reason "BadDeviceToken"

abbrev pub push_result : ApnsEnvironment → ApnsTransportResponse → PushResult
push_result environment response = record {
  status = response.status;
  stale = response.status == 410;
  apns_environment = some environment;
}

-- The hosts asked so far come back with the answer.
unfoldable pub send_with_retry :
    ApnsTransport
    → List ApnsEnvironment
    → ApnsEnvironment
    → ApnsRequest
    → Option ApnsTransportResponse × List ApnsEnvironment
send_with_retry transport asked environment request =
    let asked' = asked ++ environment ∷ [] in
    elim (transport asked environment request) [
      | some response ↦ (some response, asked')
      | none ↦ (transport asked' environment request, asked' ++ environment ∷ [])
    ]

abbrev pub answer_of : ApnsEnvironment → Option ApnsTransportResponse → Answer
answer_of environment none = threw
answer_of environment (some response) = answered (push_result environment response)

-- `push` after its first attempt.
unfoldable pub after_first :
    ApnsTransport
    → ApnsEnvironment
    → ApnsRequest
    → Option ApnsTransportResponse × List ApnsEnvironment
    → Answer × List ApnsEnvironment
after_first transport environment request (none, asked) = (threw, asked)
after_first transport environment request (some response, asked) =
    let other = other_host environment in
    let (second, asked') = send_with_retry transport asked other request in
    if wrong_environment response
    then (answer_of other second, asked')
    else (answered (push_result environment response), asked)

unfoldable pub push_request :
    ApnsTransport → ApnsEnvironment → ApnsRequest → Answer × List ApnsEnvironment
push_request transport environment request =
    after_first transport environment request (send_with_retry transport [] environment request)

abbrev host_or : ApnsEnvironment → Option ApnsEnvironment → ApnsEnvironment
host_or configured none = configured
host_or configured (some environment) = environment

-- ApnsSender.send and ApnsSender.sendLiveActivity, with the provider token's state.
unfoldable pub apns_send :
    (ℕ → String)
    → ApnsTransport
    → ApnsSenderOptions
    → ℕ
    → PushDevice
    → DeliveryEvent
    → ApnsProviderToken
    → (Answer × List ApnsEnvironment) × ApnsProviderToken
apns_send sign transport options now device event t =
    let (bearer, t') = get_token sign now t in
    (
      push_request transport (host_or options.environment device.apns_environment)
          (request_for options bearer now device event),
      t',
    )

unfoldable pub send_live_activity :
    (ℕ → String)
    → ApnsTransport
    → ApnsSenderOptions
    → ℕ
    → LiveActivityPush
    → ApnsProviderToken
    → (Answer × List ApnsEnvironment) × ApnsProviderToken
send_live_activity sign transport options now push t =
    let (bearer, t') = get_token sign now t in
    (
      push_request transport (host_or options.environment push.apns_environment)
          (activity_request options bearer now push),
      t',
    )

abbrev pub asks : ApnsEnvironment → List ApnsEnvironment → ℕ
asks environment asked = count_where (is_host environment) asked

-- A retry asks its own host once or twice, and no other.
record Retried (asked asked' : List ApnsEnvironment) (environment : ApnsEnvironment) : Type 0 where
  own_least : asks environment asked + 1 ≤ asks environment asked'
  own_most : asks environment asked' ≤ asks environment asked + 2
  other_same : asks (other_host environment) asked' ≡ asks (other_host environment) asked

asks-append :
    (h environment : ApnsEnvironment) (asked : List ApnsEnvironment)
    → asks h (asked ++ environment ∷ []) ≡ asks h asked + (if is_host h environment then 1 else 0)
unfolding count_where
asks-append h environment asked =
    rw (count_where-append (is_host h) asked (environment ∷ [])) (omega arith)

is_host_self : (environment : ApnsEnvironment) → is_host environment environment ≡ true
is_host_self sandbox = refl
is_host_self production = refl

is_host_other :
    (environment : ApnsEnvironment) → is_host (other_host environment) environment ≡ false
is_host_other sandbox = refl
is_host_other production = refl

other_host_twice :
    (environment : ApnsEnvironment) → other_host (other_host environment) ≡ environment
other_host_twice sandbox = refl
other_host_twice production = refl

send_with_retry-Retried :
    (transport : ApnsTransport) (asked : List ApnsEnvironment) (environment : ApnsEnvironment)
    (request : ApnsRequest)
    → Retried asked (send_with_retry transport asked environment request).1 environment
unfolding send_with_retry
send_with_retry-Retried transport asked environment request =
    let one : List ApnsEnvironment = asked ++ environment ∷ [] in
    let own = asks-append environment environment asked in
    let own' = asks-append environment environment one in
    let foreign = asks-append (other_host environment) environment asked in
    let foreign' = asks-append (other_host environment) environment one in
    let same = is_host_self environment in
    let apart = is_host_other environment in
    elim (Option-cases (transport asked environment request)) [
      | inl e ↦
          rw (e, send_with_retry)
            (record {
              own_least = ground (arith, own, own', same);
              own_most = ground (arith, own, own', same);
              other_same = ground (arith, foreign, foreign', apart);
            })
      | inr (response, e) ↦
          rw (e, send_with_retry)
            (record {
              own_least = ground (arith, own, same);
              own_most = ground (arith, own, same);
              other_same = ground (arith, foreign, apart);
            })
    ]

-- What a host comes to: its first answer, or the one to the retry where the first try throws.
abbrev pub tried :
    ApnsTransport
    → List ApnsEnvironment
    → ApnsEnvironment
    → ApnsRequest
    → Option ApnsTransportResponse
tried transport asked environment request = elim (transport asked environment request) [
  | some response ↦ some response
  | none ↦ transport (asked ++ environment ∷ []) environment request
]

-- The hosts that were asked when the first is done.
abbrev pub tries : ApnsTransport → ApnsEnvironment → ApnsRequest → List ApnsEnvironment
tries transport environment request = elim (transport [] environment request) [
  | some response ↦ environment ∷ []
  | none ↦ environment ∷ environment ∷ []
]

-- The result of a push is what this host came to: its status, stale exactly for a 410.
abbrev pub IsAnswer : ApnsEnvironment → Option ApnsTransportResponse → Answer → Type 0
IsAnswer environment none threw = Unit
IsAnswer environment none (answered result) = ⊥
IsAnswer environment (some response) threw = ⊥
IsAnswer environment (some response) (answered result) =
    (result.status ≡ response.status)
    × (result.apns_environment ≡ some environment)
    × ((result.stale ≡ true) ↔ (response.status ≡ 410))

-- The host answered that the token is not its own.
abbrev pub IsForeign : Option ApnsTransportResponse → Type 0
IsForeign none = ⊥
IsForeign (some response) = (response.status ≡ 400) × (response.reason ≡ "BadDeviceToken")

abbrev pub NotForeign : Option ApnsTransportResponse → Type 0
NotForeign none = Unit
NotForeign (some response) = (response.status ≢ 400) ⊎ (response.reason ≢ "BadDeviceToken")

-- Either the first host's answer is the result, or it says that the token is foreign, and then the
-- other host's is.
abbrev pub Settled :
    ApnsTransport
    → ApnsEnvironment
    → ApnsRequest
    → Option ApnsTransportResponse
    → List ApnsEnvironment
    → Answer × List ApnsEnvironment
    → Type 0
Settled transport environment request first asked x =
    (NotForeign first × IsAnswer environment first x.0 × (x.1 ≡ asked))
    ⊎ (IsForeign first
        × IsAnswer (other_host environment) (tried transport asked (other_host environment) request)
            x.0
        × (1 ≤ asks (other_host environment) x.1))

pub record Pushed (transport : ApnsTransport) (environment : ApnsEnvironment)
    (request : ApnsRequest) (first : Option ApnsTransportResponse) (asked : List ApnsEnvironment)
    (x : Answer × List ApnsEnvironment) : Type 0 where
  pub first_host : asks environment x.1 ≤ 2
  pub other_host_most : asks (other_host environment) x.1 ≤ 2
  pub settled : Settled transport environment request first asked x

answer_of-IsAnswer :
    (environment : ApnsEnvironment) (response : Option ApnsTransportResponse)
    → IsAnswer environment response (answer_of environment response)
answer_of-IsAnswer environment none = tt
answer_of-IsAnswer environment (some response) = (refl, refl, ==_iff response.status 410)

wrong_environment-IsForeign :
    (response : ApnsTransportResponse)
    → wrong_environment response ≡ true
    → IsForeign (some response)
wrong_environment-IsForeign response h =
    (ground (arith, h), (eq_iff response.reason "BadDeviceToken").0 (ground (arith, h)))

wrong_environment-NotForeign :
    (response : ApnsTransportResponse)
    → wrong_environment response ≡ false
    → NotForeign (some response)
wrong_environment-NotForeign response h = elim (Bool-cases (response.status == 400)) [
  | inr e ↦ inl (λ same. ground (arith, e, same))
  | inl e ↦ inr (λ same. ground (arith, h, e, (eq_iff response.reason "BadDeviceToken").1 same))
]

send_with_retry-tried :
    (transport : ApnsTransport) (asked : List ApnsEnvironment) (environment : ApnsEnvironment)
    (request : ApnsRequest)
    → (send_with_retry transport asked environment request).0
      ≡ tried transport asked environment request
unfolding send_with_retry
send_with_retry-tried transport asked environment request =
    elim (Option-cases (transport asked environment request)) [
      | inl e ↦ rw (e, send_with_retry, tried) refl
      | inr (response, e) ↦ rw (e, send_with_retry, tried) refl
    ]

send_with_retry-tries :
    (transport : ApnsTransport) (environment : ApnsEnvironment) (request : ApnsRequest)
    → (send_with_retry transport [] environment request).1 ≡ tries transport environment request
unfolding send_with_retry
send_with_retry-tries transport environment request =
    elim (Option-cases (transport [] environment request)) [
      | inl e ↦ rw (e, send_with_retry, tries) refl
      | inr (response, e) ↦ rw (e, send_with_retry, tries) refl
    ]

after_first-Pushed :
    (transport : ApnsTransport) (environment : ApnsEnvironment) (request : ApnsRequest)
    (first : Option ApnsTransportResponse) (asked : List ApnsEnvironment)
    → Retried [] asked environment
    → Pushed transport environment request first asked
        (after_first transport environment request (first, asked))
unfolding after_first count_where
after_first-Pushed transport environment request none asked h = record {
  first_host = ground (arith, h.own_most);
  other_host_most = ground (arith, h.other_same);
  settled = inl (tt, tt, refl);
}
after_first-Pushed transport environment request (some response) asked h =
    let other = other_host environment in
    let (second, asked') = send_with_retry transport asked other request in
    let again = send_with_retry-Retried transport asked other request in
    elim (Bool-cases (wrong_environment response)) [
      | inr e ↦ rw e (record {
        first_host = ground (arith, h.own_most);
        other_host_most = ground (arith, h.other_same);
        settled = inl (
          wrong_environment-NotForeign response e,
          answer_of-IsAnswer environment (some response),
          refl,
        );
      })
      | inl e ↦ rw e (record {
        first_host = ground (arith, h.own_most, again.other_same, other_host_twice environment);
        other_host_most = ground (arith, h.other_same, again.own_most);
        settled = inr (
          wrong_environment-IsForeign response e,
          subst (λ t. IsAnswer other t (answer_of other second))
              (send_with_retry-tried transport asked other request)
              (answer_of-IsAnswer other second),
          ground (arith, again.own_least),
        );
      })
    ]

-- Whatever the two hosts answer, a push asks each of them at most twice. Its result is what the first
-- host came to, its answer or the one to a retry, and then no other host was asked, unless that
-- answered 400 with the reason BadDeviceToken: then the result is what the other host came to. It
-- carries that host's name and status, and is stale exactly when the status is 410.
pub push_request_bounded :
    (transport : ApnsTransport) (environment : ApnsEnvironment) (request : ApnsRequest)
    → Pushed transport environment request
        (tried transport [] environment request)
        (tries transport environment request)
        (push_request transport environment request)
unfolding push_request
push_request_bounded transport environment request =
    let x = send_with_retry transport [] environment request in
    subst
      (λ t.
        Pushed transport environment request t (tries transport environment request)
          (push_request transport environment request))
      (send_with_retry-tried transport [] environment request)
      (subst
        (λ t.
          Pushed transport environment request x.0 t (push_request transport environment request))
        (send_with_retry-tries transport environment request)
        (after_first-Pushed transport environment request x.0 x.1
          (send_with_retry-Retried transport [] environment request)))
