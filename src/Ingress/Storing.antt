-- ===== src/Ingress/Storing.antt =====
-- src/ingress/service.ts: what is stored and what is capped.
use critalarm_server.Prelude.{
  ℕ, ◌==◌, ◌||◌, not, leb, Bool, true, false, String, ◌&&◌, ◌≡◌, refl, ◌≢◌, Option, none, some,
  List, [], ◌∷◌, ◌++◌, ◌⊎◌, inl, inr, arith, Bool-cases,
}
use mathlib.Core.Path.{subst}
use critalarm_server.Incident.Types.{
  opened, acked, DeliveryEvent, MessageRecord, IncidentRow, Store, IdGenerator,
}
use critalarm_server.Incident.Statements.{active_incident}
use critalarm_server.Incident.Publish.{new_message, publish_critical}
use critalarm_server.Incident.Publishing.{publish_critical_effect}
use critalarm_server.Tier.P4Usage.{daily_cap, used, day_start, charge_p4}
use critalarm_server.Ingress.Types.{
  PublishInput, TopicRecord, ServerMode, selfhosted, relay_server, hosted_server, Dispatched,
  IngressState, over_cap,
}
use critalarm_server.Ingress.Publish.{
  is_heads_up, is_alarm, has_caps, title_or, publication, Stored, publish_alarm, store_message,
  plain_message, publish_standard, store_and_route, deliver, charged, publish,
}

-- The incident of the message: the topic's active one for an alarm, priority 5 on a critical topic,
-- and none for any other message.
abbrev pub Belongs : TopicRecord → PublishInput → Store → Option ℕ → Type 0
Belongs topic input s' incident_id =
    ((((input.priority == 5) && topic.critical) ≡ false) × (incident_id ≡ none))
    ⊎ ((((input.priority == 5) && topic.critical) ≡ true)
        × ((row : IncidentRow) × (active_incident topic.id s' ≡ some row)
            × (row.topic_id ≡ topic.id)
            × ((row.state ≡ opened) ⊎ (row.state ≡ acked))
            × (incident_id ≡ some row.id)))

-- The title that was sent, or the name of the topic where none was.
abbrev pub IsTitled : Option String → (name : String) → String → Type 0
IsTitled none name t = t ≡ name
IsTitled (some sent) name t = t ≡ sent

title_or-IsTitled : (sent : Option String) (name : String) → IsTitled sent name (title_or sent name)
title_or-IsTitled none name = refl
title_or-IsTitled (some t) name = refl

-- The message that a publish was asked to keep, in the store that it leaves.
pub record IsAsked (topic : TopicRecord) (input : PublishInput) (now : ℕ) (s' : Store)
    (m : MessageRecord) : Type 0 where
  pub topic_id : m.topic_id ≡ topic.id
  pub title : IsTitled input.title topic.name m.title
  pub body : m.body ≡ input.message
  pub priority : m.priority ≡ input.priority
  pub tags : m.tags ≡ input.tags
  pub click : m.click ≡ input.click
  pub markdown : m.markdown ≡ input.markdown
  pub incident : Belongs topic input s' m.incident_id
  pub created_at : m.created_at ≡ now

abbrev pub Keeps : TopicRecord → PublishInput → ℕ → Store → Store → Type 0
Keeps topic input now s s' =
    (m : MessageRecord) × (s'.messages ≡ s.messages ++ m ∷ []) × IsAsked topic input now s' m

publish_alarm-Keeps :
    (g : IdGenerator) (now : ℕ) (topic : TopicRecord) (input : PublishInput) (s : Store)
    → ((input.priority == 5) && topic.critical) ≡ true
    → Keeps topic input now s
        (publish_alarm g now topic input (title_or input.title topic.name) s).1
unfolding publish_alarm publish_critical new_message
publish_alarm-Keeps g now topic input s alarm =
    let p = publication topic input (title_or input.title topic.name) in
    let (row, active, of_topic, state, same, last, linked, added) =
      publish_critical_effect g now p s in
    (
      (publish_critical g now p s).0.message,
      added,
      record {
        topic_id = refl;
        title = title_or-IsTitled input.title topic.name;
        body = refl;
        priority = ground (arith, alarm);
        created_at = refl;
        tags = refl;
        click = refl;
        markdown = refl;
        incident = inr (alarm, (row, active, of_topic, state, linked));
      },
    )

publish_standard-Keeps :
    (g : IdGenerator) (now : ℕ) (topic : TopicRecord) (input : PublishInput) (s : Store)
    → ((input.priority == 5) && topic.critical) ≡ false
    → Keeps topic input now s
        (publish_standard g now topic input (title_or input.title topic.name) s).1
unfolding publish_standard store_message plain_message
publish_standard-Keeps g now topic input s other = (
  plain_message (g.message s.drawn) now topic input (title_or input.title topic.name),
  refl,
  record {
    topic_id = refl;
    title = title_or-IsTitled input.title topic.name;
    body = refl;
    priority = refl;
    created_at = refl;
    tags = refl;
    click = refl;
    markdown = refl;
    incident = inl (other, refl);
  },
)

store_and_route-Keeps :
    (g : IdGenerator) (now : ℕ) (topic : TopicRecord) (input : PublishInput) (s : Store)
    → Keeps topic input now s (store_and_route g now topic input s).1
unfolding store_and_route is_alarm
store_and_route-Keeps g now topic input s =
    elim (Bool-cases ((input.priority == 5) && topic.critical)) [
      | inl alarm ↦ rw alarm (publish_alarm-Keeps g now topic input s alarm)
      | inr other ↦ rw other (publish_standard-Keeps g now topic input s other)
    ]

abbrev pub is_self_hosted : Option ServerMode → Bool
is_self_hosted (some selfhosted) = true
is_self_hosted _ = false

has_caps-is_self_hosted : (mode : Option ServerMode) → has_caps mode ≡ not (is_self_hosted mode)
has_caps-is_self_hosted none = refl
has_caps-is_self_hosted (some selfhosted) = refl
has_caps-is_self_hosted (some relay_server) = refl
has_caps-is_self_hosted (some hosted_server) = refl

-- The account has no heads-up left today, and the server counts them.
abbrev pub is_over : Option ServerMode → ℕ → TopicRecord → PublishInput → IngressState → Bool
is_over mode now topic input s =
    ((input.priority == 4) || ((input.priority == 5) && not topic.critical))
    && not (is_self_hosted mode)
    && leb (daily_cap topic.account_id s.accounts) (used topic.account_id (day_start now) s.usage)

charged-over :
    (mode : Option ServerMode) (now : ℕ) (topic : TopicRecord) (input : PublishInput)
    (s : IngressState)
    → is_over mode now topic input s ≡ true
    → charged mode now topic input s ≡ none
unfolding charged charge_p4 is_heads_up
charged-over mode now topic input s over = ground (arith, over, has_caps-is_self_hosted mode)

charged-within :
    (mode : Option ServerMode) (now : ℕ) (topic : TopicRecord) (input : PublishInput)
    (s : IngressState)
    → is_over mode now topic input s ≡ false
    → (s' : IngressState) × (charged mode now topic input s ≡ some s') × (s'.store ≡ s.store)
unfolding charged charge_p4 is_heads_up
charged-within mode now topic input s within =
    elim (Bool-cases (is_heads_up topic input && has_caps mode)) [
      | inr uncapped ↦ (s, rw uncapped refl, refl)
      | inl capped ↦
          let usage = (charge_p4 s.accounts now topic.account_id s.usage).1 in
          (
            record s { usage = usage },
            ground (arith, capped, within, has_caps-is_self_hosted mode),
            refl,
          )
    ]

deliver-answers :
    (dispatch : List DeliveryEvent → Dispatched) (stored : Stored)
    → deliver dispatch stored ≢ over_cap
unfolding deliver
deliver-answers dispatch stored e = ground (arith, e)

-- A publish over the cap changes nothing at all. It is over the cap when it is a heads-up (priority
-- 4, or 5 on a topic that is not critical), the server is not self-hosted, and the account has used
-- its share of the day. Any other publish adds exactly one message, the one that was sent with all
-- its fields, to the end of the stored messages, also when its dispatch fails. An alarm's message
-- stands under the topic's active incident, and any other under none.
pub publish_stores :
    (g : IdGenerator) (dispatch : List DeliveryEvent → Dispatched) (mode : Option ServerMode)
    (now : ℕ) (topic : TopicRecord) (input : PublishInput) (s : IngressState)
    → let (reply, s') = publish g dispatch mode now topic input s in
      ((is_over mode now topic input s ≡ true) × (reply ≡ over_cap) × (s' ≡ s))
      ⊎ ((is_over mode now topic input s ≡ false)
          × (reply ≢ over_cap)
          × Keeps topic input now s.store s'.store)
unfolding publish
publish_stores g dispatch mode now topic input s =
    elim (Bool-cases (is_over mode now topic input s)) [
      | inl over ↦
          let e = charged-over mode now topic input s over in
          inl (over, rw (e, publish) refl, rw (e, publish) refl)
      | inr within ↦
          let (paid, e, same) = charged-within mode now topic input s within in
          let stored = (store_and_route g now topic input paid.store).0 in
          inr (
            within,
            rw (e, publish) (deliver-answers dispatch stored),
            rw (e, publish)
                (subst
                  (λ t. Keeps topic input now t (store_and_route g now topic input paid.store).1)
                  same (store_and_route-Keeps g now topic input paid.store)),
          )
    ]
