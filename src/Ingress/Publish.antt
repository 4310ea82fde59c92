-- ===== src/Ingress/Publish.antt =====
-- src/ingress/service.ts: `PublishService`. The clock is read once, and `dispatch` is an argument.
use critalarm_server.Prelude.{
  ℕ, ◌+◌, ◌==◌, ltb, leb, if◌then◌else◌, Bool, true, false, not, ◌&&◌, ◌||◌, String, Option, none,
  some, List, [], ◌∷◌, ◌++◌,
}
use critalarm_server.Incident.Types.{
  p4, p5, RelayContent, full, DeliveryEvent, CriticalPublication, MessageRecord, Store, IdGenerator,
}
use critalarm_server.Incident.Publish.{publish_critical}
use critalarm_server.Tier.P4Usage.{charge_p4}
use critalarm_server.Ingress.Types.{
  PublishInput, PublishResult, TopicRecord, ServerMode, selfhosted, Dispatched, silent, broken,
  counts, IngressState, Reply, answered, over_cap, dispatch_failed,
}

unfoldable pub is_heads_up : TopicRecord → PublishInput → Bool
is_heads_up topic input = (input.priority == 4) || ((input.priority == 5) && not topic.critical)

unfoldable pub is_alarm : TopicRecord → PublishInput → Bool
is_alarm topic input = (input.priority == 5) && topic.critical

-- mode !== "selfhosted"; the mode may be left out.
abbrev pub has_caps : Option ServerMode → Bool
has_caps (some selfhosted) = false
has_caps _ = true

abbrev pub title_or : Option String → String → String
title_or none name = name
title_or (some t) name = t

-- topic.relayContent === "full"
abbrev pub full_only : Option RelayContent → Option RelayContent
full_only (some full) = some full
full_only _ = none

unfoldable pub response : TopicRecord → PublishInput → String → ℕ → ℕ → Option ℕ → PublishResult
response topic input title id created_at incident_id = record {
  id = id;
  time = created_at;
  expires = created_at + 43200;
  topic = topic.name;
  title = title;
  message = input.message;
  priority = input.priority;
  tags = input.tags;
  click = input.click;
  markdown = input.markdown;
  incident_id = incident_id;
}

abbrev pub publication : TopicRecord → PublishInput → String → CriticalPublication
publication topic input title = record {
  topic_id = topic.id;
  topic_hash = topic.topic_hash;
  topic = topic.name;
  base_url = topic.base_url;
  repeat_interval_s = topic.repeat_interval_s;
  max_ring_s = topic.max_ring_s;
  desk_timer_s = topic.desk_timer_s;
  message = record {
    title = title;
    body = input.message;
    priority = 5;
    tags = input.tags;
    click = input.click;
    markdown = input.markdown;
  };
  relay_content = full_only topic.relay_content;
}

pub record Stored : Type 0 where
  pub response : PublishResult
  pub events : List DeliveryEvent

-- `private publishCritical`
unfoldable pub publish_alarm :
    IdGenerator → ℕ → TopicRecord → PublishInput → String → Store → Stored × Store
publish_alarm g now topic input title s =
    let (published, s') = publish_critical g now (publication topic input title) s in
    (
      record {
        response =
            response topic input title published.message.id published.message.created_at
              (some published.incident.id);
        events = published.events;
      },
      s',
    )

unfoldable pub plain_message : ℕ → ℕ → TopicRecord → PublishInput → String → MessageRecord
plain_message id now topic input title = record {
  id = id;
  topic_id = topic.id;
  incident_id = none;
  title = title;
  body = input.message;
  priority = input.priority;
  tags = input.tags;
  click = input.click;
  markdown = input.markdown;
  created_at = now;
}

-- `private store`
unfoldable pub store_message :
    IdGenerator → ℕ → TopicRecord → PublishInput → String → Store → MessageRecord × Store
store_message g now topic input title s =
    let m = plain_message (g.message s.drawn) now topic input title in
    (m, record s { messages = s.messages ++ m ∷ []; drawn = s.drawn + 1 })

unfoldable pub heads_up_event : TopicRecord → PublishInput → String → ℕ → DeliveryEvent
heads_up_event topic input title message_id = record {
  kind = if input.priority == 4 then p4 else p5;
  topic_hash = topic.topic_hash;
  topic = topic.name;
  incident_id = none;
  message_id = some message_id;
  priority = input.priority;
  max_ring_s = topic.max_ring_s;
  ring_until = none;
  server = topic.base_url;
  title = title;
  body = input.message;
  critical = false;
  relay_content = full_only topic.relay_content;
  account_id = none;
}

-- `private publishStandard`
unfoldable pub publish_standard :
    IdGenerator → ℕ → TopicRecord → PublishInput → String → Store → Stored × Store
publish_standard g now topic input title s =
    let (m, s') = store_message g now topic input title s in
    (
      record {
        response = response topic input title m.id m.created_at none;
        events = if leb 4 input.priority then heads_up_event topic input title m.id ∷ [] else [];
      },
      s',
    )

unfoldable pub store_and_route :
    IdGenerator → ℕ → TopicRecord → PublishInput → Store → Stored × Store
store_and_route g now topic input s =
    let title = title_or input.title topic.name in
    if is_alarm topic input
    then publish_alarm g now topic input title s
    else publish_standard g now topic input title s

abbrev pub failed_or_zero : Option ℕ → ℕ
failed_or_zero none = 0
failed_or_zero (some n) = n

abbrev pub reached_nobody : Dispatched → Bool
reached_nobody silent = false
reached_nobody broken = true
reached_nobody (counts delivered failed) = ltb 0 (failed_or_zero failed) && (delivered == 0)

unfoldable pub deliver : (List DeliveryEvent → Dispatched) → Stored → Reply
deliver dispatch stored = elim stored.events [
  | [] ↦ answered stored.response
  | _ ∷ _ ↦
      if reached_nobody (dispatch stored.events) then dispatch_failed else answered stored.response
]

-- What is charged before anything is stored: none when the account is over its cap.
unfoldable pub charged :
    Option ServerMode → ℕ → TopicRecord → PublishInput → IngressState → Option IngressState
charged mode now topic input s =
    let (paid, usage) = charge_p4 s.accounts now topic.account_id s.usage in
    if is_heads_up topic input && has_caps mode
    then (if paid then some (record s { usage = usage }) else none)
    else some s

unfoldable pub publish :
    IdGenerator
    → (List DeliveryEvent → Dispatched)
    → Option ServerMode
    → ℕ
    → TopicRecord
    → PublishInput
    → IngressState
    → Reply × IngressState
publish g dispatch mode now topic input s = elim (charged mode now topic input s) [
  | none ↦ (over_cap, s)
  | some s' ↦
      let (stored, store') = store_and_route g now topic input s'.store in
      (deliver dispatch stored, record s' { store = store' })
]
