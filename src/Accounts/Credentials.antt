-- ===== src/Accounts/Credentials.antt =====
-- src/tier/auth.ts, the token shapes of src/tier/device-tokens.ts and src/tier/subscriptions.ts. The
-- comparison in constant time of two hashes that the query has found equal is left out.
use Prim.Native.Char.{Char, code}
use Prim.Native.String as S
use critalarm_server.Prelude.{
  ℕ, zero, suc, ◌==◌, leb, if◌then◌else◌, Bool, true, false, ◌&&◌, ◌||◌, String, str_eq, Option,
  none, some, List, [], ◌∷◌, ◌++◌, find_row, count_where, select,
}
use critalarm_server.Incident.Types.{TopicRow}
use critalarm_server.Check.Types.{Platform, android, fcm}
use critalarm_server.Push.Types.{SubscriptionRow, TokenKind, ring}
use critalarm_server.Accounts.Types.{AccountRow, DeviceRow, AccountStore, Issuer, Context}

abbrev between : ℕ → ℕ → Char → Bool
between low high c = leb low (code c) && leb (code c) high

abbrev is_alphanumeric : Char → Bool
is_alphanumeric c = between 48 57 c || between 65 90 c || between 97 122 c

-- [A-Za-z0-9_-]
abbrev pub is_bearer_char : Char → Bool
is_bearer_char c = is_alphanumeric c || (code c == 95) || (code c == 45)

-- [0-9A-Fa-f]
abbrev pub is_hex_char : Char → Bool
is_hex_char c = between 48 57 c || between 65 70 c || between 97 102 c

-- [A-Za-z0-9._~:-]
abbrev pub is_fcm_char : Char → Bool
is_fcm_char c =
    is_alphanumeric c
    || (code c == 46)
    || (code c == 95)
    || (code c == 126)
    || (code c == 58)
    || (code c == 45)

-- p{0,most}$
unfoldable pub all_of : (Char → Bool) → ℕ → String → Bool
all_of p most S.[] = true
all_of p zero (S.◌∷◌ c s) = false
all_of p (suc most) (S.◌∷◌ c s) = p c && all_of p most s

-- ^p{1,most}$
unfoldable pub some_of : (Char → Bool) → ℕ → String → Bool
some_of p most S.[] = false
some_of p most (S.◌∷◌ c s) = all_of p most (S.◌∷◌ c s)

-- p+$
unfoldable pub every : (Char → Bool) → String → Bool
every p S.[] = true
every p (S.◌∷◌ c s) = p c && every p s

-- ^<a><b>_[A-Za-z0-9_-]+$
unfoldable pub has_prefix : ℕ → ℕ → String → Bool
has_prefix a b (S.◌∷◌ x (S.◌∷◌ y (S.◌∷◌ z (S.◌∷◌ c s)))) =
    (code x == a) && (code y == b) && (code z == 95) && every is_bearer_char (S.◌∷◌ c s)
has_prefix a b _ = false

unfoldable pub apns_token_shape : String → Bool
apns_token_shape token = some_of is_hex_char 512 token

unfoldable pub fcm_token_shape : String → Bool
fcm_token_shape token = some_of is_fcm_char 4096 token

-- tokenSchemaForKind
unfoldable pub token_shape_for_kind : TokenKind → String → Bool
token_shape_for_kind (ring fcm) token = fcm_token_shape token
token_shape_for_kind _ token = apns_token_shape token

-- pushTokenSchemaFor
unfoldable pub push_token_shape_for : Platform → String → Bool
push_token_shape_for android token = fcm_token_shape token
push_token_shape_for _ token = apns_token_shape token

abbrev has_hash : String → Option String → Bool
has_hash hash none = false
has_hash hash (some stored) = str_eq stored hash

unfoldable pub authenticate_account_join : Issuer → AccountStore → Option String → Option AccountRow
authenticate_account_join issuer s none = none
authenticate_account_join issuer s (some bearer) =
    if has_prefix 97 106 bearer
    then find_row (λ a. has_hash (issuer.credential_hash bearer) a.join_token_hash) s.accounts
    else none

abbrev context_of : Option DeviceRow → Option Context
context_of none = none
context_of (some d) = some (record { account_id = d.account_id; device_id = d.id })

unfoldable pub authenticate_device : Issuer → AccountStore → Option String → Option Context
authenticate_device issuer s none = none
authenticate_device issuer s (some bearer) =
    if has_prefix 100 118 bearer
    then context_of
        (find_row (λ d. str_eq d.device_token_hash (issuer.credential_hash bearer)) s.devices)
    else none

-- INSERT OR IGNORE: the pair is the key.
unfoldable pub subscribe_row : ℕ → String → List SubscriptionRow → List SubscriptionRow
subscribe_row device_id topic_hash rows =
    if leb 1 (count_where (λ r. (r.device_id == device_id) && str_eq r.topic_hash topic_hash) rows)
    then rows
    else rows ++ record { device_id = device_id; topic_hash = topic_hash } ∷ []

unfoldable pub subscribe_topics : ℕ → List TopicRow → List SubscriptionRow → List SubscriptionRow
subscribe_topics device_id [] rows = rows
subscribe_topics device_id (t ∷ topics) rows =
    subscribe_topics device_id topics (subscribe_row device_id t.topic_hash rows)

unfoldable pub sweep_device_into_topics : ℕ → ℕ → AccountStore → AccountStore
sweep_device_into_topics account_id device_id s = record s {
  subscriptions =
      subscribe_topics device_id (select (λ t. t.account_id == account_id) s.engine.topics)
        s.subscriptions;
}

unfoldable pub subscribe_devices :
    String → List DeviceRow → List SubscriptionRow → List SubscriptionRow
subscribe_devices topic_hash [] rows = rows
subscribe_devices topic_hash (d ∷ devices) rows =
    subscribe_devices topic_hash devices (subscribe_row d.id topic_hash rows)

unfoldable pub sweep_topic_into_devices : ℕ → String → AccountStore → AccountStore
sweep_topic_into_devices account_id topic_hash s = record s {
  subscriptions =
      subscribe_devices topic_hash (select (λ d. d.account_id == account_id) s.devices)
        s.subscriptions;
}
