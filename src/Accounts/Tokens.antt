-- ===== src/Accounts/Tokens.antt =====
-- src/tier/device-tokens.ts: the list of push tokens that the apps write.
use critalarm_server.Prelude.{
  ℕ, ◌==◌, if◌then◌else◌, Bool, true, false, not, ◌&&◌, String, str_eq, Option, none, some, List,
  [], ◌∷◌, find_row, delete_where,
}
use critalarm_server.Check.Statements.{is_null}
use critalarm_server.Push.Types.{DeviceTokenRow, TokenKind, ring, la_update}
use critalarm_server.Push.Dispatcher.{same_token_kind, is_macos}
use critalarm_server.Accounts.Types.{DeviceRow, AccountStore}
use critalarm_server.Accounts.Credentials.{token_shape_for_kind}

pub record TokenInput : Type 0 where
  pub kind : TokenKind
  pub token : String
  pub activity_id : Option String
  pub incident_id : Option ℕ

abbrev pub is_update_kind : TokenKind → Bool
is_update_kind la_update = true
is_update_kind _ = false

abbrev pub is_live_activity : TokenKind → Bool
is_live_activity (ring kind) = false
is_live_activity _ = true

-- activity_id: z.string().min(1).optional()
abbrev is_given : Option String → Bool
is_given none = true
is_given (some id) = not (str_eq id "")

-- tokenSchema.superRefine
unfoldable pub token_is_valid : TokenInput → Bool
token_is_valid input =
    token_shape_for_kind input.kind input.token
    && is_given input.activity_id
    && (if is_update_kind input.kind
        then not (is_null input.activity_id)
        else is_null input.activity_id && is_null input.incident_id)

abbrev on_macos : Option DeviceRow → Bool
on_macos none = false
on_macos (some d) = is_macos d.platform

abbrev activity_or_empty : Option String → String
activity_or_empty none = ""
activity_or_empty (some id) = id

abbrev pub same_slot : ℕ → TokenKind → String → DeviceTokenRow → Bool
same_slot device_id kind activity_id t =
    (t.device_id == device_id) && same_token_kind t.kind kind && str_eq t.activity_id activity_id

-- INSERT ... ON CONFLICT(device_id, kind, activity_id) DO UPDATE SET token, incident_id
unfoldable pub upsert_token : DeviceTokenRow → List DeviceTokenRow → List DeviceTokenRow
upsert_token row [] = row ∷ []
upsert_token row (t ∷ rows) =
    let rest = t ∷ upsert_token row rows in
    if same_slot row.device_id row.kind row.activity_id t
    then record t { token = row.token; incident_id = row.incident_id } ∷ rows
    else rest

-- False where it throws: a Mac holds no Live Activity token.
unfoldable pub put_device_token : ℕ → TokenInput → AccountStore → Bool × AccountStore
put_device_token device_id input s =
    if on_macos (find_row (λ d. d.id == device_id) s.devices) && is_live_activity input.kind
    then (false, s)
    else (
      true,
      record s {
        device_tokens =
            upsert_token
              (record {
                device_id = device_id;
                kind = input.kind;
                activity_id = activity_or_empty input.activity_id;
                incident_id = input.incident_id;
                token = input.token;
              })
              s.device_tokens;
      },
    )

unfoldable pub delete_device_tokens : ℕ → TokenKind → Option String → AccountStore → AccountStore
delete_device_tokens device_id kind none s = record s {
  device_tokens =
      delete_where (λ t. (t.device_id == device_id) && same_token_kind t.kind kind) s.device_tokens;
}
delete_device_tokens device_id kind (some activity_id) s = record s {
  device_tokens = delete_where (same_slot device_id kind activity_id) s.device_tokens;
}
