-- ===== src/Accounts/Devices/Capped.antt =====
-- src/tier/devices.ts: no call of a device takes an account past the device cap.
use critalarm_server.Prelude.{
  ℕ, ◌+◌, ◌==◌, ◌≤◌, ==_iff, leb, if_both, Bool, false, String, str_eq, Option, none, some, List,
  [], ◌∷◌, ◌≡◌, refl, sym, ap, ◌∙◌, inl, inr, Bool-cases, Option-cases, arith, find_row,
  count_where, count_where-append, count_where-update_where, update_where, delete_where,
}
use mathlib.Core.Path.{subst}
use critalarm_server.Tier.Caps.{Tier, free, relay, hosted, caps_for}
use critalarm_server.Check.Types.{Platform}
use critalarm_server.Accounts.Types.{DeviceRow, AccountStore, Issuer, Context}
use critalarm_server.Accounts.Credentials.{
  authenticate_device, authenticate_account_join, push_token_shape_for, sweep_device_into_topics,
}
use critalarm_server.Accounts.Devices.{
  RegistrationInput, DeviceUpdate, DeviceAccountRow, Registration, Updated, updated, refused_update,
  bad_token, account_for_context, set_alarm_token, devices_of, add_device,
  insert_device_for_account, check_due_after_new_token, write_update, update_found, update_device,
  delete_device, subscribe_device, unsubscribe_device, platform_or,
}
use critalarm_server.Accounts.Devices.Registering.{
  as_registration, register_for, register_alone, register_new, register_device, joined,
}

-- Every tier has the same device cap.
abbrev pub device_cap : ℕ
device_cap = (caps_for free).devices

cap_for_tier : (tier : Tier) → (caps_for tier).devices ≡ device_cap
cap_for_tier free = refl
cap_for_tier relay = refl
cap_for_tier hosted = refl

-- No account has more devices than the cap.
abbrev pub IsCapped : AccountStore → Type 0
IsCapped s = (account_id : ℕ) → devices_of account_id s ≤ device_cap

add_device-IsCapped :
    (issuer : Issuer) (input : RegistrationInput) (account_id now : ℕ) (s : AccountStore)
    → leb device_cap (devices_of account_id s) ≡ false
    → IsCapped s
    → IsCapped (add_device issuer input account_id now s)
unfolding add_device sweep_device_into_topics set_alarm_token count_where
add_device-IsCapped issuer input account_id now s room capped other =
    rw (count_where-append (λ (d : DeviceRow). d.account_id == other) s.devices _)
      (elim (Bool-cases (account_id == other)) [
        | inr e ↦ rw e (omega (arith, capped other))
        | inl e ↦ rw e (
            subst (λ n. devices_of n s + (1 + 0) ≤ device_cap) ((==_iff account_id other).0 e)
              (ground (arith, room)))
      ])

insert_device_for_account-IsCapped :
    (issuer : Issuer) (input : RegistrationInput) (account_id : ℕ) (tier : Tier)
    (join_token : Option String) (now : ℕ) (s : AccountStore)
    → IsCapped s
    → IsCapped (insert_device_for_account issuer input account_id tier join_token now s).1
unfolding insert_device_for_account
insert_device_for_account-IsCapped issuer input account_id tier join_token now s capped =
    elim (Bool-cases (leb (caps_for tier).devices (devices_of account_id s))) [
      | inl full ↦ rw full capped
      | inr room ↦ rw room (
          add_device-IsCapped issuer input account_id now s
            (ap (λ n. leb n (devices_of account_id s)) (sym (cap_for_tier tier)) ∙ room) capped)
    ]

write_update-IsCapped :
    (id : ℕ) (input : DeviceUpdate) (platform : Option Platform) (now : ℕ) (before : DeviceRow)
    (s : AccountStore)
    → IsCapped s
    → IsCapped (write_update id input platform now before s)
unfolding write_update set_alarm_token check_due_after_new_token
write_update-IsCapped id input platform now before s capped =
    let kept : (other : ℕ)
        → count_where (λ (d : DeviceRow). d.account_id == other)
            (update_where (λ d. d.id == id)
              (λ d. record d {
                push_token = input.push_token;
                app_version = input.app_version;
                last_seen = now;
                platform = platform_or platform d.platform;
              })
              s.devices)
          ≤ device_cap =
      λ other. omega (
        arith,
        capped other,
        count_where-update_where (λ (d : DeviceRow). d.id == id)
            (λ (d : DeviceRow). d.account_id == other)
            (λ d. record d {
              push_token = input.push_token;
              app_version = input.app_version;
              last_seen = now;
              platform = platform_or platform d.platform;
            })
            s.devices (λ d hit miss. miss),
      ) in
    if_both IsCapped (str_eq before.push_token input.push_token) _ _ kept kept

update_found-IsCapped :
    (id : ℕ) (input : DeviceUpdate) (platform : Option Platform) (now : ℕ) (context : Context)
    (before : Option DeviceRow) (s : AccountStore)
    → IsCapped s
    → IsCapped (update_found id input platform now context before s).1
unfolding update_found
update_found-IsCapped id input platform now context none s capped = capped
update_found-IsCapped id input platform now context (some before) s capped =
    if_both (λ (t : Updated × AccountStore). IsCapped t.1)
      (push_token_shape_for (platform_or platform before.platform) input.push_token) _ _
      (write_update-IsCapped id input platform now before s capped) capped

update_device-IsCapped :
    (issuer : Issuer) (id : ℕ) (input : DeviceUpdate) (bearer : Option String)
    (platform : Option Platform) (now : ℕ) (s : AccountStore)
    → IsCapped s
    → IsCapped (update_device issuer id input bearer platform now s).1
unfolding update_device
update_device-IsCapped issuer id input bearer platform now s capped =
    elim (Option-cases (authenticate_device issuer s bearer)) [
      | inl e ↦ rw (e, update_device) capped
      | inr (context, e) ↦
          rw (e, update_device)
            (if_both (λ (t : Updated × AccountStore). IsCapped t.1) (context.device_id == id) _ _
              (update_found-IsCapped id input platform now context
                (find_row (λ d. d.id == id) s.devices) s capped)
              capped)
    ]

as_registration-IsCapped :
    (x : Updated × AccountStore) → IsCapped x.1 → IsCapped (as_registration x).1
as_registration-IsCapped (updated a, s) h = h
as_registration-IsCapped (refused_update, s) h = h
as_registration-IsCapped (bad_token, s) h = h

register_for-IsCapped :
    (issuer : Issuer) (input : RegistrationInput) (now : ℕ) (a : Option DeviceAccountRow)
    (s : AccountStore)
    → IsCapped s
    → IsCapped (register_for issuer input now a s).1
unfolding register_for
register_for-IsCapped issuer input now none s capped = capped
register_for-IsCapped issuer input now (some a) s capped =
    insert_device_for_account-IsCapped issuer input a.account_id a.tier none now s capped

register_new-IsCapped :
    (issuer : Issuer) (input : RegistrationInput) (context : Option Context) (join : Option String)
    (now : ℕ) (s : AccountStore)
    → IsCapped s
    → IsCapped (register_new issuer input context join now s).1
unfolding register_new register_alone
register_new-IsCapped issuer input (some context) join now s capped =
    register_for-IsCapped issuer input now (account_for_context context s) s capped
register_new-IsCapped issuer input none (some join) now s capped =
    register_for-IsCapped issuer input now (joined (authenticate_account_join issuer s (some join)))
      s capped
register_new-IsCapped issuer input none none now s capped =
    if_both (λ (t : Registration × AccountStore). IsCapped t.1) _ _ _ capped
      (insert_device_for_account-IsCapped issuer input (issuer.account s.drawn) free _ now _ capped)

register_device-IsCapped :
    (issuer : Issuer) (input : RegistrationInput) (bearer : Option String)
    (context : Option Context) (join : Option String) (now : ℕ) (s : AccountStore)
    → IsCapped s
    → IsCapped (register_device issuer input bearer context join now s).1
unfolding register_device
register_device-IsCapped issuer input bearer context join now s capped =
    elim (Option-cases (find_row (λ d. d.id == input.device_id) s.devices)) [
      | inl e ↦
          rw (e, register_device) (register_new-IsCapped issuer input context join now s capped)
      | inr (d, e) ↦
          rw (e, register_device)
            (as_registration-IsCapped
              (update_device issuer input.device_id _ bearer (some input.platform) now s)
              (update_device-IsCapped issuer input.device_id _ bearer (some input.platform) now s
                capped))
    ]

count_where-deleted :
    (p q : DeviceRow → Bool) (rows : List DeviceRow)
    → count_where q (delete_where p rows) ≤ count_where q rows
unfolding count_where delete_where
count_where-deleted p q [] = omega arith
count_where-deleted p q (d ∷ rows) = ground (arith, count_where-deleted p q rows)

subscribe_device-IsCapped :
    (context : Context) (topic_hash : String) (s : AccountStore)
    → IsCapped s
    → IsCapped (subscribe_device context topic_hash s).1
unfolding subscribe_device
subscribe_device-IsCapped context topic_hash s capped =
    elim (Option-cases (account_for_context context s)) [
      | inl e ↦ rw (e, subscribe_device) capped
      | inr (a, e) ↦ rw (e, subscribe_device) capped
    ]

-- The calls of src/tier/devices.ts.
pub data DeviceCall : Type 0 where
  registers :
      (input : RegistrationInput) (bearer : Option String) (context : Option Context)
      (join : Option String) (now : ℕ)
      → DeviceCall
  updates :
      (id : ℕ) (input : DeviceUpdate) (bearer : Option String) (platform : Option Platform)
      (now : ℕ)
      → DeviceCall
  deletes : (id : ℕ) → DeviceCall
  subscribes unsubscribes : (context : Context) (topic_hash : String) → DeviceCall

unfoldable pub device_step : Issuer → DeviceCall → AccountStore → AccountStore
device_step issuer (registers input bearer context join now) s =
    (register_device issuer input bearer context join now s).1
device_step issuer (updates id input bearer platform now) s =
    (update_device issuer id input bearer platform now s).1
device_step issuer (deletes id) s = delete_device id s
device_step issuer (subscribes context topic_hash) s = (subscribe_device context topic_hash s).1
device_step issuer (unsubscribes context topic_hash) s = unsubscribe_device context topic_hash s

device_step-IsCapped :
    (issuer : Issuer) (call : DeviceCall) (s : AccountStore)
    → IsCapped s
    → IsCapped (device_step issuer call s)
unfolding device_step delete_device unsubscribe_device
device_step-IsCapped issuer (registers input bearer context join now) s capped =
    register_device-IsCapped issuer input bearer context join now s capped
device_step-IsCapped issuer (updates id input bearer platform now) s capped =
    update_device-IsCapped issuer id input bearer platform now s capped
device_step-IsCapped issuer (deletes id) s capped = λ other. omega (
  arith,
  capped other,
  count_where-deleted (λ d. d.id == id) (λ d. d.account_id == other) s.devices,
)
device_step-IsCapped issuer (subscribes context topic_hash) s capped =
    subscribe_device-IsCapped context topic_hash s capped
device_step-IsCapped issuer (unsubscribes context topic_hash) s capped = capped

unfoldable pub run_devices : Issuer → List DeviceCall → AccountStore → AccountStore
run_devices issuer [] s = s
run_devices issuer (call ∷ calls) s = run_devices issuer calls (device_step issuer call s)

-- Where no account has more devices than the device cap, none has after any sequence of
-- registrations (by a device of the account, by join token or alone), updates, deletions and
-- subscriptions, whatever credentials they carry.
pub run_devices-IsCapped :
    (issuer : Issuer) (calls : List DeviceCall) (s : AccountStore)
    → IsCapped s
    → IsCapped (run_devices issuer calls s)
unfolding run_devices
run_devices-IsCapped issuer [] s capped = capped
run_devices-IsCapped issuer (call ∷ calls) s capped =
    run_devices-IsCapped issuer calls (device_step issuer call s)
      (device_step-IsCapped issuer call s capped)
