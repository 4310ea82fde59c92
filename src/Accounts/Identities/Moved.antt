-- ===== src/Accounts/Identities/Moved.antt =====
-- src/v1/accounts.ts: what linking and switching leave of the account that is left behind.
use critalarm_server.Prelude.{
  ℕ, ◌==◌, ==_refl, leb, if◌then◌else◌, Bool, true, false, ◌||◌, none, some, List, [], ◌∷◌, map,
  ◌≡◌, ◌⊎◌, refl, sym, ap, ◌∙◌, inl, inr, Bool-cases, arith, length, find_row, select, count_where,
  update_where, All, All-imp, find_row-update_where,
}
use mathlib.Core.Option
use critalarm_server.Accounts.Types.{AccountRow, DeviceRow, IdentityRow, AccountStore}
use critalarm_server.Accounts.Credentials.{sweep_device_into_topics}
use critalarm_server.Accounts.Identities.{move_device, move_each, move_devices, tombstone}

-- The device's id is one of the rows'.
abbrev listed_in : List DeviceRow → DeviceRow → Bool
listed_in rows d = leb 1 (count_where (λ x. x.id == d.id) rows)

abbrev pub relocated : ℕ → List DeviceRow → DeviceRow → DeviceRow
relocated into rows d = if listed_in rows d then record d { account_id = into } else d

listed_in-cons :
    (d : DeviceRow) (rows : List DeviceRow) (x : DeviceRow)
    → listed_in (d ∷ rows) x ≡ ((x.id == d.id) || listed_in rows x)
unfolding count_where
listed_in-cons d rows x = ground arith

relocated-one :
    (into : ℕ) (d : DeviceRow) (rows : List DeviceRow) (x : DeviceRow)
    → relocated into rows (if x.id == d.id then record x { account_id = into } else x)
      ≡ relocated into (d ∷ rows) x
relocated-one into d rows x = rw (listed_in-cons d rows x) (elim (Bool-cases (x.id == d.id)) [
  | inr e ↦ rw e refl
  | inl e ↦ elim (Bool-cases (listed_in rows x)) [
    | inl e' ↦ rw (e, e') refl
    | inr e' ↦ rw (e, e') refl
  ]
])

relocated-cons :
    (into : ℕ) (d : DeviceRow) (rows xs : List DeviceRow)
    → map
        (relocated into rows)
        (update_where (λ x. x.id == d.id) (λ x. record x { account_id = into }) xs)
      ≡ map (relocated into (d ∷ rows)) xs
unfolding update_where
relocated-cons into d rows [] = refl
relocated-cons into d rows (x ∷ xs) =
    cc (relocated-one into d rows x, relocated-cons into d rows xs)

relocated-none : (into : ℕ) (xs : List DeviceRow) → map (relocated into []) xs ≡ xs
unfolding count_where
relocated-none into [] = refl
relocated-none into (x ∷ xs) = ap (λ t. x ∷ t) (relocated-none into xs)

move_each-devices :
    (into : ℕ) (rows : List DeviceRow) (s : AccountStore)
    → (move_each into rows s).devices ≡ map (relocated into rows) s.devices
unfolding move_each move_device sweep_device_into_topics count_where
move_each-devices into [] s = sym (relocated-none into s.devices)
move_each-devices into (d ∷ rows) s =
    move_each-devices into rows (move_device into d.id s) ∙ relocated-cons into d rows s.devices

self_listed : (xs : List DeviceRow) → All (λ d. listed_in xs d ≡ true) xs
unfolding count_where
self_listed [] = tt
self_listed (x ∷ xs) =
    (ground (arith, ==_refl x.id), All-imp xs (λ d h. ground (arith, h)) (self_listed xs))

All-if :
    (P : DeviceRow → Type 0) (b : Bool) (d : DeviceRow) (rest : List DeviceRow)
    → All P (if b then d ∷ rest else rest)
    → ((b ≡ false) ⊎ P d) × All P rest
All-if P true d rest h = (inr h.0, h.1)
All-if P false d rest h = (inl refl, h)

-- The rows that are not kept fail the test.
All-select_or :
    (P : DeviceRow → Type 0) (p : DeviceRow → Bool) (rows : List DeviceRow)
    → All P (select p rows)
    → All (λ d. (p d ≡ false) ⊎ P d) rows
unfolding select
All-select_or P p [] h = tt
All-select_or P p (d ∷ rows) h =
    let (here, rest) = All-if P (p d) d (select p rows) h in (here, All-select_or P p rows rest)

-- Every device of the account is among the rows that are moved.
moved_away :
    (from into : ℕ) (xs rows : List DeviceRow)
    → (into == from) ≡ false
    → All (λ d. ((d.account_id == from) ≡ false) ⊎ (listed_in rows d ≡ true)) xs
    → count_where (λ (d : DeviceRow). d.account_id == from) (map (relocated into rows) xs) ≡ 0
unfolding count_where
moved_away from into [] rows apart h = refl
moved_away from into (x ∷ xs) rows apart h =
    let rest = moved_away from into xs rows apart h.1 in
    elim (Bool-cases (listed_in rows x)) [
      | inl e ↦ rw (e, apart) (omega (arith, rest))
      | inr e ↦ elim h.0 [ inl e' ↦ rw (e, e') (omega (arith, rest)) | inr e' ↦ cc (e, e') ]
    ]

length-map_devices :
    (f : DeviceRow → DeviceRow) (xs : List DeviceRow) → length (map f xs) ≡ length xs
length-map_devices f [] = refl
length-map_devices f (x ∷ xs) = omega (arith, length-map_devices f xs)

identities_moved :
    (from into : ℕ) (xs : List IdentityRow)
    → (into == from) ≡ false
    → count_where
        (λ (i : IdentityRow). i.account_id == from)
        (update_where (λ i. i.account_id == from) (λ i. record i { account_id = into }) xs)
      ≡ 0
unfolding count_where update_where
identities_moved from into [] apart = refl
identities_moved from into (x ∷ xs) apart =
    ground (arith, apart, identities_moved from into xs apart)

abbrev pub rehomed : (from into : ℕ) → IdentityRow → IdentityRow
rehomed from into i = if i.account_id == from then record i { account_id = into } else i

identities_rehomed :
    (from into : ℕ) (xs : List IdentityRow)
    → update_where (λ i. i.account_id == from) (λ i. record i { account_id = into }) xs
      ≡ map (rehomed from into) xs
unfolding update_where
identities_rehomed from into [] = refl
identities_rehomed from into (x ∷ xs) =
    ap (λ t. rehomed from into x ∷ t) (identities_rehomed from into xs)

-- What `tombstone` writes on the account's row.
abbrev pub dead : ℕ → AccountRow → AccountRow
dead into a = record a { merged_into = some into; join_token_hash = none }

-- The account that is left: its devices are all there and on the other account, none of them on it
-- any more; its identities have gone with them; it points at the other account, and nobody joins it.
pub record Abandoned (from into : ℕ) (s s' : AccountStore) : Type 0 where
  pub devices :
      s'.devices ≡ map (relocated into (select (λ d. d.account_id == from) s.devices)) s.devices
  pub none_left : count_where (λ d. d.account_id == from) s'.devices ≡ 0
  pub none_lost : length s'.devices ≡ length s.devices
  pub identities : s'.identities ≡ map (rehomed from into) s.identities
  pub no_identity : count_where (λ i. i.account_id == from) s'.identities ≡ 0
  pub closed :
      find_row (λ a. a.id == from) s'.accounts
      ≡ Option.map (dead into) (find_row (λ a. a.id == from) s.accounts)

-- Moving devices writes the devices and the subscriptions only.
pub move_each-rest :
    (into : ℕ) (rows : List DeviceRow) (s : AccountStore)
    → ((move_each into rows s).accounts ≡ s.accounts)
      × ((move_each into rows s).identities ≡ s.identities)
      × ((move_each into rows s).topic_tokens ≡ s.topic_tokens)
      × ((move_each into rows s).engine ≡ s.engine)
unfolding move_each move_device sweep_device_into_topics
move_each-rest into [] s = (refl, refl, refl, refl)
move_each-rest into (d ∷ rows) s = move_each-rest into rows (move_device into d.id s)

pub move_devices-Abandoned :
    (from into : ℕ) (s : AccountStore)
    → (into == from) ≡ false
    → Abandoned from into s (tombstone from into (move_devices from into s))
unfolding tombstone move_devices
move_devices-Abandoned from into s apart =
    let rows = select (λ d. d.account_id == from) s.devices in
    let moved = move_each-devices into rows s in
    let rest = move_each-rest into rows s in
    record {
      devices = moved;
      none_left =
          ap (count_where (λ d. d.account_id == from)) moved
          ∙ moved_away from into s.devices rows apart (
              All-select_or (λ d. listed_in rows d ≡ true) (λ d. d.account_id == from) s.devices
                (self_listed rows));
      none_lost = ap length moved ∙ length-map_devices (relocated into rows) s.devices;
      identities =
          identities_rehomed from into (move_each into rows s).identities
          ∙ ap (map (rehomed from into)) rest.1;
      no_identity = identities_moved from into (move_each into rows s).identities apart;
      closed =
          find_row-update_where (λ (a : AccountRow). a.id == from)
            (λ (a : AccountRow). a.id == from) (dead into) (move_each into rows s).accounts
            (λ a. refl) (λ a h. h)
          ∙ ap (λ accounts. Option.map (dead into) (find_row (λ a. a.id == from) accounts)) rest.0;
    }
