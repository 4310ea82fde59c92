-- ===== src/Tier/Reads/View.antt =====
-- src/tier/entitlement-read.ts: a customer's list of active entitlements, page by page, and what it
-- means for the tier and the packs. `fetch` is the store: none where the request fails, and a body of
-- none where it does not parse. A failed read's reason is for the log only.
use critalarm_server.Prelude.{
  ℕ, zero, suc, ◌==◌, ◌/◌, if◌then◌else◌, Bool, true, false, not, ◌&&◌, String, str_eq, Option,
  none, some, List, [], ◌∷◌, ◌++◌, max, map, count_where, leb, map_get, map_set,
}
use critalarm_server.Tier.Caps.{Tier, free}
use critalarm_server.Tier.Purchases.{is_higher_tier}

pub record ActiveEntitlement : Type 0 where
  pub entitlement_id : String
  pub expires_at : Option ℕ

pub record StoreReadConfig : Type 0 where
  pub entitlements : List (String × Tier)
  pub pack_entitlements : List (String × String)

-- An answer that can be believed, with whether it was a 404 on the first page.
pub data StoreAnswer : Type 0 where
  listed : (never_seen : Bool) (items : List ActiveEntitlement) → StoreAnswer
  not_read : StoreAnswer

pub record PageBody : Type 0 where
  pub items : List ActiveEntitlement
  pub next_page : Option String

pub record PageResponse : Type 0 where
  pub status : ℕ
  pub body : Option PageBody

abbrev pub max_pages : ℕ
max_pages = 10

-- next_page, where it is there and not empty.
abbrev pub next_path : Option String → Option String
next_path none = none
next_path (some path) = if str_eq path "" then none else some path

-- The loop of `readStore`, with the pages that are left.
unfoldable pub read_pages :
    (String → Option PageResponse)
    → ℕ
    → (first : Bool) (path : String) (items : List ActiveEntitlement) → StoreAnswer
read_pages fetch zero first path items = not_read
read_pages fetch (suc pages) first path items = elim (fetch path) [
  | none ↦ not_read
  | some response ↦
      let after_body : StoreAnswer = elim response.body [
        | none ↦ not_read
        | some body ↦ elim (next_path body.next_page) [
          | none ↦ listed false (items ++ body.items)
          | some next ↦ read_pages fetch pages false next (items ++ body.items)
        ]
      ] in
      if (response.status == 404) && first
      then listed true []
      else if not (response.status == 200)
      then not_read
      else after_body
]

unfoldable pub read_store : (String → Option PageResponse) → String → StoreAnswer
read_store fetch path = read_pages fetch max_pages true path []

pub record StoreView : Type 0 where
  pub entitlement_ids : List String
  pub unknown_ids : List String
  pub tier : Tier
  pub packs : List (String × Option ℕ)

abbrev includes : String → List String → Bool
includes id ids = leb 1 (count_where (λ s. str_eq s id) ids)

abbrev raised : Option Tier → Tier → Tier
raised none tier = tier
raised (some next) tier = if is_higher_tier next tier then next else tier

abbrev seconds : Option ℕ → Option ℕ
seconds none = none
seconds (some ms) = some (ms / 1000)

-- The end date of a pack that is listed once more: no end date stays, and otherwise the later end.
abbrev later_end : Option ℕ → Option ℕ → Option ℕ
later_end none next = none
later_end (some held) none = none
later_end (some held) (some end) = some (max held end)

abbrev with_pack : Option String → Option ℕ → List (String × Option ℕ) → List (String × Option ℕ)
with_pack none end packs = packs
with_pack (some pack) end packs = elim (map_get pack packs) [
  | none ↦ map_set pack (seconds end) packs
  | some held ↦ map_set pack (later_end held (seconds end)) packs
]

-- Neither map names the entitlement.
abbrev names_nothing : Option Tier → Option String → Bool
names_nothing none none = true
names_nothing _ _ = false

unfoldable pub view_item : StoreReadConfig → ActiveEntitlement → StoreView → StoreView
view_item config item view =
    let tier = map_get item.entitlement_id config.entitlements in
    let pack = map_get item.entitlement_id config.pack_entitlements in
    if names_nothing tier pack
    then record view {
      unknown_ids =
          if includes item.entitlement_id view.unknown_ids
          then view.unknown_ids
          else view.unknown_ids ++ item.entitlement_id ∷ [];
    }
    else record view {
      tier = raised tier view.tier;
      packs = with_pack pack item.expires_at view.packs;
    }

unfoldable pub view_items : StoreReadConfig → List ActiveEntitlement → StoreView → StoreView
view_items config [] view = view
view_items config (item ∷ items) view = view_items config items (view_item config item view)

unfoldable pub view_entitlements : StoreReadConfig → List ActiveEntitlement → StoreView
view_entitlements config items = view_items config items (record {
  entitlement_ids = map (λ item. item.entitlement_id) items;
  unknown_ids = [];
  tier = free;
  packs = [];
})
