-- ===== src/Journal/History.antt =====
-- What a replay remembers of the items that it has passed, described on the list of those items:
-- the latest evidence of each record, the grants, the consumed nonces, the last item.
use cc_wallet_gui.Prelude.{
  List, [], ◌∷◌, ◌++◌, Option, none, some, Bool, true, false, ◌||◌, ◌≡◌, refl, arith, if◌then◌else◌,
  bytes_eq,
}
use cc_wallet_gui.Ids.{RecordId, RiskNonce}
use cc_wallet_gui.Digest.{EvidenceTag, is_blocking}
use cc_wallet_gui.BTreeMap.{get, has_key}
use cc_wallet_gui.Journal.Evidence.{tag}
use cc_wallet_gui.Journal.Record.{SendRecord}
use cc_wallet_gui.Journal.Risk.{
  RiskGrant, RiskGrantConsumption, RiskAction, granted, consumed, RiskEvent, authorizes,
}
use cc_wallet_gui.Journal.Blockers.{id_key}
use cc_wallet_gui.Journal.Replay.{ReplayItem, delivery, risk, initial, ReplayState}

module _ {ℓ} {A : Type ℓ} where
  abbrev pub newer : Option A → Option A → Option A
  newer (some a) old = some a
  newer none old = old

  abbrev pub older : Option A → Option A → Option A
  older new none = new
  older new (some a) = some a

-- The record and tag of a delivery event of one record id.
unfoldable pub own_event : RecordId → ReplayItem → Option (SendRecord × EvidenceTag)
unfolding bytes_eq tag
own_event id (delivery r event) =
    if bytes_eq id r.ticket.record_id then some (r, tag event.evidence) else none
own_event id (risk _) = none

-- The latest event of a record id, in a list with the newest item last.
unfoldable pub latest : RecordId → List ReplayItem → Option (SendRecord × EvidenceTag)
unfolding own_event
latest id [] = none
latest id (item ∷ items) = newer (latest id items) (own_event id item)

unfoldable pub granted_by : RiskNonce → RiskAction → Option RiskGrant
unfolding bytes_eq
granted_by n (granted g) = if bytes_eq n g.one_use_nonce then some g else none
granted_by n (consumed _) = none

unfoldable pub own_grant : RiskNonce → ReplayItem → Option RiskGrant
unfolding granted_by
own_grant n (risk event) = granted_by n event.action
own_grant n (delivery _ _) = none

-- The first grant of a nonce.
unfoldable pub grant_of : RiskNonce → List ReplayItem → Option RiskGrant
unfolding own_grant
grant_of n [] = none
grant_of n (item ∷ items) = newer (own_grant n item) (grant_of n items)

unfoldable pub consumed_by : RiskNonce → RiskAction → Bool
unfolding bytes_eq
consumed_by n (granted _) = false
consumed_by n (consumed c) = bytes_eq n c.one_use_nonce

unfoldable pub own_consumption : RiskNonce → ReplayItem → Bool
unfolding consumed_by
own_consumption n (risk event) = consumed_by n event.action
own_consumption n (delivery _ _) = false

unfoldable pub is_consumed : RiskNonce → List ReplayItem → Bool
unfolding own_consumption
is_consumed n [] = false
is_consumed n (item ∷ items) = own_consumption n item || is_consumed n items

unfoldable pub last_item : List ReplayItem → Option ReplayItem
last_item [] = none
last_item (item ∷ items) = newer (last_item items) (some item)

-- The latest event, if it leaves the record unresolved.
abbrev pub only_blocking : Option (SendRecord × EvidenceTag) → Option (SendRecord × EvidenceTag)
only_blocking none = none
only_blocking (some (r, t)) = if is_blocking t then some (r, t) else none

-- The consumption that waits for its Prepared event is the last item.
pub data Waits (past : List ReplayItem) : Option (RiskGrant × RiskGrantConsumption) → Type 0 where
  settled : Waits past none
  waiting :
      (g : RiskGrant) (c : RiskGrantConsumption) (event : RiskEvent)
      → event.action ≡ consumed c
      → last_item past ≡ some (risk event)
      → grant_of c.one_use_nonce past ≡ some g
      → authorizes g c ≡ true
      → Waits past (some (g, c))

pub record Remembers (past : List ReplayItem) (s : ReplayState) : Type 0 where
  pub unresolved : (id : RecordId) → get id s.blocking ≡ only_blocking (latest id past)
  pub grants : (n : RiskNonce) → get n s.grants ≡ grant_of n past
  pub used : (n : RiskNonce) → has_key n s.consumed_nonces ≡ is_consumed n past
  pub waits : Waits past s.pending

pub latest-snoc :
    (id : RecordId) (past : List ReplayItem) (item : ReplayItem)
    → latest id (past ++ item ∷ []) ≡ newer (own_event id item) (latest id past)
unfolding latest
latest-snoc id [] item = ground arith
latest-snoc id (x ∷ past) item = ground (arith, latest-snoc id past item)

pub grant_of-snoc :
    (n : RiskNonce) (past : List ReplayItem) (item : ReplayItem)
    → grant_of n (past ++ item ∷ []) ≡ newer (grant_of n past) (own_grant n item)
unfolding grant_of
grant_of-snoc n [] item = ground arith
grant_of-snoc n (x ∷ past) item = ground (arith, grant_of-snoc n past item)

pub is_consumed-snoc :
    (n : RiskNonce) (past : List ReplayItem) (item : ReplayItem)
    → is_consumed n (past ++ item ∷ []) ≡ (own_consumption n item || is_consumed n past)
unfolding is_consumed
is_consumed-snoc n [] item = ground arith
is_consumed-snoc n (x ∷ past) item = ground (arith, is_consumed-snoc n past item)

pub last_item-snoc :
    (past : List ReplayItem) (item : ReplayItem) → last_item (past ++ item ∷ []) ≡ some item
unfolding last_item
last_item-snoc [] item = refl
last_item-snoc (x ∷ past) item = ground (arith, last_item-snoc past item)

pub Remembers-initial : Remembers [] initial
unfolding latest grant_of is_consumed get has_key
Remembers-initial = record {
  unresolved = λ id. refl;
  grants = λ n. refl;
  used = λ n. refl;
  waits = settled;
}
