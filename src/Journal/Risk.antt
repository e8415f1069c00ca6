-- ===== src/Journal/Risk.antt =====
-- risk.rs, and the risk events of journal.rs: a grant that allows one send beside unresolved ones,
-- and its consumption.
use cc_wallet_gui.Prelude.{ℕ, Option, none, some, Bool, ◌&&◌, ◌==◌, bytes_eq, ok, ◌>>◌, reject_if}
use cc_wallet_gui.Ids.{RecordId, RiskNonce, Digest32}
use cc_wallet_gui.Journal.Errors.{sequence_zero, Journaled}

abbrev pub risk_warning_version : ℕ
risk_warning_version = 1

pub record RiskGrant : Type 0 where
  pub old_blocker_set_digest : Digest32
  pub old_reservation_set_digest : Digest32
  pub new_ticket_digest : Digest32
  pub new_record_id : RecordId
  pub one_use_nonce : RiskNonce
  pub warning_version : ℕ
  pub overlap_reservation_set_digest : Digest32

pub record RiskGrantConsumption : Type 0 where
  pub one_use_nonce : RiskNonce
  pub new_record_id : RecordId
  pub new_ticket_digest : Digest32

unfoldable pub authorizes : RiskGrant → RiskGrantConsumption → Bool
unfolding bytes_eq
authorizes g c =
    bytes_eq g.one_use_nonce c.one_use_nonce
    && bytes_eq g.new_record_id c.new_record_id
    && bytes_eq g.new_ticket_digest c.new_ticket_digest

pub data RiskAction : Type 0 where
  granted : RiskGrant → RiskAction
  consumed : RiskGrantConsumption → RiskAction

pub record RiskEvent : Type 0 where
  pub journal_seq : ℕ
  pub action : RiskAction

-- `RiskEvent::new`
unfoldable pub new_risk_event : ℕ → RiskAction → Journaled RiskEvent
new_risk_event journal_seq action = do
  reject_if (journal_seq == 0) sequence_zero
  ok (record { journal_seq = journal_seq; action = action })

-- `RiskEvent::grant` and `RiskEvent::consumption`
unfoldable pub grant : RiskAction → Option RiskGrant
grant (granted g) = some g
grant (consumed _) = none

unfoldable pub consumption : RiskAction → Option RiskGrantConsumption
consumption (granted _) = none
consumption (consumed c) = some c
