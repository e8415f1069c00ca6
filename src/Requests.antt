-- ===== src/Requests.antt =====
-- `crates/cc-wallet-domain/src/send.rs`: the send form, the comment of a send, requests, and the
-- authorization of a send.
pub mod Truncate
pub mod Canonical
pub mod Authorization
use cc_wallet_gui.Prelude.{
  ℕ, zero, suc, ◌+◌, ◌-◌, ◌/◌, List, [], ◌∷◌, Option, none, some, Bool, true, false, not, ◌&&◌,
  ◌||◌, ltb, leb, ◌==◌, if◌then◌else◌, Outcome, ok, err, panic, ◌>>=◌, ◌>>◌, reject_if, Bytes,
  bytes_eq, length, take, map_err, ℤ, pos, negsuc, int_eq,
}
use cc_wallet_gui.Strings.{trim, is_char_boundary}
use cc_wallet_gui.External.{BigUint}
use cc_wallet_gui.Asset.{
  AssetId, native, currency_collection, is_known_cc, WalletError, validation, amount,
}
use cc_wallet_gui.Amount.{
  AssetAmount, cc_amount, make_native, CcAmount, asset_id, is_zero, is_empty,
}
use cc_wallet_gui.Amount.Send.{parse_send_amount, as_wallet_error}
use cc_wallet_gui.Journal.Errors.{journal_error_text}
use cc_wallet_gui.Journal.Ticket.{SendRequest, SendTicket, new_ticket}
use cc_wallet_gui.External.Addresses.{StdAddr, StdAddrs}
use Prim.Native.String.{◌++◌}

pub data SendToken : Type 0 where
  native_token : SendToken
  cc_token : ℕ → SendToken

-- `SendToken::asset_id`
unfoldable pub token_asset : SendToken → AssetId
token_asset native_token = native
token_asset (cc_token id) = currency_collection id

abbrev pub comment_root_bytes : ℕ
comment_root_bytes = 123

abbrev pub comment_cell_bytes : ℕ
comment_cell_bytes = 127

abbrev pub max_comment_bytes : ℕ
max_comment_bytes = 1024

-- `div_ceil`
abbrev pub comment_cells : ℕ
comment_cells =
    (max_comment_bytes - comment_root_bytes + (comment_cell_bytes - 1)) / comment_cell_bytes

abbrev pub max_encrypted_comment_bytes : ℕ
max_encrypted_comment_bytes = max_comment_bytes - 57 - 16

-- The loop that moves `end` back to the boundary of a character.
unfoldable pub boundary_before : Bytes → ℕ → ℕ
unfolding is_char_boundary
boundary_before text zero = zero
boundary_before text (suc k) =
    let rest = boundary_before text k in if is_char_boundary text (suc k) then suc k else rest

-- `&text[..end]`, which panics inside a character
unfoldable pub slice_to {ℓ} : {E : Type ℓ} → Bytes → ℕ → Outcome E Bytes
unfolding is_char_boundary
slice_to text end = if is_char_boundary text end then ok (take end text) else panic

unfoldable pub truncate_comment_to {ℓ} : {E : Type ℓ} → Bytes → ℕ → Outcome E Bytes
unfolding boundary_before slice_to
truncate_comment_to text limit =
    if leb (length text) limit then ok text else slice_to text (boundary_before text limit)

unfoldable pub truncate_comment {ℓ} : {E : Type ℓ} → Bytes → Outcome E Bytes
unfolding truncate_comment_to
truncate_comment text = truncate_comment_to text max_comment_bytes

-- `validate_workchain` of profile.rs
unfoldable pub validate_workchain : ℤ → Outcome WalletError (Unit {0})
unfolding int_eq
validate_workchain workchain =
    if int_eq workchain (pos 0) || int_eq workchain (negsuc 0)
    then ok tt
    else err (validation "workchain must be 0 or -1")

-- `WalletInputs` of profile.rs
pub record WalletInputs : Type 0 where
  pub endpoint : Bytes
  pub network_id : ℤ
  pub workchain : ℤ
  pub seed : Bytes
  pub require_signature_id : Bool

pub record SendForm : Type 0 where
  pub token : SendToken
  pub destination : Bytes
  pub amount : Bytes
  pub comment : Bytes
  pub encrypt : Bool

abbrev pub default_send_form : SendForm
default_send_form = record {
  token = native_token;
  destination = [];
  amount = [];
  comment = [];
  encrypt = false;
}

-- `SendRequest::with_comment` and `sealed_to`
unfoldable pub with_comment {ℓ} : {E : Type ℓ} → SendRequest → Bytes → Outcome E SendRequest
unfolding truncate_comment trim
with_comment r comment = do
  short ← truncate_comment (trim comment)
  ok (record r { comment = short })

unfoldable pub sealed_to : SendRequest → Option Bytes → SendRequest
sealed_to r key = record r { encrypt_to = key }

-- `SendAuthorization`
pub record SendAuthorization : Type 0 where
  pub inputs : WalletInputs
  pub ticket : SendTicket

unfoldable pub matches : SendAuthorization → ℕ → ℕ → Bool
matches a generation nonce = a.ticket.auth_generation == generation && a.ticket.auth_nonce == nonce

-- The arguments of `SendTicket::new` in `SendAuthorization::new`.
abbrev pub draft_ticket :
    Bytes → Bytes → Bytes → WalletInputs → SendRequest → Bool → ℕ → ℕ → SendTicket
draft_ticket record_id sender_wallet_id sender inputs request bounce generation nonce = record {
  record_id = record_id;
  sender_wallet_id = sender_wallet_id;
  sender_address = sender;
  network_global_id = inputs.network_id;
  endpoint_identity = inputs.endpoint;
  request = request;
  bounce = bounce;
  auth_generation = generation;
  auth_nonce = nonce;
}

module _ ⦃addrs : StdAddrs⦄ where
  -- `canonicalize_recipient` of address.rs
  unfoldable pub canonicalize_recipient : Bytes → Outcome WalletError Bytes
  unfolding trim is_empty int_eq
  canonicalize_recipient address = do
    let address = trim address
    reject_if (is_empty address) (validation "address is empty")
    parsed ←
        map_err (λ error. validation ("invalid standard address: " ++ error))
          (addrs.from_str address)
    reject_if parsed.has_anycast (validation "anycast recipient addresses are not supported")
    reject_if (not (int_eq parsed.workchain (pos 0) || int_eq parsed.workchain (negsuc 0)))
        (validation "recipient workchain must be 0 or -1")
    ok (addrs.to_string parsed)

  unfoldable pub recipient_is_valid : Bytes → Bool
  unfolding canonicalize_recipient
  recipient_is_valid address = elim (canonicalize_recipient address) [ ok _ ↦ true | _ ↦ false ]

  module _ ⦃big : BigUint⦄ where
    -- `if let AssetId::CurrencyCollection(id)`, and the id is unknown
    unfoldable pub is_unknown_cc : AssetId → Bool
    unfolding is_known_cc
    is_unknown_cc native = false
    is_unknown_cc (currency_collection id) = not (is_known_cc (currency_collection id))

    -- `SendRequest::new`
    unfoldable pub new_request : Bytes → AssetAmount → Outcome WalletError SendRequest
    unfolding canonicalize_recipient is_zero is_unknown_cc asset_id
    new_request destination value = do
      destination ← canonicalize_recipient destination
      reject_if (is_zero value) (amount "amount must be greater than zero")
      reject_if (is_unknown_cc (asset_id value))
          (amount "only currency-collection ids 1, 2, and 3 can be sent")
      ok (record { destination = destination; value = value; comment = []; encrypt_to = none })

    -- `SendForm::request`
    unfoldable pub form_request : SendForm → Outcome WalletError SendRequest
    unfolding parse_send_amount token_asset new_request with_comment
    form_request form = do
      value ← parse_send_amount (token_asset form.token) form.amount
      r ← new_request form.destination value
      with_comment r form.comment

    -- `SendRequest::native` and `SendRequest::currency_collection`
    unfoldable pub native_request : Bytes → ℕ → Outcome WalletError SendRequest
    unfolding make_native new_request
    native_request destination units = do
      value ← map_err as_wallet_error (make_native units)
      new_request destination value

    unfoldable pub currency_collection_request :
        Bytes → ℕ → CcAmount → Outcome WalletError SendRequest
    unfolding new_request
    currency_collection_request destination id units = new_request destination (cc_amount id units)

    -- `SendAuthorization::new`
    unfoldable pub new_authorization :
        Bytes
        → Bytes
        → Bytes
        → WalletInputs
        → SendRequest
        → Bool
        → ℕ
        → ℕ
        → Outcome WalletError SendAuthorization
    unfolding trim is_empty bytes_eq validate_workchain canonicalize_recipient new_request
        with_comment sealed_to new_ticket journal_error_text
    new_authorization record_id sender_wallet_id sender_address inputs request bounce generation
          nonce =
        do
          reject_if
              (is_empty inputs.endpoint || not (bytes_eq (trim inputs.endpoint) inputs.endpoint))
              (validation "authorization endpoint identity is empty or noncanonical")
          validate_workchain inputs.workchain
          sender ← canonicalize_recipient sender_address
          fresh ← new_request request.destination request.value
          commented ← with_comment fresh request.comment
          ticket ←
              map_err (λ error. validation (journal_error_text error))
                (new_ticket (
                  draft_ticket record_id sender_wallet_id sender inputs
                    (sealed_to commented request.encrypt_to) bounce generation nonce))
          ok (record { inputs = inputs; ticket = ticket })
