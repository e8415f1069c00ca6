-- ===== src/Examples/Wallet.antt =====
-- The theorems about requests, records, swaps, the clock and the vault, at concrete inputs.
use cc_wallet_gui.Prelude.{
  ℕ, ◌+◌, ◌-◌, ◌*◌, ◌<◌, ◌≤◌, [], ◌∷◌, ◌++◌, none, some, true, false, ◌≡◌, ◌↔◌, ◌⊎◌, refl, arith,
  ok, err, Bytes, codes, pos, length, replicate,
}
use cc_wallet_gui.Strings.{utf8_from, is_utf8, trim}
use cc_wallet_gui.External.Instances.{reference_big}
use cc_wallet_gui.External.Reference.{reference_addrs, reference_crypto, parse_one}
use cc_wallet_gui.Asset.{currency_collection, WalletError}
use cc_wallet_gui.Amount.{is_empty, native_amount}
use cc_wallet_gui.Digest.{CanonicalAddress}
use cc_wallet_gui.Journal.Identity.{parse_canonical_address}
use cc_wallet_gui.Journal.Ticket.{SendRequest}
use cc_wallet_gui.Requests.{
  WalletInputs, SendAuthorization, truncate_comment_to, canonicalize_recipient, new_authorization,
  draft_ticket, matches, max_comment_bytes,
}
use cc_wallet_gui.Requests.Truncate.{IsCut, truncate_comment_to-IsCut}
use cc_wallet_gui.Requests.Canonical.{canonicalize_recipient-parse_canonical_address}
use cc_wallet_gui.Requests.Authorization.{new_authorization-matches}
use cc_wallet_gui.Records.{full, encode_record, decode_record, next_free_id}
use cc_wallet_gui.Records.RoundTrip.{decode_record-encode_record, encode_record-decode_record}
use cc_wallet_gui.Records.FreeId.{IsFirstFree, distinct, next_free_id_lem}
use cc_wallet_gui.Swap.{
  SwapQuote, fee_denom, quote_swap, new_swap_request, parse_slippage_percent,
  format_slippage_percent,
}
use cc_wallet_gui.Swap.Quote.{KeepsProduct, quote_swap-KeepsProduct, quote_swap_returns}
use cc_wallet_gui.Swap.Slippage.{parse_slippage_percent-format_slippage_percent}
use cc_wallet_gui.Swap.Request.{IsSwap, request_of, new_swap_request_iff}
use cc_wallet_gui.Clock.{ValidatorCycle, display}
use cc_wallet_gui.Clock.Elections.{IsShown, display-elections}

-- 3 bytes of UTF-8 for one character, cut after its first byte
abbrev euro : Bytes
euro = codes "a" ++ (0xe2 ∷ 0x82 ∷ 0xac ∷ [])

truncate_example :
    (kept : Bytes) × (truncate_comment_to {E = WalletError} euro 2 ≡ ok kept) × IsCut euro 2 kept
unfolding utf8_from
truncate_example = truncate_comment_to-IsCut euro 2 refl

abbrev spaced_address : Bytes
spaced_address = codes " 0:0707070707070707070707070707070707070707070707070707070707070707 "

abbrev plain_address : Bytes
plain_address = codes "0:0707070707070707070707070707070707070707070707070707070707070707"

canonical_call : canonicalize_recipient spaced_address ≡ ok plain_address
unfolding canonicalize_recipient parse_one
canonical_call = refl

canonical_example :
    ((c : CanonicalAddress) × (parse_canonical_address plain_address ≡ ok c))
    × (canonicalize_recipient plain_address ≡ ok plain_address)
canonical_example =
    canonicalize_recipient-parse_canonical_address spaced_address plain_address canonical_call

record_example : decode_record (0 ∷ 1 ∷ codes "ab") ≡ ok (codes "a", codes "b")
unfolding utf8_from trim
record_example =
    decode_record-encode_record (codes "a ") (codes "b") (0 ∷ 1 ∷ codes "ab") refl refl
      (unfold encode_record in refl)

record_back_example : encode_record (codes "a") (codes "b") ≡ ok (0 ∷ 1 ∷ codes "ab")
unfolding utf8_from is_empty
record_back_example =
    encode_record-decode_record (codes "a") (codes "b") (0 ∷ 1 ∷ codes "ab") (ground arith)
      (unfold decode_record in refl) (unfold trim in refl) (refl, omega arith, omega arith)

free_id_example :
    ((length (distinct (2 ∷ 1 ∷ 4 ∷ 1 ∷ [])) < 9)
      × ((id : ℕ) × (next_free_id (2 ∷ 1 ∷ 4 ∷ 1 ∷ []) 9 ≡ ok id)
          × IsFirstFree 1 (2 ∷ 1 ∷ 4 ∷ 1 ∷ []) id
          × (id ≤ 9)))
    ⊎ ((9 ≤ length (distinct (2 ∷ 1 ∷ 4 ∷ 1 ∷ [])))
        × (next_free_id (2 ∷ 1 ∷ 4 ∷ 1 ∷ []) 9 ≡ err (full 9)))
free_id_example = next_free_id_lem (2 ∷ 1 ∷ 4 ∷ 1 ∷ []) 9

slippage_example : parse_slippage_percent (format_slippage_percent 105) ≡ some 105
slippage_example = parse_slippage_percent-format_slippage_percent 105 (omega arith)

abbrev a_quote : SwapQuote
a_quote = record {
  in_units = 1000;
  out_units = 498;
  min_out_units = 493;
  fee_bps = 30;
  slippage_bps = 100;
}

quote_call : quote_swap 1000 1000000 500000 30 100 ≡ some a_quote
unfolding quote_swap
quote_call = refl

quote_example :
    (a_quote.in_units ≡ 1000)
    × (a_quote.fee_bps ≡ 30)
    × (a_quote.slippage_bps ≡ 100)
    × KeepsProduct 1000000 500000 1000 a_quote.out_units
    × (a_quote.min_out_units ≤ a_quote.out_units)
    × (a_quote.min_out_units * fee_denom ≤ a_quote.out_units * (fee_denom - 100))
    × (a_quote.out_units * (fee_denom - 100) < (a_quote.min_out_units + 1) * fee_denom)
quote_example = quote_swap-KeepsProduct 1000 1000000 500000 30 100 a_quote quote_call

quote_returns_example : (q : SwapQuote) × (quote_swap 1000 1000000 500000 30 100 ≡ some q)
quote_returns_example =
    quote_swap_returns 1000 1000000 500000 30 100 (omega arith) (omega arith) (omega arith)
      (omega arith) (omega arith)

accepted_example :
    (new_swap_request (native_amount 5) (currency_collection 1) 1 50
      ≡ ok (request_of (native_amount 5) (currency_collection 1) 1 50))
    ↔ (IsSwap (native_amount 5) (currency_collection 1) 50
        × (request_of (native_amount 5) (currency_collection 1) 1 50
            ≡ request_of (native_amount 5) (currency_collection 1) 1 50))
accepted_example =
    new_swap_request_iff (native_amount 5) (currency_collection 1) 1 50
      (request_of (native_amount 5) (currency_collection 1) 1 50) (omega arith)

abbrev cycle : ValidatorCycle
cycle = record {
  validators_elected_for = 1000;
  elections_start_before = 500;
  elections_end_before = 100;
  current_utime_since = 1000;
  current_utime_until = 2000;
  next_utime_until = none;
}

elections_example :
    ((1600 ≤ 1900)
      × IsShown 1500 1900 1600
          (display cycle 1600).elections_open
          (display cycle 1600).elections_countdown)
    ⊎ ((1900 < 1600)
        × IsShown 2500 2900 1600
            (display cycle 1600).elections_open
            (display cycle 1600).elections_countdown)
elections_example =
    display-elections cycle 1600 (refl, omega arith, omega arith, omega arith, omega arith)
      (omega arith)

abbrev inputs : WalletInputs
inputs = record {
  endpoint = codes "endpoint";
  network_id = pos 7;
  workchain = pos 0;
  seed = [];
  require_signature_id = false;
}

abbrev request : SendRequest
request = record {
  destination = plain_address;
  value = native_amount 5;
  comment = codes "hi";
  encrypt_to = none;
}

abbrev authorization : SendAuthorization
authorization = record {
  inputs = inputs;
  ticket = draft_ticket (replicate 32 1) (codes "wallet") plain_address inputs request true 3 4;
}

authorization_call :
    new_authorization (replicate 32 1) (codes "wallet") spaced_address inputs request true 3 4
    ≡ ok authorization
unfolding new_authorization parse_one
authorization_call = refl

trimmed_comment : is_utf8 (trim request.comment) ≡ true
unfolding utf8_from trim
trimmed_comment = refl

authorization_example :
    (authorization.inputs ≡ inputs)
    × ((g n : ℕ) → (matches authorization g n ≡ true) ↔ ((g ≡ 3) × (n ≡ 4)))
    × (canonicalize_recipient spaced_address ≡ ok authorization.ticket.sender_address)
    × (canonicalize_recipient plain_address ≡ ok authorization.ticket.request.destination)
    × (authorization.ticket.request.value ≡ request.value)
    × (0 < 5)
    × (authorization.ticket.request.encrypt_to ≡ none)
    × IsCut (trim request.comment) max_comment_bytes authorization.ticket.request.comment
authorization_example =
    new_authorization-matches (replicate 32 1) (codes "wallet") spaced_address inputs request true 3
      4 authorization trimmed_comment authorization_call
