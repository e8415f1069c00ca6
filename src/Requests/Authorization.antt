-- ===== src/Requests/Authorization.antt =====
-- What an authorization of a send carries.
use cc_wallet_gui.Prelude.{
  ℕ, ◌<◌, [], none, Bool, true, not, ◌||◌, ◌≡◌, ◌↔◌, refl, ap, sym, ◌∙◌, arith, ok, reject_if,
  map_err, map_err-eq-ok, >>=-eq-ok, reject_if-eq-ok, Bytes, bytes_eq,
}
use cc_wallet_gui.Strings.{trim, is_utf8}
use cc_wallet_gui.External.{BigUint}
use cc_wallet_gui.External.Addresses.{StdAddrs}
use cc_wallet_gui.Asset.{WalletError, validation, amount}
use cc_wallet_gui.Amount.{AssetAmount, asset_id, is_zero, is_empty}
use cc_wallet_gui.Amount.Arithmetic.{units, is_zero-units}
use cc_wallet_gui.Journal.Errors.{journal_error_text, invalid_ticket}
use cc_wallet_gui.Journal.Identity.{validate_identity, parse_canonical_address}
use cc_wallet_gui.Journal.Ticket.{SendRequest, SendTicket, new_ticket}
use cc_wallet_gui.Requests.{
  WalletInputs, SendAuthorization, matches, max_comment_bytes, truncate_comment,
  truncate_comment_to, with_comment, sealed_to, validate_workchain, canonicalize_recipient,
  draft_ticket, is_unknown_cc, new_request, new_authorization,
}
use cc_wallet_gui.Requests.Truncate.{IsCut, truncate_comment_to-IsCut}

-- A request for a recipient and a value, without a comment.
abbrev IsPlainRequest : ⦃addrs : StdAddrs⦄ → Bytes → AssetAmount → SendRequest → Type 0
IsPlainRequest destination value r =
    (canonicalize_recipient destination ≡ ok r.destination)
    × (r.value ≡ value)
    × (r.comment ≡ [])
    × (r.encrypt_to ≡ none)
    × (0 < units value)

with_comment-eq-ok {ℓ} :
    {E : Type ℓ} (r : SendRequest) (comment : Bytes) (end : SendRequest)
    → is_utf8 (trim comment) ≡ true
    → with_comment {E = E} r comment ≡ ok end
    → IsCut (trim comment) max_comment_bytes end.comment
      × (end.destination ≡ r.destination)
      × (end.value ≡ r.value)
unfolding with_comment truncate_comment
with_comment-eq-ok {E = E} r comment end text h =
    let (kept, e, cut) = truncate_comment_to-IsCut {E = E} (trim comment) max_comment_bytes text in
    let (short, f, g) =
      >>=-eq-ok (truncate_comment_to {E = E} (trim comment) max_comment_bytes) _ h in
    let same : short ≡ kept = cc in
    let is : end ≡ record r { comment = kept } = cc in rw is (cut, refl, refl)

new_ticket-eq-ok : (t s : SendTicket) → new_ticket t ≡ ok s → t ≡ s
unfolding new_ticket
new_ticket-eq-ok t s h =
    let (_, _, h₁) =
      >>=-eq-ok
        (reject_if (not (validate_identity t.sender_wallet_id))
          (invalid_ticket "sender wallet identity is empty or noncanonical"))
        _ h in
    let (_, _, h₂) =
      >>=-eq-ok
        (reject_if (not (validate_identity t.endpoint_identity))
          (invalid_ticket "endpoint identity is empty or noncanonical"))
        _ h₁ in
    let (_, _, h₃) = >>=-eq-ok (parse_canonical_address t.sender_address) _ h₂ in
    let (_, _, h₄) = >>=-eq-ok (parse_canonical_address t.request.destination) _ h₃ in cc

matches_iff :
    (inputs : WalletInputs) (t : SendTicket) (g n : ℕ)
    → (matches (record { inputs = inputs; ticket = t }) g n ≡ true)
      ↔ ((g ≡ t.auth_generation) × (n ≡ t.auth_nonce))
unfolding matches
matches_iff inputs t g n = ground arith

module _ ⦃addrs : StdAddrs⦄ ⦃big : BigUint⦄ where
  new_request-eq-ok :
      (destination : Bytes) (value : AssetAmount) (r : SendRequest)
      → new_request destination value ≡ ok r
      → IsPlainRequest destination value r
  unfolding new_request
  new_request-eq-ok destination value r h =
      let (d, e, h₁) = >>=-eq-ok (canonicalize_recipient destination) _ h in
      let (_, positive, h₂) =
        >>=-eq-ok (reject_if (is_zero value) (amount "amount must be greater than zero")) _ h₁ in
      let (_, _, h₃) =
        >>=-eq-ok
          (reject_if (is_unknown_cc (asset_id value))
            (amount "only currency-collection ids 1, 2, and 3 can be sent"))
          _ h₂ in
      let not_zero = reject_if-eq-ok (is_zero value) _ positive in
      let test = is_zero-units value in (e ∙ cc, cc, cc, cc, ground arith)

  -- An authorization that is returned: it holds the inputs and answers to the given generation and
  -- nonce alone; its ticket has the canonical sender and the canonical recipient of the request, the
  -- request's value, which is positive, and key; and its comment is cut from the trimmed comment of
  -- the request, if this is UTF-8.
  pub new_authorization-matches :
      (record_id wallet_id sender : Bytes) (inputs : WalletInputs) (request : SendRequest)
      (bounce : Bool) (generation nonce : ℕ) (a : SendAuthorization)
      → is_utf8 (trim request.comment) ≡ true
      → new_authorization record_id wallet_id sender inputs request bounce generation nonce ≡ ok a
      → (a.inputs ≡ inputs)
        × ((g n : ℕ) → (matches a g n ≡ true) ↔ ((g ≡ generation) × (n ≡ nonce)))
        × (canonicalize_recipient sender ≡ ok a.ticket.sender_address)
        × (canonicalize_recipient request.destination ≡ ok a.ticket.request.destination)
        × (a.ticket.request.value ≡ request.value)
        × (0 < units request.value)
        × (a.ticket.request.encrypt_to ≡ request.encrypt_to)
        × IsCut (trim request.comment) max_comment_bytes a.ticket.request.comment
  unfolding new_authorization sealed_to matches
  new_authorization-matches record_id wallet_id sender inputs request bounce generation nonce a text
        h =
      let (_, _, h₁) =
        >>=-eq-ok
          (reject_if
            (is_empty inputs.endpoint || not (bytes_eq (trim inputs.endpoint) inputs.endpoint))
            (validation "authorization endpoint identity is empty or noncanonical"))
          _ h in
      let (_, _, h₂) = >>=-eq-ok (validate_workchain inputs.workchain) _ h₁ in
      let (canonical, e, h₃) = >>=-eq-ok (canonicalize_recipient sender) _ h₂ in
      let (fresh, f, h₄) = >>=-eq-ok (new_request request.destination request.value) _ h₃ in
      let (commented, c, h₅) =
        >>=-eq-ok (with_comment {E = WalletError} fresh request.comment) _ h₄ in
      let (t, made, h₆) =
        >>=-eq-ok
          (map_err (λ error. validation (journal_error_text error))
            (new_ticket (
              draft_ticket record_id wallet_id canonical inputs
                (sealed_to commented request.encrypt_to) bounce generation nonce)))
          _ h₅ in
      let (to, value, _, _, positive) =
        new_request-eq-ok request.destination request.value fresh f in
      let (cut, to_kept, value_kept) = with_comment-eq-ok fresh request.comment commented text c in
      let draft =
        draft_ticket record_id wallet_id canonical inputs (sealed_to commented request.encrypt_to)
          bounce generation nonce in
      let held : draft ≡ t = new_ticket-eq-ok draft t (map_err-eq-ok _ (new_ticket draft) made) in
      let is : record { inputs = inputs; ticket = draft } ≡ a = cc in
      rw (← is) (
        refl,
        matches_iff inputs draft,
        e,
        to ∙ ap ok (sym to_kept),
        value_kept ∙ value,
        positive,
        refl,
        cut,
      )
