-- ===== src/External/Reference.antt =====
-- Concrete functions that meet the interfaces of `External.Addresses` and `External.Crypto`, so that
-- their laws can hold. They are for witnesses and tests, and stand for no code.
use cc_wallet_gui.Prelude.{
  ℕ, zero, suc, ◌+◌, ◌∷◌, ◌++◌, Option, some, Bool, true, false, ◌≡◌, ◌≢◌, refl, ap, ◌∙◌, sym,
  subst, arith, String, Bytes, bytes_eq, Outcome, ok, err, panic, pos, length, drop, replicate,
  length-replicate, All,
}
use cc_wallet_gui.Ids.{hex_lower_encode}
use cc_wallet_gui.Journal.Identity.{int_text}
use cc_wallet_gui.External.{IsByte}
use cc_wallet_gui.External.Addresses.{StdAddr, StdAddrs}
use cc_wallet_gui.External.Crypto.{Crypto}
use cc_wallet_gui.External.Instances.{pad, length-pad}

-- One address of the base chain.
abbrev pub one_address : StdAddr
one_address = record { has_anycast = false; workchain = pos 0; address = replicate 32 7 }

unfoldable pub text_of : StdAddr → Bytes
unfolding int_text hex_lower_encode
text_of a = int_text a.workchain ++ b':' ∷ hex_lower_encode a.address

-- A parser that knows the one address.
unfoldable pub known : Bool → Outcome String StdAddr
known true = ok one_address
known false = err "unknown"

unfoldable pub parse_one : Bytes → Outcome String StdAddr
unfolding bytes_eq text_of known
parse_one s = known (bytes_eq s (text_of one_address))

known-eq-ok : (b : Bool) (a : StdAddr) → known b ≡ ok a → one_address ≡ a
unfolding known
known-eq-ok true a h = ok_injective h
  where
    ok_injective : {x y : StdAddr} → ◌≡◌ {A = Outcome String StdAddr} (ok x) (ok y) → x ≡ y
    ok_injective e = cc
known-eq-ok false a h = cc

known-ne-panic : (b : Bool) → known b ≢ panic
unfolding known
known-ne-panic true h = cc
known-ne-panic false h = cc

pub parse_one-eq-ok : (s : Bytes) (a : StdAddr) → parse_one s ≡ ok a → one_address ≡ a
unfolding parse_one
parse_one-eq-ok s a h = known-eq-ok (bytes_eq s (text_of one_address)) a h

pub parse_one-ne-panic : (s : Bytes) → parse_one s ≢ panic
unfolding parse_one
parse_one-ne-panic s = known-ne-panic (bytes_eq s (text_of one_address))

pub parse_one-text : parse_one (text_of one_address) ≡ ok one_address
unfolding parse_one
parse_one-text = refl

abbrev pub xor_free_encrypt : Bytes → Bytes → Bytes → Bytes → Option Bytes
xor_free_encrypt key nonce msg aad = some (replicate 16 0 ++ msg)

abbrev pub strip_tag : Bytes → Bytes → Bytes → Bytes → Option Bytes
strip_tag key nonce sealed aad = some (drop 16 sealed)

pub one_bytes : (length one_address.address ≡ 32) × All IsByte one_address.address
one_bytes = (refl, ground arith)

pub text_of-raw :
    (a : StdAddr) → text_of a ≡ int_text a.workchain ++ b':' ∷ hex_lower_encode a.address
unfolding text_of
text_of-raw a = refl

instance abbrev pub reference_addrs : StdAddrs
reference_addrs = record {
  from_str = parse_one;
  to_string = text_of;
  from_str_returns = parse_one-ne-panic;
  from_str_bytes = λ s a h.
      subst (λ (x : StdAddr). (length x.address ≡ 32) × All IsByte x.address)
        (parse_one-eq-ok s a h) one_bytes;
  to_string_raw = λ s a h _. text_of-raw a;
  from_str-to_string = λ s a h _.
      subst (λ (x : StdAddr). parse_one (text_of x) ≡ ok x) (parse_one-eq-ok s a h) parse_one-text;
}

pub some_injective : {x y : Bytes} → some x ≡ some y → x ≡ y
some_injective e = cc

pub padded : {n : ℕ} (x y : Bytes) → some x ≡ some y → length x ≡ n → length y ≡ n
padded x y e h = sym (ap length (some_injective e)) ∙ h

pub drop-replicate : (k : ℕ) (s : Bytes) → drop k (replicate k 0 ++ s) ≡ s
drop-replicate zero s = refl
drop-replicate (suc k) s = drop-replicate k s

pub encrypt-length :
    (key nonce msg aad sealed : Bytes)
    → xor_free_encrypt key nonce msg aad ≡ some sealed
    → length sealed ≡ length msg + 16
encrypt-length key nonce msg aad sealed h =
    let is : replicate 16 0 ++ msg ≡ sealed = some_injective h in sym (ap length is) ∙ omega arith

instance abbrev pub reference_crypto : Crypto
reference_crypto = record {
  argon2_params = λ m t p. true;
  argon2 = λ m t p password salt. some (pad 32 password);
  argon2_length =
      λ m t p password salt key h. padded (pad 32 password) key h (length-pad 32 password);
  encrypt = xor_free_encrypt;
  decrypt = strip_tag;
  encrypt_length = encrypt-length;
  decrypt-encrypt = λ key nonce msg aad sealed h.
      ap some (ap (drop 16) (sym (some_injective h)) ∙ drop-replicate 16 msg);
  derive_key = λ c key. pad 32 key;
  derive_key_length = λ c key. length-pad 32 key;
  random = λ call n. some (replicate n 7);
  random_length = λ call n bytes h. padded (replicate n 7) bytes h (length-replicate n 7);
}
