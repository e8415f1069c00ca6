-- ===== src/Digest/Injective.antt =====
-- digest.rs: the bytes that `digest` hashes determine the kind and the fields.
use native.Mathlib.Nat.{pow-suc}
use cc_wallet_gui.Prelude.{
  ℕ, zero, suc, ◌+◌, ◌/◌, ◌%◌, ◌^◌, ◌<◌, List, [], ◌∷◌, ◌++◌, ◌≡◌, refl, sym, ap, ◌∙◌, arith, leb,
  Bytes, length, length-append, append_assoc, ok, reject_if, to_be_bytes, >>=-eq-ok,
}
use cc_wallet_gui.Digest.Frame.{
  digest_domain, too_many_fields, DigestKind, kind_text, checked_field_len, frame, frames, preimage,
}

-- Equal texts whose first parts have one length agree in both parts.
split_append : (a b s t : Bytes) → length a ≡ length b → a ++ s ≡ b ++ t → (a ≡ b) × (s ≡ t)
split_append [] [] s t l h = (refl, h)
split_append [] (y ∷ b) s t l h = ground arith
split_append (x ∷ a) [] s t l h = ground arith
split_append (x ∷ a) (y ∷ b) s t l h = ground (arith, split_append a b s t)

length-to_be_bytes : (k n : ℕ) → length (to_be_bytes k n) ≡ k
unfolding to_be_bytes
length-to_be_bytes zero n = refl
length-to_be_bytes (suc k) n = omega (
  arith,
  length-append (to_be_bytes k (n / 256)) ((n % 256) ∷ []),
  length-to_be_bytes k (n / 256),
)

to_be_bytes_injective :
    (k a b : ℕ) → a < 256 ^ k → b < 256 ^ k → to_be_bytes k a ≡ to_be_bytes k b → a ≡ b
unfolding to_be_bytes
to_be_bytes_injective zero a b ha hb h = omega (arith, ha, hb)
to_be_bytes_injective (suc k) a b ha hb h =
    let (front, last) =
      split_append (to_be_bytes k (a / 256)) (to_be_bytes k (b / 256)) ((a % 256) ∷ [])
        ((b % 256) ∷ []) (length-to_be_bytes k (a / 256) ∙ sym (length-to_be_bytes k (b / 256)))
        h in
    let high =
      to_be_bytes_injective k (a / 256) (b / 256) (omega (arith, ha, pow-suc 256 k))
        (omega (arith, hb, pow-suc 256 k)) front in
    let low : a % 256 ≡ b % 256 = ground (arith, last) in omega (arith, high, low)

-- The frame of a field, before the frames of the others.
record Framed (index : ℕ) (field : Bytes) (fields : List Bytes) (s : Bytes) : Type 0 where
  rest : Bytes
  framed : frames (index + 1) fields ≡ ok rest
  short : length field < 2 ^ 32
  joined : s ≡ to_be_bytes 2 (index + 1) ++ (to_be_bytes 4 (length field) ++ (field ++ rest))

frame-ok :
    (tag : ℕ) (field s : Bytes)
    → frame tag field ≡ ok s
    → (length field < 2 ^ 32) × (s ≡ to_be_bytes 2 tag ++ (to_be_bytes 4 (length field) ++ field))
unfolding frame checked_field_len
frame-ok tag field s h = ground arith

frames-Framed :
    (index : ℕ) (field : Bytes) (fields : List Bytes) (s : Bytes)
    → frames index (field ∷ fields) ≡ ok s
    → Framed index field fields s
unfolding frames
frames-Framed index field fields s h =
    let (u, a, h1) = >>=-eq-ok (reject_if (leb (2 ^ 16) (index + 1)) too_many_fields) _ h in
    let (first, b, h2) = >>=-eq-ok (frame (index + 1) field) _ h1 in
    let (others, c, h3) = >>=-eq-ok (frames (index + 1) fields) _ h2 in
    let (small, is) = frame-ok (index + 1) field first b in
    let whole : first ++ others ≡ s = cc in
    record {
      rest = others;
      framed = c;
      short = small;
      joined =
          sym whole
          ∙ ap (λ (t : Bytes). t ++ others) is
          ∙ append_assoc (to_be_bytes 2 (index + 1)) (to_be_bytes 4 (length field) ++ field) others
          ∙ ap (λ (t : Bytes). to_be_bytes 2 (index + 1) ++ t)
              (append_assoc (to_be_bytes 4 (length field)) field others);
    }

Framed-ne-nil :
    (index : ℕ) (field : Bytes) (fields : List Bytes) (s : Bytes)
    → Framed index field fields s
    → 0 < length s
Framed-ne-nil index field fields s f = omega (
  arith,
  ap length f.joined,
  length-append (to_be_bytes 2 (index + 1)) (to_be_bytes 4 (length field) ++ (field ++ f.rest)),
  length-to_be_bytes 2 (index + 1),
)

Framed-agree :
    (index : ℕ) (f g : Bytes) (fs gs : List Bytes) (s : Bytes) (x : Framed index f fs s)
    (y : Framed index g gs s)
    → (f ≡ g) × (x.rest ≡ y.rest)
Framed-agree index f g fs gs s x y =
    let tag = to_be_bytes 2 (index + 1) in
    let (t, after_tag) =
      split_append tag tag (to_be_bytes 4 (length f) ++ (f ++ x.rest))
        (to_be_bytes 4 (length g) ++ (g ++ y.rest)) refl (sym x.joined ∙ y.joined) in
    let (lens, after_len) =
      split_append (to_be_bytes 4 (length f)) (to_be_bytes 4 (length g)) (f ++ x.rest) (g ++ y.rest)
        (length-to_be_bytes 4 (length f) ∙ sym (length-to_be_bytes 4 (length g))) after_tag in
    let same =
      to_be_bytes_injective 4 (length f) (length g) (omega (arith, x.short))
        (omega (arith, y.short)) lens in
    split_append f g x.rest y.rest same after_len

frames_injective :
    (index : ℕ) (fs gs : List Bytes) (s : Bytes)
    → frames index fs ≡ ok s
    → frames index gs ≡ ok s
    → fs ≡ gs
unfolding frames
frames_injective index [] [] s h k = refl
frames_injective index [] (g ∷ gs) s h k =
    let long = Framed-ne-nil index g gs s (frames-Framed index g gs s k) in ground (arith, long, h)
frames_injective index (f ∷ fs) [] s h k =
    let long = Framed-ne-nil index f fs s (frames-Framed index f fs s h) in ground (arith, long, k)
frames_injective index (f ∷ fs) (g ∷ gs) s h k =
    let x = frames-Framed index f fs s h in
    let y = frames-Framed index g gs s k in
    let (same, rests) = Framed-agree index f g fs gs s x y in
    let others =
      frames_injective (index + 1) fs gs x.rest x.framed (y.framed ∙ ap ok (sym rests)) in
    cc (same, others)

kinds_agree :
    (k l : DigestKind) (s t : Bytes)
    → digest_domain ++ (kind_text k ++ 0 ∷ s) ≡ digest_domain ++ (kind_text l ++ 0 ∷ t)
    → (k ≡ l) × (s ≡ t)
unfolding kind_text
kinds_agree k l s t h = ground arith

-- Two digest inputs that are hashed as the same bytes have the same kind and the same fields: the
-- domain, the kind and the tagged and length-prefixed fields can be told apart in the bytes.
pub preimage_injective :
    (k l : DigestKind) (fs gs : List Bytes) (s : Bytes)
    → preimage k fs ≡ ok s
    → preimage l gs ≡ ok s
    → (k ≡ l) × (fs ≡ gs)
unfolding preimage
preimage_injective k l fs gs s h h' =
    let (a, framed_a, done) = >>=-eq-ok (frames 0 fs) _ h in
    let (b, framed_b, done') = >>=-eq-ok (frames 0 gs) _ h' in
    let whole : digest_domain ++ (kind_text k ++ 0 ∷ a) ≡ digest_domain ++ (kind_text l ++ 0 ∷ b) =
      cc in
    let (kinds, same) = kinds_agree k l a b whole in
    (kinds, frames_injective 0 fs gs a framed_a (framed_b ∙ ap ok (sym same)))
