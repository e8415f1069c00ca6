-- ===== src/Vault/Payloads.antt =====
-- The payloads of the sections of a container, by their purpose.
use cc_wallet_gui.Prelude.{
  ℕ, ◌+◌, ◌≤◌, List, [], ◌∷◌, Option, none, some, false, not, ◌≡◌, ◌≢◌, refl, ap, ◌∙◌, arith, ltb,
  ◌==◌, if◌then◌else◌, ok, reject_if, >>=-eq-ok, reject_if-eq-ok, Bytes, length, map, ltb→le,
}
use cc_wallet_gui.External.Crypto.{Crypto}
use cc_wallet_gui.Vault.{VaultResult, corrupt}
use cc_wallet_gui.Vault.Header.{Purpose, wallet, activity, journal, purpose_id, PublicHeader}
use cc_wallet_gui.Vault.Manifest.{count_ids, check_cardinality}
use cc_wallet_gui.Vault.Container.{
  Vault, Section, ActivitySection, present, Found, open_sections, open_body,
}
use cc_wallet_gui.Vault.Sealing.{IsSealed}

abbrev pub or_else {ℓ} : {A : Type ℓ} → Option A → Option A → Option A
or_else none b = b
or_else (some a) b = some a

-- The payload of a section with a purpose; the last one, if there are several.
unfoldable pub payload_of : Purpose → List Section → Option Bytes
unfolding purpose_id
payload_of purpose [] = none
payload_of purpose (s ∷ ss) =
    or_else (payload_of purpose ss)
      (if purpose_id s.0 == purpose_id purpose then some s.1 else none)

abbrev pub activity_or : Option Bytes → ActivitySection → ActivitySection
activity_or none a = a
activity_or (some payload) a = present payload

-- What the loop over the sections finds.
abbrev pub found_in : List Section → Found → Found
found_in ss f = record {
  found_wallet = or_else (payload_of wallet ss) f.found_wallet;
  found_journal = or_else (payload_of journal ss) f.found_journal;
  found_activity = activity_or (payload_of activity ss) f.found_activity;
}

abbrev pub ids : List Section → List ℕ
ids = map (λ (s : Section). purpose_id s.0)

or_else-none {ℓ} : {A : Type ℓ} (a b : Option A) → or_else a b ≡ none → (a ≡ none) × (b ≡ none)
or_else-none none b h = (refl, h)
or_else-none (some a) b h = cc

some-ne-none {ℓ} : {A : Type ℓ} {a : A} → some a ≢ none
some-ne-none e = cc

counts_end :
    {w j a : ℕ} {c : ℕ × ℕ × ℕ}
    → ◌≡◌ {A = VaultResult (ℕ × ℕ × ℕ)} (ok (w, j, a)) (ok c)
    → (c.0 ≡ w) × (c.1 ≡ j) × (c.2 ≡ a)
counts_end h = (cc, cc, cc)

-- Without a section of a purpose, its count stays.
count_ids-absent_wallet :
    (w j a : ℕ) (ss : List Section) (c : ℕ × ℕ × ℕ)
    → count_ids w j a (ids ss) ≡ ok c
    → payload_of wallet ss ≡ none
    → c.0 ≡ w
unfolding count_ids payload_of purpose_id
count_ids-absent_wallet w j a [] c h e = (counts_end h).0
count_ids-absent_wallet w j a ((wallet, x) ∷ ss) c h e =
    absurd (some-ne-none (or_else-none (payload_of wallet ss) (some x) e).1)
count_ids-absent_wallet w j a ((journal, x) ∷ ss) c h e =
    count_ids-absent_wallet w (j + 1) a ss c h (or_else-none (payload_of wallet ss) none e).0
count_ids-absent_wallet w j a ((activity, x) ∷ ss) c h e =
    count_ids-absent_wallet w j (a + 1) ss c h (or_else-none (payload_of wallet ss) none e).0

count_ids-absent_journal :
    (w j a : ℕ) (ss : List Section) (c : ℕ × ℕ × ℕ)
    → count_ids w j a (ids ss) ≡ ok c
    → payload_of journal ss ≡ none
    → c.1 ≡ j
unfolding count_ids payload_of purpose_id
count_ids-absent_journal w j a [] c h e = (counts_end h).1
count_ids-absent_journal w j a ((wallet, x) ∷ ss) c h e =
    count_ids-absent_journal (w + 1) j a ss c h (or_else-none (payload_of journal ss) none e).0
count_ids-absent_journal w j a ((journal, x) ∷ ss) c h e =
    absurd (some-ne-none (or_else-none (payload_of journal ss) (some x) e).1)
count_ids-absent_journal w j a ((activity, x) ∷ ss) c h e =
    count_ids-absent_journal w j (a + 1) ss c h (or_else-none (payload_of journal ss) none e).0

count_ids-length :
    (w j a : ℕ) (ss : List Section) (c : ℕ × ℕ × ℕ)
    → count_ids w j a (ids ss) ≡ ok c
    → c.0 + c.1 + c.2 ≡ w + j + a + length ss
unfolding count_ids purpose_id
count_ids-length w j a [] c h = let ends = counts_end h in omega (arith, ends)
count_ids-length w j a ((wallet, x) ∷ ss) c h = omega (arith, count_ids-length (w + 1) j a ss c h)
count_ids-length w j a ((journal, x) ∷ ss) c h = omega (arith, count_ids-length w (j + 1) a ss c h)
count_ids-length w j a ((activity, x) ∷ ss) c h = omega (arith, count_ids-length w j (a + 1) ss c h)

one : (n : ℕ) → not (n == 1) ≡ false → n ≡ 1
one n h = ground arith

present_of {ℓ} : {A : Type ℓ} (o : Option A) → (o ≡ none → ⊥) → (a : A) × (o ≡ some a)
present_of none h = absurd (h refl)
present_of (some a) h = (a, refl)

-- Sections of which one is a wallet, one a journal and at most one an activity.
pub check_cardinality-eq-ok :
    (ss : List Section) {u : Unit {0}}
    → check_cardinality (ids ss) ≡ ok u
    → (length ss ≤ 3)
      × ((x : Bytes) × (payload_of wallet ss ≡ some x))
      × ((x : Bytes) × (payload_of journal ss ≡ some x))
unfolding check_cardinality
check_cardinality-eq-ok ss h =
    let (c, counted, h₁) = >>=-eq-ok (count_ids 0 0 0 (ids ss)) _ h in
    let (_, one_wallet, h₂) =
      >>=-eq-ok
        (reject_if (not (c.0 == 1)) (corrupt "container must have exactly one wallet section")) _
        h₁ in
    let (_, one_journal, h₃) =
      >>=-eq-ok
        (reject_if (not (c.1 == 1)) (corrupt "container must have exactly one journal section")) _
        h₂ in
    let (_, few, _) =
      >>=-eq-ok (reject_if (ltb 1 c.2) (corrupt "container has more than one activity section")) _
        h₃ in
    let w : c.0 ≡ 1 = one c.0 (reject_if-eq-ok (not (c.0 == 1)) _ one_wallet) in
    let j : c.1 ≡ 1 = one c.1 (reject_if-eq-ok (not (c.1 == 1)) _ one_journal) in
    let a = ltb→le 1 c.2 (reject_if-eq-ok (ltb 1 c.2) _ few) in
    (
      omega (arith, count_ids-length 0 0 0 ss c counted),
      present_of (payload_of wallet ss)
          (λ e. absurd (omega (arith, count_ids-absent_wallet 0 0 0 ss c counted e))),
      present_of (payload_of journal ss)
          (λ e. absurd (omega (arith, count_ids-absent_journal 0 0 0 ss c counted e))),
    )

pub ids-sealed :
    ⦃crypto_lib : Crypto⦄ (v : Vault) (header : PublicHeader) (manifest : Bytes) (ss : List Section)
    (ps : List (ℕ × Bytes))
    → IsSealed v header manifest ss ps
    → map (λ (p : ℕ × Bytes). p.0) ps ≡ ids ss
ids-sealed v header manifest [] [] h = refl
ids-sealed v header manifest [] (p ∷ ps) h = absurd h
ids-sealed v header manifest (s ∷ ss) [] h = absurd h
ids-sealed v header manifest (s ∷ ss) (p ∷ ps) ((e, _, _), h) =
    let rest = ids-sealed v header manifest ss ps h in cc

open_sections-wallet :
    ⦃crypto_lib : Crypto⦄ (v : Vault) (header : PublicHeader) (manifest : Bytes) (id : ℕ)
    (body x : Bytes) (ps : List (ℕ × Bytes)) (f : Found)
    → id ≡ purpose_id wallet
    → open_body v wallet header manifest body (corrupt "wallet payload") ≡ ok x
    → open_sections v header manifest ((id, body) ∷ ps) f
      ≡ open_sections v header manifest ps (record f { found_wallet = some x })
unfolding open_sections purpose_id
open_sections-wallet v header manifest id body x ps f e opens = rw (e, opens) refl

open_sections-journal :
    ⦃crypto_lib : Crypto⦄ (v : Vault) (header : PublicHeader) (manifest : Bytes) (id : ℕ)
    (body x : Bytes) (ps : List (ℕ × Bytes)) (f : Found)
    → id ≡ purpose_id journal
    → open_body v journal header manifest body (corrupt "journal payload") ≡ ok x
    → open_sections v header manifest ((id, body) ∷ ps) f
      ≡ open_sections v header manifest ps (record f { found_journal = some x })
unfolding open_sections purpose_id
open_sections-journal v header manifest id body x ps f e opens = rw (e, opens) refl

open_sections-activity :
    ⦃crypto_lib : Crypto⦄ (v : Vault) (header : PublicHeader) (manifest : Bytes) (id : ℕ)
    (body x : Bytes) (ps : List (ℕ × Bytes)) (f : Found)
    → id ≡ purpose_id activity
    → open_body v activity header manifest body (corrupt "activity payload") ≡ ok x
    → open_sections v header manifest ((id, body) ∷ ps) f
      ≡ open_sections v header manifest ps (record f { found_activity = present x })
unfolding open_sections purpose_id
open_sections-activity v header manifest id body x ps f e opens = rw (e, opens) refl

or_else_assoc {ℓ} :
    {A : Type ℓ} (a b c : Option A) → or_else a (or_else b c) ≡ or_else (or_else a b) c
or_else_assoc none b c = refl
or_else_assoc (some a) b c = refl

activity_or-or_else :
    (a b : Option Bytes) (c : ActivitySection)
    → activity_or a (activity_or b c) ≡ activity_or (or_else a b) c
activity_or-or_else none b c = refl
activity_or-or_else (some a) b c = refl

found_eq :
    {w w' j j' : Option Bytes} {a a' : ActivitySection}
    → w ≡ w'
    → j ≡ j'
    → a ≡ a'
    → ◌≡◌ {A = Found}
        (record { found_wallet = w; found_journal = j; found_activity = a })
        (record { found_wallet = w'; found_journal = j'; found_activity = a' })
found_eq e h k = cc

-- One section in front.
found_in-cons :
    (s : Section) (ss : List Section) (f : Found)
    → found_in ss (found_in (s ∷ []) f) ≡ found_in (s ∷ ss) f
unfolding payload_of
found_in-cons s ss f =
    found_eq (or_else_assoc (payload_of wallet ss) _ f.found_wallet)
      (or_else_assoc (payload_of journal ss) _ f.found_journal)
      (activity_or-or_else (payload_of activity ss) _ f.found_activity)

pub open_sections-found_in :
    ⦃crypto_lib : Crypto⦄ (v : Vault) (header : PublicHeader) (manifest : Bytes) (ss : List Section)
    (ps : List (ℕ × Bytes)) (f : Found)
    → IsSealed v header manifest ss ps
    → open_sections v header manifest ps f ≡ ok (found_in ss f)
unfolding open_sections payload_of purpose_id
open_sections-found_in v header manifest [] [] f h = refl
open_sections-found_in v header manifest [] (p ∷ ps) f h = absurd h
open_sections-found_in v header manifest (s ∷ ss) [] f h = absurd h
open_sections-found_in v header manifest ((wallet, x) ∷ ss) ((id, body) ∷ ps) f ((e, _, opens), h) =
    open_sections-wallet v header manifest id body x ps f e (opens (corrupt "wallet payload"))
    ∙ open_sections-found_in v header manifest ss ps (found_in ((wallet, x) ∷ []) f) h
    ∙ ap ok (found_in-cons (wallet, x) ss f)
open_sections-found_in v header manifest ((journal, x) ∷ ss) ((id, body) ∷ ps) f
      ((e, _, opens), h) =
    open_sections-journal v header manifest id body x ps f e (opens (corrupt "journal payload"))
    ∙ open_sections-found_in v header manifest ss ps (found_in ((journal, x) ∷ []) f) h
    ∙ ap ok (found_in-cons (journal, x) ss f)
open_sections-found_in v header manifest ((activity, x) ∷ ss) ((id, body) ∷ ps) f
      ((e, _, opens), h) =
    open_sections-activity v header manifest id body x ps f e (opens (corrupt "activity payload"))
    ∙ open_sections-found_in v header manifest ss ps (found_in ((activity, x) ∷ []) f) h
    ∙ ap ok (found_in-cons (activity, x) ss f)
