-- ===== src/Profile/Selection.antt =====
-- Normalization keeps the endpoint that a profile selects.
use cc_wallet_gui.Prelude.{
  ℕ, zero, suc, ◌<◌, List, [], ◌∷◌, Option, none, some, Bool, true, false, ◌||◌, ◌≡◌, inl, inr,
  refl, arith, ok, ltb, if◌then◌else◌, Bytes, bytes_eq, bytes_eq_refl, bytes_eq_sound, length, any,
  Bool-cases, sym, ◌∙◌, ap, ◌-◌,
}
use cc_wallet_gui.Strings.{trim}
use cc_wallet_gui.Amount.{is_empty}
use cc_wallet_gui.Profile.{
  WalletProfile, get_elem?, trimmed_nonempty, selected_url, tidy_endpoints, position, select_again,
  normalized, resolved_endpoint,
}

abbrev member : Bytes → List Bytes → Bool
member url s = any (λ (v : Bytes). bytes_eq v url) s

choose :
    (x : Bytes) (xs seen : List Bytes) {b : Bool}
    → (is_empty (trim x) || member (trim x) seen) ≡ b
    → tidy_endpoints seen (x ∷ xs) ≡ elim b [
      | true ↦ tidy_endpoints seen xs
      | false ↦ trim x ∷ tidy_endpoints (trim x ∷ seen) xs
    ]
unfolding tidy_endpoints
choose x xs seen e =
    ap
      (λ (b : Bool). elim b [
        | true ↦ tidy_endpoints seen xs
        | false ↦ trim x ∷ tidy_endpoints (trim x ∷ seen) xs
      ])
      e

tidy_endpoints-kept :
    (x : Bytes) (xs seen : List Bytes)
    → (is_empty (trim x) || member (trim x) seen) ≡ false
    → tidy_endpoints seen (x ∷ xs) ≡ trim x ∷ tidy_endpoints (trim x ∷ seen) xs
tidy_endpoints-kept x xs seen e = choose x xs seen e

tidy_endpoints-dropped :
    (x : Bytes) (xs seen : List Bytes)
    → (is_empty (trim x) || member (trim x) seen) ≡ true
    → tidy_endpoints seen (x ∷ xs) ≡ tidy_endpoints seen xs
tidy_endpoints-dropped x xs seen e = choose x xs seen e

trimmed_nonempty-eq-some :
    (x url : Bytes) → trimmed_nonempty (some x) ≡ some url → (trim x ≡ url) × (is_empty url ≡ false)
unfolding trimmed_nonempty
trimmed_nonempty-eq-some x url h = ground arith

-- The endpoint at an index of the custom ones is kept under its trimmed text.
member-tidy_endpoints :
    (url : Bytes) (urls seen : List Bytes) (k : ℕ)
    → trimmed_nonempty (get_elem? urls k) ≡ some url
    → member url seen ≡ false
    → member url (tidy_endpoints seen urls) ≡ true
unfolding get_elem? trimmed_nonempty
member-tidy_endpoints url [] seen k h n = ground arith
member-tidy_endpoints url (x ∷ xs) seen zero h n =
    let (t, e) = trimmed_nonempty-eq-some x url h in
    rw (tidy_endpoints-kept x xs seen (rw (t, e) n), t, bytes_eq_refl url) refl
member-tidy_endpoints url (x ∷ xs) seen (suc k) h n =
    elim (Bool-cases (is_empty (trim x) || member (trim x) seen)) [
      | inl e ↦ rw (tidy_endpoints-dropped x xs seen e) (member-tidy_endpoints url xs seen k h n)
      | inr e ↦ rw (tidy_endpoints-kept x xs seen e) (elim (Bool-cases (bytes_eq (trim x) url)) [
        | inl d ↦ rw d refl
        | inr d ↦ rw d (member-tidy_endpoints url xs (trim x ∷ seen) k h (rw d n))
      ])
    ]

-- A member has a position, and is found there.
position-member :
    (url : Bytes) (s : List Bytes)
    → member url s ≡ true
    → (p : ℕ) × (position url s ≡ some p) × (get_elem? s p ≡ some url) × (p < length s)
unfolding position get_elem?
position-member url [] h = absurd (ground arith)
position-member url (x ∷ xs) h = elim (Bool-cases (bytes_eq x url)) [
  | inl e ↦ (0, rw e refl, ap some (bytes_eq_sound x url e), omega arith)
  | inr e ↦
      let (p, found, at, below) =
        position-member url xs (sym (ap (λ b. b || member url xs) e) ∙ h) in
      (suc p, rw (e, found) refl, at, omega arith)
]

select_again-position :
    (url : Bytes) (s : List Bytes) (p : ℕ)
    → position url s ≡ some p
    → select_again (some url) s ≡ suc p
unfolding select_again
select_again-position url s p h = rw h refl

resolved_endpoint-first :
    (default : Bytes) (custom : List Bytes) → resolved_endpoint (some default) custom 0 ≡ ok default
unfolding resolved_endpoint
resolved_endpoint-first default custom = ground arith

resolved_endpoint-get_elem? :
    (default url : Bytes) (custom : List Bytes) (p : ℕ)
    → get_elem? custom p ≡ some url
    → p < length custom
    → resolved_endpoint (some default) custom (suc p) ≡ ok url
unfolding resolved_endpoint
resolved_endpoint-get_elem? default url custom p h l = ground arith

-- The endpoint that a selection means: a custom one without the space around it, counted from one,
-- or the default one if it is blank, if there is none at the index, or if the index is zero.
abbrev pub meant : Bytes → List Bytes → ℕ → Bytes
meant default urls zero = default
meant default [] (suc k) = default
meant default (url ∷ urls) (suc zero) = if is_empty (trim url) then default else trim url
meant default (url ∷ urls) (suc (suc k)) = meant default urls (suc k)

abbrev selected_or : Option Bytes → Bytes → Bytes
selected_or none default = default
selected_or (some url) default = url

meant-get_elem? :
    (default : Bytes) (urls : List Bytes) (k : ℕ)
    → selected_or (trimmed_nonempty (get_elem? urls k)) default ≡ meant default urls (suc k)
unfolding get_elem? trimmed_nonempty
meant-get_elem? default [] k = refl
meant-get_elem? default (url ∷ urls) zero = elim (Bool-cases (is_empty (trim url))) [
  | inl e ↦ rw e refl
  | inr e ↦ rw e refl
]
meant-get_elem? default (url ∷ urls) (suc k) = meant-get_elem? default urls k

-- The local of the code, for each index.
selected_url-meant :
    (default : Bytes) (profile : WalletProfile) (n : ℕ)
    → profile.selected_endpoint ≡ n
    → selected_or (selected_url profile) default ≡ meant default profile.custom_endpoints n
unfolding selected_url
selected_url-meant default profile zero e = rw e refl
selected_url-meant default profile (suc k) e =
    let positive : ltb 0 (suc k) ≡ true = ground arith in
    let before : suc k - 1 ≡ k = omega arith in
    rw (e, positive, before) (meant-get_elem? default profile.custom_endpoints k)

selected_url-nonempty :
    (profile : WalletProfile) (url : Bytes)
    → selected_url profile ≡ some url
    → (k : ℕ) × (trimmed_nonempty (get_elem? profile.custom_endpoints k) ≡ some url)
unfolding selected_url
selected_url-nonempty profile url h = (profile.selected_endpoint - 1, ground arith)

resolved :
    (profile : WalletProfile) (default : Bytes) (o : Option Bytes)
    → selected_url profile ≡ o
    → resolved_endpoint
        (some default)
        (tidy_endpoints [] profile.custom_endpoints)
        (select_again o (tidy_endpoints [] profile.custom_endpoints))
      ≡ ok (selected_or o default)
unfolding select_again
resolved profile default none h = resolved_endpoint-first default _
resolved profile default (some url) h =
    let (k, at) = selected_url-nonempty profile url h in
    let custom = tidy_endpoints [] profile.custom_endpoints in
    let (p, found, there, below) =
      position-member url custom
        (member-tidy_endpoints url profile.custom_endpoints [] k at refl) in
    rw (select_again-position url custom p found)
      (resolved_endpoint-get_elem? default url custom p there below)

-- With a default endpoint, the endpoint that a normalized profile resolves to is the one that the
-- selection meant before: the custom endpoint at the selected index, counted from one and without
-- the space around it, or the default endpoint if the index is zero or too large or if that endpoint
-- is blank. This is so although blank and repeated endpoints have been dropped and the selection
-- renumbered.
pub resolved_endpoint-normalized :
    (profile : WalletProfile) (default : Bytes)
    → resolved_endpoint
        (some default)
        (normalized profile).custom_endpoints
        (normalized profile).selected_endpoint
      ≡ ok (meant default profile.custom_endpoints profile.selected_endpoint)
unfolding normalized
resolved_endpoint-normalized profile default =
    resolved profile default (selected_url profile) refl
    ∙ ap ok (selected_url-meant default profile profile.selected_endpoint refl)
