-- ===== src/Digest/Sets.antt =====
-- digest.rs: the digests of sets of rows, sorted by key, without duplicates.
use Prim.Native.Nat.{Ordering, compare}
use cc_wallet_gui.Prelude.{
  ℕ, ◌+◌, ◌^◌, List, [], ◌∷◌, ◌++◌, Bool, true, false, ◌||◌, leb, Bytes, length, Outcome, ok, ◌>>=◌,
  ◌>>◌, reject_if, cmp_bytes, to_be_bytes,
}
use cc_wallet_gui.External.{BigUint, Sha256}
use cc_wallet_gui.Ids.{Digest32}
use cc_wallet_gui.Digest.Frame.{
  DigestError, field_too_long, too_many_rows, duplicate_row, DigestKind, blocker_set,
  reservation_set, overlap_set, checked_field_len, digest,
}
use cc_wallet_gui.Digest.Rows.{kind_code, BlockerRow, Reservation}
use cc_wallet_gui.Digest.RowBytes.{blocker_row_bytes, asset_amount_bytes, reservation_row_bytes}

unfoldable pub is_equal : Ordering → Bool
is_equal Ordering.eq = true
is_equal _ = false

-- `sort_by`, which is stable: a row goes before the later rows whose keys are not smaller.
module _ {ℓ} {K : Type ℓ} (cmp : K → K → Ordering) where
  unfoldable pub insert_row : K × Bytes → List (K × Bytes) → List (K × Bytes)
  insert_row x [] = x ∷ []
  insert_row x (y ∷ ys) = elim (cmp x.0 y.0) [ Ordering.gt ↦ y ∷ insert_row x ys | _ ↦ x ∷ y ∷ ys ]

  unfoldable pub sort_rows : List (K × Bytes) → List (K × Bytes)
  unfolding insert_row
  sort_rows [] = []
  sort_rows (x ∷ xs) = insert_row x (sort_rows xs)

  -- `windows(2).any(|w| w[0].0 == w[1].0)`
  unfoldable pub has_adjacent_keys : List (K × Bytes) → Bool
  unfolding is_equal
  has_adjacent_keys [] = false
  has_adjacent_keys (x ∷ []) = false
  has_adjacent_keys (x ∷ y ∷ rest) = is_equal (cmp x.0 y.0) || has_adjacent_keys (y ∷ rest)

-- `checked_set_blob_len`, from a running total
unfoldable pub checked_set_blob_len : ℕ → List Bytes → Outcome DigestError ℕ
unfolding checked_field_len
checked_set_blob_len total [] = do checked_field_len total; ok total
checked_set_blob_len total (row ∷ rows) = do
  reject_if (leb (2 ^ 64) (total + length row)) field_too_long
  checked_set_blob_len (total + length row) rows

unfoldable pub concat : List Bytes → Bytes
concat [] = []
concat (row ∷ rows) = row ++ concat rows

unfoldable pub assemble_set_blob : List Bytes → Outcome DigestError Bytes
unfolding checked_set_blob_len to_be_bytes concat
assemble_set_blob rows = do
  reject_if (leb (2 ^ 32) (length rows)) too_many_rows
  checked_set_blob_len 4 rows
  ok (to_be_bytes 4 (length rows) ++ concat rows)

unfoldable pub row_bytes {ℓ} : {K : Type ℓ} → List (K × Bytes) → List Bytes
row_bytes [] = []
row_bytes ((_, bytes) ∷ items) = bytes ∷ row_bytes items

-- Sort, refuse equal keys, assemble: the blob of a set.
unfoldable pub set_blob {ℓ} :
    {K : Type ℓ} → (K → K → Ordering) → List (K × Bytes) → Outcome DigestError Bytes
unfolding sort_rows has_adjacent_keys row_bytes assemble_set_blob
set_blob cmp items = do
  let ordered = sort_rows cmp items
  reject_if (has_adjacent_keys cmp ordered) duplicate_row
  assemble_set_blob (row_bytes ordered)

-- The items of `blocker_set_digest`.
unfoldable pub blocker_items : List BlockerRow → Outcome DigestError (List (Bytes × Bytes))
unfolding blocker_row_bytes
blocker_items [] = ok []
blocker_items (row ∷ rows) = do
  bytes ← blocker_row_bytes row.record_id row.evidence row.external_hash
  items ← blocker_items rows
  ok ((row.record_id, bytes) ∷ items)

-- `ReservationSortKey`, compared field by field
abbrev pub ReservationKey : Type 0
ReservationKey = Bytes × Bytes × ℕ

then_by : Ordering → Ordering → Ordering
then_by Ordering.eq o = o
then_by o _ = o

unfoldable pub cmp_key : ReservationKey → ReservationKey → Ordering
unfolding then_by cmp_bytes
cmp_key a b = then_by (cmp_bytes a.0 b.0) (then_by (cmp_bytes a.1 b.1) (compare a.2 b.2))

module _ ⦃big : BigUint⦄ where
  unfoldable pub reservation_items :
      List Reservation → Outcome DigestError (List (ReservationKey × Bytes))
  unfolding reservation_row_bytes asset_amount_bytes kind_code
  reservation_items [] = ok []
  reservation_items (row ∷ rows) = do
    bytes ← reservation_row_bytes row.record_id row.amount row.kind
    items ← reservation_items rows
    ok (((row.record_id, asset_amount_bytes row.amount, kind_code row.kind), bytes) ∷ items)

module _ ⦃sha : Sha256⦄ where
  unfoldable pub blocker_set_digest : List BlockerRow → Outcome DigestError Digest32
  unfolding blocker_items set_blob digest
  blocker_set_digest rows = do
    items ← blocker_items rows
    blob ← set_blob cmp_bytes items
    digest blocker_set (blob ∷ [])

module _ ⦃big : BigUint⦄ ⦃sha : Sha256⦄ where
  -- `reservation_like_set_digest`
  unfoldable pub reservation_like_set_digest :
      DigestKind → List Reservation → Outcome DigestError Digest32
  unfolding reservation_items set_blob cmp_key digest
  reservation_like_set_digest kind rows = do
    items ← reservation_items rows
    blob ← set_blob cmp_key items
    digest kind (blob ∷ [])

  unfoldable pub reservation_set_digest : List Reservation → Outcome DigestError Digest32
  unfolding reservation_like_set_digest
  reservation_set_digest = reservation_like_set_digest reservation_set

  unfoldable pub overlap_set_digest : List Reservation → Outcome DigestError Digest32
  unfolding reservation_like_set_digest
  overlap_set_digest = reservation_like_set_digest overlap_set
