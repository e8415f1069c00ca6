-- ===== src/Records.antt =====
-- `crates/cc-wallet-domain/src/storage.rs`: the records of the on-chain storage of notes, the bytes
-- of a record, and the choice of a free number. The child files hold what is proved.
pub mod RoundTrip
pub mod FreeId
use mathlib.Core.List.{reverse}
use cc_wallet_gui.Prelude.{
  ℕ, zero, suc, ◌+◌, ◌-◌, ◌*◌, ◌%◌, ◌^◌, List, [], ◌∷◌, ◌++◌, Option, none, some, Bool, true, false,
  not, String, ltb, leb, ◌==◌, if◌then◌else◌, any, Outcome, ok, err, panic, ◌>>=◌, ◌>>◌, reject_if,
  Bytes, codes, length, take, drop, to_be_bytes,
}
use cc_wallet_gui.Decimal.{to_decimal}
use cc_wallet_gui.Strings.{trim, is_utf8}
use cc_wallet_gui.Amount.{is_empty}

abbrev pub max_record_title_bytes : ℕ
max_record_title_bytes = 128

abbrev pub max_record_data_bytes : ℕ
max_record_data_bytes = 1024

abbrev pub record_framing_bytes : ℕ
record_framing_bytes = 2

pub data StorageError : Type 0 where
  empty_title : StorageError
  title_too_long data_too_long full : ℕ → StorageError
  malformed : String → StorageError

-- `Display`
unfoldable pub storage_error_text : StorageError → Bytes
unfolding to_decimal
storage_error_text empty_title = codes "give the record a name"
storage_error_text (title_too_long bytes) =
    codes "the name is "
    ++ (to_decimal bytes ++ (codes " bytes; the limit is " ++ to_decimal max_record_title_bytes))
storage_error_text (data_too_long bytes) =
    codes "the record is "
    ++ (to_decimal bytes ++ (codes " bytes; the limit is " ++ to_decimal max_record_data_bytes))
storage_error_text (full limit) =
    codes "the storage already holds " ++ (to_decimal limit ++ codes " records")
storage_error_text (malformed what) = codes "the record could not be read: " ++ codes what

pub record StorageRecord : Type 0 where
  pub id : ℕ
  pub title : Bytes
  pub record_data : Bytes

pub data StorageOp : Type 0 where
  create : StorageOp
  put : ℕ → Bytes → Bytes → StorageOp
  delete : ℕ → StorageOp

unfoldable pub op_label : StorageOp → String
op_label create = "create storage"
op_label (put _ _ _) = "save record"
op_label (delete _) = "delete record"

unfoldable pub record_id : StorageOp → Option ℕ
record_id create = none
record_id (put id _ _) = some id
record_id (delete id) = some id

pub record StorageSnapshot : Type 0 where
  pub address : Bytes
  pub exists : Bool
  pub balance : ℕ
  pub records : List StorageRecord
  pub unreadable : ℕ

unfoldable pub is_full : StorageSnapshot → ℕ → Bool
is_full s limit = leb limit (length s.records)

unfoldable pub contains : StorageSnapshot → ℕ → Bool
contains s id = any (λ (r : StorageRecord). r.id == id) s.records

-- `validate_record` with the trimmed title.
unfoldable pub validate_trimmed : Bytes → Bytes → Outcome StorageError (Unit {0})
unfolding is_empty
validate_trimmed title content = do
  reject_if (is_empty title) empty_title
  reject_if (ltb max_record_title_bytes (length title)) (title_too_long (length title))
  reject_if (ltb max_record_data_bytes (length content)) (data_too_long (length content))
  ok tt

unfoldable pub validate_record : Bytes → Bytes → Outcome StorageError (Unit {0})
unfolding trim validate_trimmed
validate_record title content = validate_trimmed (trim title) content

unfoldable pub encode_record : Bytes → Bytes → Outcome StorageError Bytes
unfolding validate_record trim to_be_bytes
encode_record title content = do
  validate_record title content
  let title = trim title
  ok (to_be_bytes 2 (length title % 2 ^ 16) ++ (title ++ content))

-- `u16::from_be_bytes` of the two bytes in front
unfoldable pub header_len : Bytes → ℕ
header_len [] = 0
header_len (_ ∷ []) = 0
header_len (a ∷ b ∷ _) = a * 256 + b

-- The part of `decode_record` behind the header.
unfoldable pub split_record : ℕ → Bytes → Outcome StorageError (Bytes × Bytes)
split_record title_len rest = do
  reject_if (ltb (length rest) title_len) (malformed "the name runs past the end")
  let title = take title_len rest
  let content = drop title_len rest
  reject_if (not (is_utf8 title)) (malformed "the name is not valid text")
  reject_if (not (is_utf8 content)) (malformed "the contents are not valid text")
  ok (title, content)

unfoldable pub decode_record : Bytes → Outcome StorageError (Bytes × Bytes)
unfolding header_len split_record
decode_record bytes = do
  reject_if (ltb (length bytes) record_framing_bytes)
      (malformed "it is shorter than its own header")
  split_record (header_len bytes) (drop record_framing_bytes bytes)

unfoldable pub record_aad : Bytes → ℕ → Bytes
unfolding to_be_bytes
record_aad owner_address id = owner_address ++ to_be_bytes 4 id

-- `sort_unstable`, by insertion: equal numbers cannot be told apart, so every sort agrees with it.
insert : ℕ → List ℕ → List ℕ
insert a [] = a ∷ []
insert a (b ∷ s) = let rest = insert a s in if leb a b then a ∷ b ∷ s else b ∷ rest

unfoldable pub sort : List ℕ → List ℕ
unfolding insert
sort [] = []
sort (a ∷ s) = insert a (sort s)

-- `dedup`: a number equal to the one before it is dropped.
unfoldable pub dedup : List ℕ → List ℕ
dedup [] = []
dedup (a ∷ []) = a ∷ []
dedup (a ∷ b ∷ s) = let rest = dedup (b ∷ s) in if a == b then rest else a ∷ rest

-- The loop over the sorted numbers, which stops at the first one past the candidate.
unfoldable pub first_gap : ℕ → List ℕ → ℕ
first_gap candidate [] = candidate
first_gap candidate (id ∷ s) =
    let same = first_gap candidate s in
    let next = first_gap (candidate + 1) s in
    if ltb candidate id then candidate else if id == candidate then next else same

unfoldable pub next_free_id : List ℕ → ℕ → Outcome StorageError ℕ
unfolding sort dedup first_gap
next_free_id taken limit = do
  let sorted = dedup (sort taken)
  reject_if (leb limit (length sorted)) (full limit)
  ok (first_gap 1 sorted)
