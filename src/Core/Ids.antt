-- ===== src/Core/Ids.antt =====
-- rustend-core/src/ids.rs: each id is a transparent newtype of a `Uuid` or a `u64`.
use rustend.Prelude.{ℕ, List}

-- A `uuid::Uuid`: its 128 bits, read as a number.
abbrev pub Uuid : Type 0
Uuid = ℕ

abbrev pub ObjectId : Type 0
ObjectId = Uuid

abbrev pub RevisionId : Type 0
RevisionId = Uuid

abbrev pub ClientId : Type 0
ClientId = Uuid

-- A `u64`.
abbrev pub TransactionId : Type 0
TransactionId = ℕ

abbrev pub UserId : Type 0
UserId = Uuid

-- A `chrono::DateTime<Utc>`: a point on the time line, which the code only compares and stores.
abbrev pub Instant : Type 0
Instant = ℕ

-- A `String`: its bytes in UTF-8.
abbrev pub Text : Type 0
Text = List ℕ
