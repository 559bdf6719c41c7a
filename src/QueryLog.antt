-- ===== src/QueryLog.antt =====
-- internal/querylog/querylog.go: the loop of `readOpenFile` over one log file. `parse` is `parseLine`
-- with the check of the client's address; `insert_ok` says whether the transaction that commits up to
-- an offset succeeds, and `cancelled` whether the context is done when a read at a position starts.
pub mod Entries
pub mod Lines
pub mod Once
mod Examples
use faro.Prelude.{
  nat_eq, ℕ, ◌+◌, Bool, true, false, List, [], ◌∷◌, ◌++◌, Option, none, some, if◌then◌else◌, ◌==◌,
  length,
}
use faro.Strings.{Bytes}

abbrev pub query_ingest_batch_size : ℕ
query_ingest_batch_size = 256

-- The size of the buffered reader.
abbrev pub buffer_size : ℕ
buffer_size = 65536

abbrev pub newline : ℕ
newline = 10

-- The rows of the query log, and the checkpoint that commits with them: identity and offset.
pub record Store (Row : Type 0) : Type 0 where
  pub rows : List Row
  pub checkpoint : Option (Bytes × ℕ)

pub record Io (Row : Type 0) : Type 0 where
  pub identity : Bytes
  pub parse : Bytes → Option Row
  pub insert_ok : ℕ → Bool
  pub cancelled : ℕ → Bool

-- The local variables of `readOpenFile`; `fragment` is what `ReadSlice` has read since it returned.
pub record Reader (Row : Type 0) : Type 0 where
  pub fragment : Bytes
  pub oversized : Bool
  pub position : ℕ
  pub committed : ℕ
  pub complete : ℕ
  pub entries : List Row
  pub lines : ℕ
  pub store : Store Row

pub data Progress (Row : Type 0) : Type 0 where
  going stopped : Reader Row → Progress Row

module _ {Row : Type 0} where
  -- `insertBatch` with its checkpoint, in one transaction.
  unfoldable pub commit_batch : Io Row → Reader Row → Reader Row
  commit_batch io r = record r {
    store = record {
      rows = r.store.rows ++ r.entries;
      checkpoint = some (io.identity, r.complete);
    };
    committed = r.complete;
    entries = [];
    lines = 0;
  }

  unfoldable pub flush : Io Row → Reader Row → Progress Row
  unfolding commit_batch
  flush io r =
      if r.complete == r.committed
      then going r
      else if io.insert_ok r.complete
      then going (commit_batch io r)
      else stopped r

  abbrev pub add_row : Option Row → List Row → List Row
  add_row none l = l
  add_row (some row) l = l ++ row ∷ []

  -- A line that ends: its entry, unless the line was longer than the buffer.
  unfoldable pub end_line : Io Row → Reader Row → Reader Row
  end_line io r = record r {
    fragment = [];
    oversized = false;
    position = r.position + 1;
    complete = r.position + 1;
    entries =
        if r.oversized
        then r.entries
        else add_row (io.parse (r.fragment ++ newline ∷ [])) r.entries;
    lines = r.lines + 1;
  }

  unfoldable pub flush_full : Io Row → Reader Row → Progress Row
  unfolding flush
  flush_full io r = if r.lines == query_ingest_batch_size then flush io r else going r

  unfoldable pub check_context : Io Row → Progress Row → Progress Row
  check_context io (going r) = if io.cancelled r.position then stopped r else going r
  check_context io (stopped r) = stopped r

  -- `ErrBufferFull`.
  unfoldable pub drop_buffer : Reader Row → Reader Row
  drop_buffer r = record r { fragment = []; oversized = true; position = r.position + 1 }

  unfoldable pub read_byte : Io Row → Reader Row → ℕ → Progress Row
  unfolding end_line flush_full check_context drop_buffer
  read_byte io r c =
      if c == newline
      then check_context io (flush_full io (end_line io r))
      else if length r.fragment + 1 == buffer_size
      then check_context io (going (drop_buffer r))
      else going (record r { fragment = r.fragment ++ c ∷ []; position = r.position + 1 })

  unfoldable pub read_on : Io Row → Progress Row → ℕ → Progress Row
  unfolding read_byte
  read_on io (going r) c = read_byte io r c
  read_on io (stopped r) c = stopped r

  unfoldable pub read_bytes : Io Row → Progress Row → Bytes → Progress Row
  unfolding read_on
  read_bytes io p [] = p
  read_bytes io p (c ∷ s) = read_bytes io (read_on io p c) s

  -- At the end of the file: the offset to go on from, and whether there was no error.
  unfoldable pub finish : Io Row → Progress Row → Progress Row
  unfolding flush
  finish io (going r) = flush io r
  finish io (stopped r) = stopped r

  abbrev pub start_reader : ℕ → Store Row → Reader Row
  start_reader offset s = record {
    fragment = [];
    oversized = false;
    position = offset;
    committed = offset;
    complete = offset;
    entries = [];
    lines = 0;
    store = s;
  }

  -- `readOpenFile` on what the file holds from `offset` on.
  unfoldable pub read_open_file : Io Row → ℕ → Bytes → Store Row → Progress Row
  unfolding check_context read_bytes finish
  read_open_file io offset content s =
      finish io (read_bytes io (check_context io (going (start_reader offset s))) content)
