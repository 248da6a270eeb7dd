-- ===== src/Statement.antt =====
-- multistatement.go, with `updateRows` and `isDml` of connection_util.go and `rowsForRunningQuery` of
-- monitoring.go; and transaction.go.
-- The server answers a result path; `strconv`'s parsers and `populateChunkDownloader` are arguments.
-- Row counts are Go's `int64`s.
use gosnowflake.Base.{
  ℕ, zero, suc, ◌-◌, ◌%◌, ◌^◌, Bool, true, false, ◌&&◌, not, Option, none, some, if◌then◌else◌,
  List, [], ◌∷◌, ◌++◌, length, ltb,
}
use gosnowflake.Base.Int.{ℤ, pos, negsuc, ◌+ℤ◌, ltb_ℤ}
use gosnowflake.Base.Text.{Bytes, split, codes}
use gosnowflake.Rows.{Rows, ResultSet, add_downloader}
pub mod Children
pub mod Exec
pub mod Wrap
pub mod Query
pub mod Transaction
mod Tests

-- `childResult`.
pub record ChildResult : Type 0 where
  pub id : Bytes
  pub typ : Bytes

-- The types in the order of the identifiers; an index out of range panics.
unfoldable pub pair_types : List Bytes → List Bytes → Option (List ChildResult)
pair_types [] types = some []
pair_types (i ∷ ids) [] = none
pair_types (i ∷ ids) (t ∷ types) = elim (pair_types ids types) [
  | none ↦ none
  | some children ↦ some (record { id = i; typ = t } ∷ children)
]

-- `getChildResults`.
unfoldable pub get_child_results : Bytes → Bytes → Option (List ChildResult)
unfolding pair_types
get_child_results [] types = some []
get_child_results (c ∷ ids) types = pair_types (split b',' (c ∷ ids)) (split b',' types)

-- `execResponseData`, less the fields that these files do not read; `row_set` is nil or the rows.
pub record Data : Type 0 where
  pub result_ids : Bytes
  pub result_types : Bytes
  pub query_id : Bytes
  pub sql_state : Bytes
  pub row_type_length : ℕ
  pub row_set : Option (List (List (Option Bytes)))

-- `execResponse`.
pub record Response : Type 0 where
  pub response_data : Data
  pub message : Bytes
  pub code : Bytes
  pub success : Bool

pub data ExecError (Error : Type 0) : Type 0 where
  no_result_ids : ExecError Error
  not_a_number : Bytes → ExecError Error
  request_failed : Error → ExecError Error
  failed : ℤ → Bytes → Bytes → Bytes → ExecError Error

pub data Outcome (Error : Type 0) (A : Type 0) : Type 0 where
  ok : A → Outcome Error A
  err : ExecError Error → Outcome Error A
  panics : Outcome Error A

-- What a request comes to: an error, or a response that may be nil.
pub data Reply (Error : Type 0) : Type 0 where
  fails : Error → Reply Error
  replies : Option Response → Reply Error

-- The number that an `int64` keeps of an integer.
unfoldable pub wrap_64 : ℤ → ℤ
wrap_64 (pos n) = let m = n % 2 ^ 64 in if ltb m (2 ^ 63) then pos m else negsuc (2 ^ 64 - 1 - m)
wrap_64 (negsuc n) = let m = n % 2 ^ 64 in if ltb m (2 ^ 63) then negsuc m else pos (2 ^ 64 - 1 - m)

abbrev pub statement_type_id_dml : ℤ
statement_type_id_dml = pos 0x3000

abbrev pub statement_type_id_multi_table_insert : ℤ
statement_type_id_multi_table_insert = pos 0x3500

-- `isDml`.
abbrev pub is_dml : ℤ → Bool
is_dml v = not (ltb_ℤ v statement_type_id_dml) && not (ltb_ℤ statement_type_id_multi_table_insert v)

abbrev pub result_path : Bytes → Bytes
result_path id = codes "/queries/" ++ id ++ codes "/result"

module _ {Error : Type 0} where
  infixl 5 ◌>>=◌
  abbrev pub ◌>>=◌ : {A B : Type 0} → Outcome Error A → (A → Outcome Error B) → Outcome Error B
  ok a >>= f = f a
  err e >>= f = err e
  panics >>= f = panics

  abbrev pub number_or_error : Bytes → Option ℤ → Outcome Error ℤ
  number_or_error text none = err (not_a_number text)
  number_or_error text (some n) = ok n

  abbrev pub some_or_panic : {A : Type 0} → Option A → Outcome Error A
  some_or_panic none = panics
  some_or_panic (some a) = ok a

  module _ (parse_int atoi : Bytes → Option ℤ) where
    -- The loop of `updateRows` over the columns that are left.
    unfoldable pub add_counts : ℕ → List (Option Bytes) → ℤ → Outcome Error ℤ
    unfolding wrap_64
    add_counts zero cells count = ok count
    add_counts (suc n) [] count = panics
    add_counts (suc n) (none ∷ cells) count = panics
    add_counts (suc n) (some text ∷ cells) count =
        number_or_error text (parse_int text) >>= λ v. add_counts n cells (wrap_64 (count +ℤ v))

    -- `updateRows`, at the row set; the first row is looked at only if there are columns.
    unfoldable pub update_rows : ℕ → Option (List (List (Option Bytes))) → Outcome Error ℤ
    unfolding add_counts
    update_rows n none = ok (pos 0)
    update_rows zero (some rows) = ok (pos 0)
    update_rows (suc n) (some []) = panics
    update_rows (suc n) (some (row ∷ rows)) = add_counts (suc n) row (pos 0)

    -- The error of a response without success.
    unfoldable pub failure : {A : Type 0} → Response → Outcome Error A
    failure r = number_or_error r.code (atoi r.code) >>= λ n.
        err (failed n r.response_data.sql_state r.message r.response_data.query_id)

    -- What a child that changes rows adds; `childData` that is nil panics at its data.
    unfoldable pub child_count : Reply Error → Outcome Error ℤ
    unfolding update_rows failure
    child_count (fails e) = err (request_failed e)
    child_count (replies none) = panics
    child_count (replies (some r)) =
        if r.success
        then update_rows r.response_data.row_type_length r.response_data.row_set
        else failure r

    module _ (get_query_result_resp : Bytes → Reply Error) where
      -- A round of the loop of `handleMultiExec`: the count after it.
      unfoldable pub exec_child : ChildResult → ℤ → Outcome Error ℤ
      unfolding child_count wrap_64
      exec_child child count = number_or_error child.typ (parse_int child.typ) >>= λ t.
          if is_dml t
          then (child_count (get_query_result_resp (result_path child.id)) >>= λ n.
              ok (wrap_64 (count +ℤ n)))
          else ok count

      unfoldable pub exec_children : List ChildResult → ℤ → Outcome Error ℤ
      unfolding exec_child
      exec_children [] count = ok count
      exec_children (child ∷ children) count = exec_child child count >>= exec_children children

      -- `handleMultiExec`; the result is the number of affected rows.
      unfoldable pub handle_multi_exec : Data → Outcome Error ℤ
      unfolding get_child_results exec_children
      handle_multi_exec d = elim d.result_ids [
        | [] ↦ err no_result_ids
        | c ∷ ids ↦ some_or_panic (get_child_results (c ∷ ids) d.result_types) >>= λ children.
            exec_children children (pos 0)
      ]

      module _ (populate_chunk_downloader : Data → ResultSet) where
        -- What `rowsForRunningQuery` does with a reply; a response that is nil panics.
        unfoldable pub add_reply : Rows Error → Reply Error → Outcome Error (Rows Error)
        unfolding failure
        add_reply rows (fails e) = err (request_failed e)
        add_reply rows (replies none) = panics
        add_reply rows (replies (some r)) =
            if r.success
            then some_or_panic (add_downloader (populate_chunk_downloader r.response_data) rows)
            else failure r

        -- The loop of `handleMultiQuery`, with `rowsForRunningQuery`.
        unfoldable pub query_children : List ChildResult → Rows Error → Outcome Error (Rows Error)
        unfolding add_reply
        query_children [] rows = ok rows
        query_children (child ∷ children) rows =
            add_reply rows (get_query_result_resp (result_path child.id))
            >>= query_children children

        -- `handleMultiQuery`.
        unfoldable pub handle_multi_query : Data → Rows Error → Outcome Error (Rows Error)
        unfolding get_child_results query_children
        handle_multi_query d rows = elim d.result_ids [
          | [] ↦ err no_result_ids
          | c ∷ ids ↦ some_or_panic (get_child_results (c ∷ ids) d.result_types) >>= λ children.
              query_children children rows
        ]

-- `txCommand`.
pub data TxCommand : Type 0 where
  commit rollback : TxCommand

abbrev pub command_text : TxCommand → Bytes
command_text commit = codes "COMMIT"
command_text rollback = codes "ROLLBACK"

pub data TxError (Error : Type 0) : Type 0 where
  bad_conn : TxError Error
  exec_failed : Error → TxError Error

-- `snowflakeTx`, with whether its connection is set and has a `rest`, and the world behind it.
pub record Tx (World : Type 0) : Type 0 where
  pub has_conn : Bool
  pub world : World

module _ {World Error : Type 0} (exec : Bytes → World → Option Error × World) where
  -- What follows the call of `exec`.
  unfoldable pub after_exec : Option Error × World → Option (TxError Error) × Tx World
  after_exec (some e, world) = (some (exec_failed e), record { has_conn = true; world = world })
  after_exec (none, world) = (none, record { has_conn = false; world = world })

  -- `execTxCommand`.
  unfoldable pub exec_tx_command : TxCommand → Tx World → Option (TxError Error) × Tx World
  unfolding after_exec
  exec_tx_command command tx =
      if tx.has_conn then after_exec (exec (command_text command) tx.world) else (some bad_conn, tx)

  -- The errors of a sequence of calls of `Commit` and `Rollback`, and what they leave behind.
  unfoldable pub exec_tx_commands :
      List TxCommand → Tx World → List (Option (TxError Error)) × Tx World
  unfolding exec_tx_command
  exec_tx_commands [] tx = ([], tx)
  exec_tx_commands (command ∷ commands) tx =
      let r = exec_tx_command command tx in
      let rest = exec_tx_commands commands r.1 in (r.0 ∷ rest.0, rest.1)
