-- ===== src/Statement/Tests.antt =====
-- multistatement.go and transaction.go: three statements, a transaction, and the theorems applied there.
use gosnowflake.Base.{
  false, inl, zero, suc, ℕ, ◌≡◌, ◌≤◌, refl, none, some, true, List, [], ◌∷◌, Option, if◌then◌else◌,
  arith, ap, length, ◌+◌, All, false,
}
use gosnowflake.Base.Int.{ℤ, pos}
use gosnowflake.Base.Text.{split, Bytes, codes, bytes_eq, contains_byte}
use gosnowflake.Rows.{Rows, ResultSet, complete}
use gosnowflake.Statement.{
  ChildResult, Data, Response, Reply, replies, ok, handle_multi_exec, handle_multi_query,
  get_child_results, Tx, commit, rollback, exec_tx_commands, bad_conn, exec_failed,
}
use gosnowflake.Statement.Children.{LackCommas, join, Lacks, get_child_results-fewer}
use gosnowflake.Statement.Exec.{handle_multi_exec-sum}
use gosnowflake.Statement.Query.{Queried, handle_multi_query-Queried}
use gosnowflake.Statement.Transaction.{successes, exec_tx_commands-once}

-- The numbers of these texts.
abbrev parse_int : Bytes → Option ℤ
parse_int t =
    if bytes_eq t (codes "12288")
    then some (pos 12288)
    else if bytes_eq t (codes "4096")
    then some (pos 4096)
    else if bytes_eq t (codes "7")
    then some (pos 7)
    else none

abbrev response : Response
response = record {
  response_data = record {
    result_ids = [];
    result_types = [];
    query_id = [];
    sql_state = [];
    row_type_length = 1;
    row_set = some ((some (codes "7") ∷ []) ∷ []);
  };
  message = [];
  code = [];
  success = true;
}

abbrev server : Bytes → Reply ℕ
server path = replies (some response)

abbrev body : Data
body = record {
  result_ids = codes "a,b,c";
  result_types = codes "12288,4096,12288";
  query_id = [];
  sql_state = [];
  row_type_length = 0;
  row_set = none;
}

abbrev first : ChildResult
first = record { id = codes "a"; typ = codes "12288" }

abbrev second : ChildResult
second = record { id = codes "b"; typ = codes "4096" }

abbrev third : ChildResult
third = record { id = codes "c"; typ = codes "12288" }

Lacks-contains_byte : (t : Bytes) → contains_byte t b',' ≡ false → Lacks b',' t
unfolding contains_byte
Lacks-contains_byte [] h = tt
Lacks-contains_byte (x ∷ t) h = (λ e. ground (arith, e), Lacks-contains_byte t (ground arith))

LackCommas-children : LackCommas (first ∷ second ∷ third ∷ [])
unfolding contains_byte
LackCommas-children = (
  (
    Lacks-contains_byte (codes "a") refl,
    (Lacks-contains_byte (codes "b") refl, (Lacks-contains_byte (codes "c") refl, tt)),
  ),
  (
    Lacks-contains_byte (codes "12288") refl,
    (Lacks-contains_byte (codes "4096") refl, (Lacks-contains_byte (codes "12288") refl, tt)),
  ),
)

handle_multi_exec-sum_example : handle_multi_exec parse_int parse_int server body ≡ ok (pos 14)
unfolding join gosnowflake.Statement.wrap_64 gosnowflake.Base.Int.◌+ℤ◌ contains_byte bytes_eq
    gosnowflake.Statement.child_count
handle_multi_exec-sum_example =
    handle_multi_exec-sum parse_int parse_int server body (first, some (pos 7))
      ((second, none) ∷ (third, some (pos 7)) ∷ []) refl refl (λ e. cc) LackCommas-children
      ((pos 12288, refl, refl, refl), ((pos 4096, refl, refl), ((pos 12288, refl, refl, refl), tt)))

abbrev populate : Data → ResultSet
populate d = record {
  row_type = [];
  chunk_metas = 0;
  current_chunk_index = pos 0;
  next_downloader = none;
}

abbrev no_rows : Rows ℕ
no_rows = record {
  downloaders = [];
  chunk_downloader = none;
  tail_chunk_downloader = none;
  status = complete;
  err = none;
  err_channel = [];
}

-- The responses are asked for in turn.
handle_multi_query-Queried_example :
    Queried parse_int parse_int server populate no_rows
      (first ∷ second ∷ third ∷ [])
      (handle_multi_query parse_int parse_int server populate body no_rows)
unfolding join
handle_multi_query-Queried_example =
    handle_multi_query-Queried parse_int parse_int server populate (λ path e. cc) (λ d. refl) body
      no_rows first (second ∷ third ∷ []) refl refl (λ e. cc) LackCommas-children
      (record { linked = tt; pointers = inl (refl, refl) })

get_child_results-fewer_example : get_child_results (codes "a,b") (codes "1") ≡ none
unfolding split
get_child_results-fewer_example =
    get_child_results-fewer (codes "a,b") (codes "1") (λ e. cc) (omega arith)

-- A server that refuses the first command.
abbrev refuses_once : Bytes → ℕ → Option ℕ × ℕ
refuses_once text zero = (some 9, 1)
refuses_once text (suc n) = (none, suc (suc n))

commits_once :
    exec_tx_commands refuses_once
      (commit ∷ commit ∷ rollback ∷ [])
      (record { has_conn = true; world = 0 })
    ≡ (some (exec_failed 9) ∷ none ∷ some bad_conn ∷ [], record { has_conn = false; world = 2 })
unfolding exec_tx_commands
commits_once = refl

exec_tx_commands-once_example :
    successes
      (exec_tx_commands refuses_once
        (commit ∷ rollback ∷ [])
        (record { has_conn = true; world = 0 })).0
    ≤ 1
exec_tx_commands-once_example =
    exec_tx_commands-once refuses_once (commit ∷ rollback ∷ [])
      (record { has_conn = true; world = 0 })
