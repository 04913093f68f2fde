-- ===== src/DbClient.antt =====
-- components/external/db_client_node.go: the node for SQL statements. `database/sql` is the parameter
-- `Db`: what opening, pinging, a query and the execution of a statement answer. `strings.Fields`,
-- `strings.ToUpper` and `str.ToString` are parameters too. A parameter of a statement is a text or
-- another value, by its JSON text. The sizes of the pool of connections are left out.
pub mod Laws
mod Tests
use rulego.Prelude.{
  String, Bool, true, false, not, Option, none, some, List, [], ◌∷◌, map, if◌then◌else◌, ◌==◌,
  string_eq, nat_key, any,
}
use rulego.Prelude.Dict.{Map}
use Prim.Native.String.{◌++◌ as ◌+++◌}
use rulego.Result.{Result, ok, err}
use rulego.Dsl.{ℤ}
use rulego.Msg.{RuleMsg, put_value}
use rulego.Text.{sprintf_dict, check_has_var}

pub data Param : Type 0 where
  text : String → Param
  value : String → Param

pub record DbClientNodeConfiguration : Type 0 where
  pub sql : String
  pub params : List Param
  pub get_one : Bool
  pub driver_name : String
  pub dsn : String

pub data OpType : Type 0 where
  select update insert delete : OpType
  other : String → OpType

pub record DbClientNode : Type 0 where
  pub config : DbClientNodeConfiguration
  pub op_type : OpType
  pub params_has_var : Bool

-- A row, its columns as `Scan` and the loop after it leave them; a scan that fails.
abbrev pub Row : Type 0
Row = Map String String

-- What a query answers: the rows up to the end, each scanned or not, and the error at the end.
pub record Rows : Type 0 where
  pub columns_error : Option String
  pub rows : List (Result Row)
  pub end_error : Option String

-- What the execution of a statement answers.
pub record ExecResult : Type 0 where
  pub rows_affected : Result ℤ
  pub last_insert_id : ℤ

pub record Db : Type 0 where
  pub open_error : (driver_name dsn : String) → Option String
  pub ping : (driver_name dsn : String) → Option String
  pub run_query : String → List Param → Result Rows
  pub run_exec : String → List Param → Result ExecResult

pub data Tell : Type 0 where
  tell_success : RuleMsg → Tell
  tell_failure : RuleMsg → String → Tell

abbrev pub op_type_of : String → OpType
op_type_of word =
    if word == "SELECT"
    then select
    else if word == "UPDATE"
    then update
    else if word == "INSERT"
    then insert
    else if word == "DELETE"
    then delete
    else other word

abbrev pub is_supported : OpType → Bool
is_supported (other word) = false
is_supported _ = true

abbrev pub has_var : Param → Bool
has_var (text v) = check_has_var v
has_var (value v) = false

-- What the caller of `Init` gets: the node and an error, or a panic.
pub data Inited : Type 0 where
  inited : DbClientNode → Option String → Inited
  panicked : Inited

unfoldable pub replaced_param : RuleMsg → Param → Param
unfolding sprintf_dict
replaced_param msg (text v) = text (sprintf_dict v msg.metadata)
replaced_param msg (value v) = value v

-- The parameters of a statement for a message.
unfoldable pub params_of : DbClientNode → RuleMsg → List Param
unfolding replaced_param
params_of x msg =
    if x.params_has_var then map (replaced_param msg) x.config.params else x.config.params

module _ (db : Db) where
  module _ (fields : String → List String) (to_upper : String → String)
      (convert : String → String → String) where
    abbrev with_defaults : DbClientNodeConfiguration → DbClientNodeConfiguration
    with_defaults config = record config {
      driver_name = if config.driver_name == "" then "mysql" else config.driver_name;
    }

    -- `words[0]` panics for a statement without a word. The error of a statement that is not
    -- supported takes the place of the error of the ping.
    abbrev init_words : DbClientNode → List String → Inited
    unfolding check_has_var
    init_words x [] = panicked
    init_words x (word ∷ words) =
        let op_type = op_type_of (to_upper word) in
        let pinged = db.ping x.config.driver_name x.config.dsn in
        inited
          record {
            config = record x.config { sql = convert x.config.sql x.config.driver_name };
            op_type = op_type;
            params_has_var = any has_var x.config.params;
          }
          (if is_supported op_type
            then pinged
            else some ("unsupported sql statement: " +++ x.config.sql))

    abbrev init_opened : DbClientNode → Option String → Inited
    unfolding check_has_var
    init_opened x (some e) = inited x (some e)
    init_opened x none = init_words x (fields x.config.sql)

    -- `Init`, for a configuration that was decoded into `config`.
    unfoldable pub init : DbClientNodeConfiguration → Inited
    unfolding check_has_var
    init config =
        let x : DbClientNode = record {
          config = with_defaults config;
          op_type = other "";
          params_has_var = false;
        } in
        if x.config.sql == ""
        then inited x (some "sql can not empty")
        else init_opened x (db.open_error x.config.driver_name x.config.dsn)

  abbrev affected : Result ExecResult → Result (ℤ × ℤ)
  affected (err e) = err e
  affected (ok r) = elim r.rows_affected [ err e ↦ err e | ok n ↦ ok (n, r.last_insert_id) ]

  -- `update`, `insert` and `delete`: the number of rows, and the last identifier.
  unfoldable pub exec : String → List Param → Result (ℤ × ℤ)
  exec sql params = affected (db.run_exec sql params)

  module _ (rows_text : List Row → String) (row_text : Option Row → String) where
    -- The loop of `query` over the rows: it ends at the first row that cannot be scanned.
    unfoldable pub scan_all : List (Result Row) → Result (List Row)
    scan_all [] = ok []
    scan_all (err e ∷ rows) = err e
    scan_all (ok row ∷ rows) = elim (scan_all rows) [ err e ↦ err e | ok rest ↦ ok (row ∷ rest) ]

    abbrev first_row : List Row → Option Row
    first_row [] = none
    first_row (row ∷ rows) = some row

    abbrev or_error : {A : Type 0} → Option String → Result A → Result A
    or_error none r = r
    or_error (some e) r = err e

    abbrev text_of_rows : Bool → List Row → String
    text_of_rows get_one rows = if get_one then row_text (first_row rows) else rows_text rows

    abbrev read_rows : Bool → Rows → Result String
    unfolding scan_all
    read_rows get_one rows = or_error rows.columns_error (elim (scan_all rows.rows) [
      | err e ↦ err e
      | ok result ↦ or_error rows.end_error (ok (text_of_rows get_one result))
    ])

    -- `query`, with its data as the text that `OnMsg` makes of it.
    unfoldable pub query : String → List Param → Bool → Result String
    unfolding scan_all
    query sql params get_one = elim (db.run_query sql params) [
      | err e ↦ err e
      | ok rows ↦ read_rows get_one rows
    ]

    module _ (int_text : ℤ → String) where
      abbrev with_value : String → ℤ → RuleMsg → RuleMsg
      unfolding put_value
      with_value key n msg = record msg { metadata = put_value msg.metadata key (int_text n) }

      abbrev tell_rows : RuleMsg → Result String → Tell
      tell_rows msg (err e) = tell_failure msg e
      tell_rows msg (ok data_text) = tell_success (record msg { content = data_text })

      abbrev tell_affected : Bool → RuleMsg → Result (ℤ × ℤ) → Tell
      unfolding put_value
      tell_affected with_id msg (err e) = tell_failure msg e
      tell_affected with_id msg (ok (n, id)) =
          let msg' = with_value "rowsAffected" n msg in
          tell_success (if with_id then with_value "lastInsertId" id msg' else msg')

      unfoldable pub on_msg : DbClientNode → RuleMsg → Tell
      unfolding query exec sprintf_dict put_value params_of
      on_msg x msg =
          let sql = sprintf_dict x.config.sql msg.metadata in
          let params = params_of x msg in
          elim x.op_type [
            | select ↦ tell_rows msg (query sql params x.config.get_one)
            | update ↦ tell_affected false msg (exec sql params)
            | insert ↦ tell_affected true msg (exec sql params)
            | delete ↦ tell_affected false msg (exec sql params)
            | other word ↦ tell_failure msg ("unsupported sql statement: " +++ sql)
          ]
