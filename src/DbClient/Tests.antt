-- ===== src/DbClient/Tests.antt =====
-- Examples of the node for SQL statements.
use rulego.Prelude.{
  String, ◌≡◌, refl, inl, true, false, ◌&&◌, Option, none, some, List, [], ◌∷◌, if◌then◌else◌, ◌==◌,
  string_eq, nat_key, is_some, any,
}
use rulego.Prelude.Dict.{get}
use rulego.Result.{ok, err}
use rulego.Dsl.{ℤ, pos}
use rulego.Msg.{RuleMsg, json_type}
use rulego.Text.{sprintf_dict, sprintf_var}
use rulego.DbClient.{
  text, DbClientNodeConfiguration, insert, DbClientNode, Row, Rows, ExecResult, Db, tell_success,
  tell_failure, op_type_of, is_supported, has_var, inited, panicked, init, query, scan_all,
  params_of, on_msg, replaced_param,
}
use rulego.DbClient.Laws.{AreSent, replaced, init-outcomes, on_msg-Changes}

abbrev config : DbClientNodeConfiguration
config = record {
  sql = "insert into t values (?)";
  params = text "${id}" ∷ [];
  get_one = false;
  driver_name = "";
  dsn = "dsn";
}

abbrev rows_of_db : Rows
rows_of_db = record {
  columns_error = none;
  rows = ok (("a", "1") ∷ []) ∷ err "bad row" ∷ [];
  end_error = none;
}

abbrev counted : ExecResult
counted = record { rows_affected = ok (pos 1); last_insert_id = pos 7 }

abbrev db : Db
db = record {
  open_error = λ driver dsn. none;
  ping = λ driver dsn. none;
  run_query = λ sql params. ok rows_of_db;
  run_exec = λ sql params. ok counted;
}

abbrev first_word : String → List String
first_word s = if s == " " then [] else "insert" ∷ []

abbrev upper : String → String
upper s = if s == "insert" then "INSERT" else s

abbrev convert : String → String → String
convert sql driver = sql

blank_panics : init db first_word upper convert (record config { sql = " " }) ≡ panicked
unfolding init
blank_panics = refl

init-outcomes_test :
    ((e : String)
      → db.open_error "mysql" "dsn" ≡ some e
      → (x : DbClientNode) × (init db first_word upper convert config ≡ inited x (some e)))
    × (db.open_error "mysql" "dsn" ≡ none
        → (first_word config.sql ≡ [] → init db first_word upper convert config ≡ panicked)
          × ((word : String) (words : List String)
              → first_word config.sql ≡ word ∷ words
              → (x : DbClientNode) × (error : Option String) × (init db first_word upper convert
                    config
                  ≡ inited x error)
                × (x.op_type ≡ op_type_of (upper word))
                × (x.config.sql ≡ config.sql)
                × (x.params_has_var ≡ any has_var config.params)
                × (is_supported x.op_type ≡ true → error ≡ none)
                × (is_supported x.op_type ≡ false → is_some error ≡ true)))
init-outcomes_test = init-outcomes db first_word upper convert config refl

abbrev rows_text : List Row → String
rows_text rows = "[]"

abbrev row_text : Option Row → String
row_text row = "{}"

abbrev int_text : ℤ → String
int_text n = "1"

bad_row_test : query db rows_text row_text "select 1" [] true ≡ err "bad row"
unfolding query scan_all
bad_row_test = refl

abbrev node : DbClientNode
node = record { config = config; op_type = insert; params_has_var = true }

abbrev msg : RuleMsg
msg = record {
  ts = 1;
  id = "m";
  data_type = json_type;
  type = "T";
  content = "{}";
  metadata = ("id", "42") ∷ [];
}

params_test : params_of node msg ≡ text "42" ∷ []
unfolding params_of replaced_param sprintf_dict sprintf_var
params_test = refl

sent_params : AreSent node msg (text "42" ∷ [])
unfolding replaced_param sprintf_dict sprintf_var
sent_params = inl (refl, (replaced "${id}", tt))

on_msg-Changes_example :
    let sql = sprintf_dict config.sql msg.metadata in
    let params = text "42" ∷ [] in
    let told = on_msg db rows_text row_text int_text node msg in
    ((e : String) → db.run_exec sql params ≡ err e → told ≡ tell_failure msg e)
    × ((r : ExecResult) (e : String)
        → db.run_exec sql params ≡ ok r
        → r.rows_affected ≡ err e
        → told ≡ tell_failure msg e)
    × ((r : ExecResult) (n : ℤ)
        → db.run_exec sql params ≡ ok r
        → r.rows_affected ≡ ok n
        → (m : RuleMsg) × (told ≡ tell_success m)
          × (m.content ≡ msg.content)
          × (m.id ≡ msg.id)
          × ((k : String)
              → get k m.metadata ≡ (
                  if true && (string_eq.beq "lastInsertId" k)
                  then some (int_text r.last_insert_id)
                  else if string_eq.beq "rowsAffected" k
                  then some (int_text n)
                  else get k msg.metadata)))
on_msg-Changes_example =
    on_msg-Changes db rows_text row_text int_text insert node msg true (text "42" ∷ []) refl refl
      sent_params
