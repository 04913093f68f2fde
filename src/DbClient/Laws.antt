-- ===== src/DbClient/Laws.antt =====
-- What the node for SQL statements does: components/external/db_client_node.go.
use rulego.Prelude.{
  String, ◌≡◌, refl, sym, ap, ◌∙◌, ◌⊎◌, inl, inr, Bool, true, false, ◌&&◌, Option, none, some, List,
  [], ◌∷◌, map, if◌then◌else◌, ◌==◌, string_eq, nat_key, is_some, any,
}
use rulego.Prelude.Dict.{get, put, has, get-put}
use Prim.Native.String.{◌++◌ as ◌+++◌}
use rulego.Result.{ok, err}
use rulego.Dsl.{ℤ}
use rulego.Msg.{RuleMsg, Metadata, put_value}
use rulego.Text.{sprintf_dict}
use rulego.DbClient.{
  Param, text, value, replaced_param, DbClientNodeConfiguration, OpType, select, update, insert,
  delete, other, DbClientNode, Row, ExecResult, Db, tell_success, tell_failure, op_type_of,
  is_supported, has_var, inited, panicked, init, exec, affected, params_of, on_msg, tell_affected,
}

-- `Init` with a statement that is not empty. If the database cannot be opened, its error is returned.
-- If it can: a statement of blanks alone panics; any other one gives a node whose operation is its
-- first word in capitals, whose statement is converted for the driver, by default mysql, and that
-- knows whether a parameter has variables; the error is that of the ping for the four operations that
-- are supported, and there is an error for every other one.
pub init-outcomes :
    (db : Db) (fields : String → List String) (to_upper : String → String)
    (convert : String → String → String) (config : DbClientNodeConfiguration)
    → config.sql == "" ≡ false
    → let driver = if config.driver_name == "" then "mysql" else config.driver_name in
      ((e : String)
        → db.open_error driver config.dsn ≡ some e
        → (x : DbClientNode) × (init db fields to_upper convert config ≡ inited x (some e)))
      × (db.open_error driver config.dsn ≡ none
          → (fields config.sql ≡ [] → init db fields to_upper convert config ≡ panicked)
            × ((word : String) (words : List String)
                → fields config.sql ≡ word ∷ words
                → (x : DbClientNode) × (error : Option String) × (init db fields to_upper convert
                      config
                    ≡ inited x error)
                  × (x.op_type ≡ op_type_of (to_upper word))
                  × (x.config.sql ≡ convert config.sql driver)
                  × (x.params_has_var ≡ any has_var config.params)
                  × (is_supported x.op_type ≡ true → error ≡ db.ping driver config.dsn)
                  × (is_supported x.op_type ≡ false → is_some error ≡ true)))
unfolding init
init-outcomes db fields to_upper convert config given =
    let driver = if config.driver_name == "" then "mysql" else config.driver_name in
    let config' : DbClientNodeConfiguration = record config { driver_name = driver } in
    (
      λ e opens. (
        record { config = config'; op_type = other ""; params_has_var = false },
        rw (given, opens) refl,
      ),
      λ opens. (
        λ blank. rw (given, opens) (rw blank refl),
        λ word words split.
            let op_type = op_type_of (to_upper word) in
            let pinged = db.ping driver config.dsn in
            let unsupported = some ("unsupported sql statement: " +++ config.sql) in
            (
              record {
                config = record config' { sql = convert config.sql driver };
                op_type = op_type;
                params_has_var = any has_var config.params;
              },
              if is_supported op_type then pinged else unsupported,
              rw (given, opens) (rw split refl),
              refl,
              refl,
              refl,
              λ h. ap (λ b. if b then pinged else unsupported) h,
              λ h. ap (λ b. is_some (if b then pinged else unsupported)) h,
            ),
      ),
    )

module _ (db : Db) where
  exec-err :
      (sql : String) (params : List Param) (e : String)
      → db.run_exec sql params ≡ err e
      → exec db sql params ≡ err e
  unfolding exec
  exec-err sql params e h = ap (affected db) h

  exec-no_count :
      (sql : String) (params : List Param) (r : ExecResult) (e : String)
      → db.run_exec sql params ≡ ok r
      → r.rows_affected ≡ err e
      → exec db sql params ≡ err e
  unfolding exec
  exec-no_count sql params r e h k = ap (affected db) h ∙ rw k refl

  exec-ok :
      (sql : String) (params : List Param) (r : ExecResult) (n : ℤ)
      → db.run_exec sql params ≡ ok r
      → r.rows_affected ≡ ok n
      → exec db sql params ≡ ok (n, r.last_insert_id)
  unfolding exec
  exec-ok sql params r n h k = ap (affected db) h ∙ rw k refl

-- The operation of a node that changes the database, and whether it tells an identifier.
abbrev pub Changes : OpType → Bool → Type 0
Changes insert with_id = with_id ≡ true
Changes update with_id = with_id ≡ false
Changes delete with_id = with_id ≡ false
Changes select with_id = ⊥
Changes (other word) with_id = ⊥

-- What a parameter of the configuration is sent as, where variables are replaced.
pub data IsSentAs (dict : Metadata) : Param → Param → Type 0 where
  replaced : (s : String) → IsSentAs dict (text s) (text (sprintf_dict s dict))
  kept : (v : String) → IsSentAs dict (value v) (value v)

abbrev pub AreReplaced : Metadata → List Param → List Param → Type 0
AreReplaced dict [] [] = Unit
AreReplaced dict [] (q ∷ qs) = ⊥
AreReplaced dict (p ∷ ps) [] = ⊥
AreReplaced dict (p ∷ ps) (q ∷ qs) = IsSentAs dict p q × AreReplaced dict ps qs

abbrev pub AreSent : DbClientNode → RuleMsg → List Param → Type 0
AreSent x msg params =
    ((x.params_has_var ≡ true) × AreReplaced msg.metadata x.config.params params)
    ⊎ ((x.params_has_var ≡ false) × (params ≡ x.config.params))

IsSentAs-replaced_param :
    (msg : RuleMsg) (p q : Param) → IsSentAs msg.metadata p q → replaced_param msg p ≡ q
unfolding replaced_param
IsSentAs-replaced_param msg p q (replaced s) = refl
IsSentAs-replaced_param msg p q (kept v) = refl

AreReplaced-map :
    (msg : RuleMsg) (ps qs : List Param)
    → AreReplaced msg.metadata ps qs
    → map (replaced_param msg) ps ≡ qs
AreReplaced-map msg [] [] h = refl
AreReplaced-map msg [] (q ∷ qs) h = elim h [ ]
AreReplaced-map msg (p ∷ ps) [] h = elim h [ ]
AreReplaced-map msg (p ∷ ps) (q ∷ qs) (h, hs) =
    let same = IsSentAs-replaced_param msg p q h in let rest = AreReplaced-map msg ps qs hs in cc

AreSent-params_of :
    (x : DbClientNode) (msg : RuleMsg) (params : List Param)
    → AreSent x msg params
    → params_of x msg ≡ params
unfolding params_of
AreSent-params_of x msg params (inl (has, h)) =
    ap (λ b. if b then map (replaced_param msg) x.config.params else x.config.params) has
    ∙ AreReplaced-map msg x.config.params params h
AreSent-params_of x msg params (inr (none_has, h)) =
    ap (λ b. if b then map (replaced_param msg) x.config.params else x.config.params) none_has
    ∙ sym h

module _ (db : Db) (rows_text : List Row → String) (row_text : Option Row → String)
    (int_text : ℤ → String) where
  on_msg-exec :
      (op : OpType) (x : DbClientNode) (msg : RuleMsg) (with_id : Bool)
      → x.op_type ≡ op
      → Changes op with_id
      → on_msg db rows_text row_text int_text x msg
        ≡ tell_affected db rows_text row_text int_text with_id msg
            (exec db (sprintf_dict x.config.sql msg.metadata) (params_of x msg))
  unfolding on_msg
  on_msg-exec insert x msg with_id h k = rw (h, k) refl
  on_msg-exec update x msg with_id h k = rw (h, k) refl
  on_msg-exec delete x msg with_id h k = rw (h, k) refl
  on_msg-exec select x msg with_id h k = elim k [ ]
  on_msg-exec (other word) x msg with_id h k = elim k [ ]

  written-keys :
      (msg : RuleMsg) (with_id : Bool) (n id : ℤ)
      → (m : RuleMsg) × (tell_affected db rows_text row_text int_text with_id msg (ok (n, id))
          ≡ tell_success m)
        × (m.content ≡ msg.content)
        × (m.id ≡ msg.id)
        × ((k : String)
            → get k m.metadata ≡ (
                if with_id && ("lastInsertId" == k)
                then some (int_text id)
                else if "rowsAffected" == k
                then some (int_text n)
                else get k msg.metadata))
  unfolding tell_affected put_value
  written-keys msg true n id =
      let one = put "rowsAffected" (int_text n) msg.metadata in
      (
        record msg { metadata = put "lastInsertId" (int_text id) one },
        refl,
        refl,
        refl,
        λ k.
            get-put "lastInsertId" k (int_text id) one
            ∙ ap (λ o. if "lastInsertId" == k then some (int_text id) else o)
                (get-put "rowsAffected" k (int_text n) msg.metadata),
      )
  written-keys msg false n id = (
    record msg { metadata = put "rowsAffected" (int_text n) msg.metadata },
    refl,
    refl,
    refl,
    λ k. get-put "rowsAffected" k (int_text n) msg.metadata,
  )

  -- A message at a node whose statement inserts, changes or deletes. The parameters `sent` are those of
  -- the configuration, in order: where one of them has a variable (`Init` sets `params_has_var`), each
  -- text with its variables replaced by the values of the metadata and each other value as it is;
  -- otherwise all as they are. If the database executes the statement, with the variables of its text
  -- replaced, with these parameters, and tells the number of
  -- rows, the message succeeds with that number in its metadata, for an insertion also with the last
  -- identifier; its other metadata, its content and its identifier are as they came. If the execution
  -- or the number of rows is an error, the message fails with that error, as it came.
  pub on_msg-Changes :
      (op : OpType) (x : DbClientNode) (msg : RuleMsg) (with_id : Bool) (params : List Param)
      → x.op_type ≡ op
      → Changes op with_id
      → AreSent x msg params
      → let sql = sprintf_dict x.config.sql msg.metadata in
        let told = on_msg db rows_text row_text int_text x msg in
        ((e : String) → db.run_exec sql params ≡ err e → told ≡ tell_failure msg e)
        × ((r : ExecResult) (e : String)
            → db.run_exec sql params ≡ ok r
            → r.rows_affected ≡ err e
            → told ≡ tell_failure msg e)
        × ((r : ExecResult) (n : ℤ)
            → db.run_exec sql params ≡ ok r
            → r.rows_affected ≡ ok n
            → (m : RuleMsg) × (told ≡ tell_success m)
              × (m.content ≡ msg.content)
              × (m.id ≡ msg.id)
              × ((k : String)
                  → get k m.metadata ≡ (
                      if with_id && ("lastInsertId" == k)
                      then some (int_text r.last_insert_id)
                      else if "rowsAffected" == k
                      then some (int_text n)
                      else get k msg.metadata)))
  unfolding tell_affected
  on_msg-Changes op x msg with_id params h k are =
      let sql = sprintf_dict x.config.sql msg.metadata in
      let run =
        on_msg-exec op x msg with_id h k
        ∙ ap (λ l. tell_affected db rows_text row_text int_text with_id msg (exec db sql l))
            (AreSent-params_of x msg params are) in
      let tell = tell_affected db rows_text row_text int_text with_id msg in
      (
        λ e fails. run ∙ ap tell (exec-err db sql params e fails),
        λ r e runs fails. run ∙ ap tell (exec-no_count db sql params r e runs fails),
        λ r n runs counts.
            let (m, told, content, id, keys) = written-keys msg with_id n r.last_insert_id in
            (m, run ∙ ap tell (exec-ok db sql params r n runs counts) ∙ told, content, id, keys),
      )
