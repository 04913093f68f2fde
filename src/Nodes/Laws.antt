-- ===== src/Nodes/Laws.antt =====
-- What the nodes of Nodes tell: the iterator, the functions and the flow (components/action and
-- components/flow), and the script nodes.
use rulego.Prelude.{
  String, ◌≡◌, refl, sym, ap, ◌∙◌, ◌≢◌, inl, inr, true, false, Option, some, List, [], ◌∷◌, ◌++◌,
  map, append-nil, append_assoc, arith, eq_iff, if◌then◌else◌, ◌==◌, string_eq, nat_key,
  Option-cases, is_some, All,
}
use rulego.Prelude.Dict.{get, put, remove, has, get-put, get-put_self, get-remove_self, IsMap}
use Prim.Native.String.{◌++◌ as ◌+++◌}
use rulego.Json.{Value, null, boolean, number, text as text_value, array, object}
use rulego.Result.{ok, err}
use rulego.Msg.{RuleMsg, WrapperMsg, Metadata, put_value}
use rulego.Nodes.{Tell, to_string, tell_next, tell_success, tell_failure, Codec}
use rulego.Nodes.Iterator.{Index, ItemFilter, is_true, execute_item, iterate, get_fields, sub_field}
use rulego.Nodes.Functions.{
  FunctionsRegistry, FunctionsNode, Function, register, unregister, call, get_function,
  get_function_name,
}
use rulego.Nodes.Functions
use rulego.Nodes.Flow.{
  BranchEnd, Joined, on_branch_end, on_branch_ends, put_values, joined_metadata, error_text,
}

-- What a script says of an item: an answer, or an error.
abbrev pub Answers : ItemFilter → RuleMsg → List ((Value × Index) × Value) → Type 0
Answers script msg asked = All (λ q. script q.0.0 q.0.1 msg.metadata ≡ ok q.1) asked

-- An item with its answer is told under `True` if the answer is true, and else under `False`.
abbrev pub told_as : Codec → RuleMsg → (Value × Index) × Value → Tell
told_as codec msg ((v, i), boolean true) =
    tell_next (record msg { content = to_string codec v }) "True"
told_as codec msg ((v, i), out) = tell_next (record msg { content = to_string codec v }) "False"

is_true-told_as :
    (codec : Codec) (msg : RuleMsg) (v : Value) (i : Index) (out : Value)
    → tell_next
        (record msg { content = to_string codec v })
        (if is_true out then "True" else "False")
      ≡ told_as codec msg ((v, i), out)
is_true-told_as codec msg v i (boolean true) = refl
is_true-told_as codec msg v i (boolean false) = refl
is_true-told_as codec msg v i null = refl
is_true-told_as codec msg v i (number n) = refl
is_true-told_as codec msg v i (text_value s) = refl
is_true-told_as codec msg v i (array vs) = refl
is_true-told_as codec msg v i (object fs) = refl

module _ (codec : Codec) (script : ItemFilter) (msg : RuleMsg) where
  answered-GoesOn :
      (v : Value) (i : Index) (out : Value)
      → script v i msg.metadata ≡ ok out
      → (execute_item codec (some script) msg v i) ≡ (told_as codec msg ((v, i), out), true)
  unfolding execute_item
  answered-GoesOn v i out h = rw h (ap (λ t. (t, true)) (is_true-told_as codec msg v i out))

  failed-stops :
      (v : Value) (i : Index) (e : String)
      → script v i msg.metadata ≡ err e
      → (execute_item codec (some script) msg v i) ≡ (tell_failure msg e, false)
  unfolding execute_item
  failed-stops v i e h = rw h refl

  iterate-Answers :
      (asked : List ((Value × Index) × Value)) (rest : List (Value × Index))
      → Answers script msg asked
      → iterate codec (some script) msg (map (λ q. q.0) asked ++ rest)
        ≡ map (told_as codec msg) asked ++ iterate codec (some script) msg rest
  unfolding iterate
  iterate-Answers [] rest h = refl
  iterate-Answers (((v, i), out) ∷ asked) rest (h, hs) =
      rw (answered-GoesOn v i out h)
        (ap (λ t. told_as codec msg ((v, i), out) ∷ t) (iterate-Answers asked rest hs))

  -- The loop of the iterator with a script. If the script answers for every item, each item is told
  -- once, in order, with its text as the content, under `True` if the answer is true and under `False`
  -- if it is anything else, and then the message as it came is told to have succeeded. If the script
  -- fails for an item, the items before it are told like this, then the message as it came fails with
  -- the error of the script, and nothing else is told: no success and no later item.
  pub iterate-outcomes :
      (asked : List ((Value × Index) × Value)) (after : List (Value × Index)) (v : Value)
      (i : Index)
      → Answers script msg asked
      → (iterate codec (some script) msg (map (λ q. q.0) asked)
          ≡ map (told_as codec msg) asked ++ (tell_success msg ∷ []))
        × ((e : String)
            → script v i msg.metadata ≡ err e
            → iterate codec (some script) msg (map (λ q. q.0) asked ++ ((v, i) ∷ after))
              ≡ map (told_as codec msg) asked ++ (tell_failure msg e ∷ []))
  unfolding iterate
  iterate-outcomes asked after v i h = (
    ap (iterate codec (some script) msg) (sym (append-nil (map (λ q. q.0) asked)))
        ∙ iterate-Answers asked [] h,
    λ e fails.
        iterate-Answers asked ((v, i) ∷ after) h
        ∙ ap (λ t. map (told_as codec msg) asked ++ t) (rw (failed-stops v i e fails) refl),
  )

get_fields-null : (names : List String) → get_fields null names ≡ null
unfolding get_fields
get_fields-null [] = refl
get_fields-null (name ∷ names) = refl

-- A path of names is followed name by name: what is found along the first part of a path is searched
-- along the rest, and what is missing anywhere is missing in the end.
pub get_fields-append :
    (v : Value) (names names' : List String)
    → get_fields v (names ++ names') ≡ get_fields (get_fields v names) names'
unfolding get_fields
get_fields-append v [] names' = refl
get_fields-append v (name ∷ names) names' = elim (Option-cases (sub_field name v)) [
  | inl e ↦ rw e (sym (get_fields-null names'))
  | inr (w, e) ↦ rw e (get_fields-append w names names')
]

-- A function that is registered is the one that a node of its name calls, whatever was registered
-- before; other names are not affected. Once it is unregistered, the node tells a failure.
pub functions-registered :
    (functions : FunctionsRegistry) (name : String) (f : Function) (x : FunctionsNode)
    (msg : RuleMsg)
    → get_function_name x msg ≡ name
    → (Functions.on_msg (register functions name f) x msg ≡ f msg)
      × ((other : String)
          → other ≢ name
          → get_function (register functions name f) other ≡ get_function functions other)
      × (Functions.on_msg (unregister (register functions name f) name) x msg
          ≡ tell_failure msg ("can not found the function=" +++ name) ∷ [])
unfolding Functions.on_msg register unregister get_function
functions-registered functions name f x msg e = (
  ap (λ n. call (get n (put name f functions)) n msg) e
      ∙ ap (λ o. call o name msg) (get-put_self name f functions),
  λ other differs. get-put name other f functions ∙ ground (arith, differs, eq_iff name other),
  ap (λ n. call (get n (remove name (put name f functions))) n msg) e
      ∙ ap (λ o. call o name msg) (get-remove_self name (put name f functions)),
)

-- The value that a key has after the branches of a flow, if it had `before`: that of the last branch
-- that succeeded and has the key; an empty key is never taken over.
abbrev pub last_value : String → Option String → List BranchEnd → Option String
last_value k before [] = before
last_value k before (b ∷ ends) =
    last_value k
      (if is_some b.err
        then before
        else if k == ""
        then before
        else if has k b.msg.metadata
        then get k b.msg.metadata
        else before)
      ends

abbrev pub wrapped : BranchEnd → WrapperMsg
wrapped b = record { msg = b.msg; err = error_text b.err; node_id = b.node_id }

abbrev pub HasMap : BranchEnd → Type 0
HasMap b = IsMap b.msg.metadata

get-put_values :
    (k : String) (md values : Metadata)
    → IsMap values
    → get k (put_values md values)
      ≡ (if k == "" then get k md else if has k values then get k values else get k md)
unfolding put_values put_value get
get-put_values k md [] h = ground arith
get-put_values k md ((j, v) ∷ values) (fresh, keys) = ground (
  arith,
  get-put_values k md values keys,
  get-put_values k (put j v md) values keys,
  get-put j k v md,
  eq_iff j k,
  eq_iff j "",
  eq_iff k "",
  fresh,
)

on_branch_end-value :
    (k : String) (j : Joined) (b : BranchEnd)
    → HasMap b
    → get k (on_branch_end j b).wrapper_msg.metadata
      ≡ last_value k (get k j.wrapper_msg.metadata) (b ∷ [])
unfolding on_branch_end joined_metadata
on_branch_end-value k j b h = elim (Option-cases b.err) [
  | inl e ↦ rw e (get-put_values k j.wrapper_msg.metadata b.msg.metadata h)
  | inr (text, e) ↦ rw e refl
]

-- For callbacks that do not overlap. What the callbacks of a flow have joined after any number of
-- ends of branches: each branch with its node, its message and the text of its error, in the order of
-- the ends; and in the metadata, for each key, the value of the last branch that succeeded and has
-- the key, or else the old value.
pub on_branch_ends-joined :
    (j : Joined) (ends : List BranchEnd)
    → All HasMap ends
    → ((on_branch_ends j ends).msgs ≡ j.msgs ++ map wrapped ends)
      × ((k : String)
          → get k (on_branch_ends j ends).wrapper_msg.metadata
            ≡ last_value k (get k j.wrapper_msg.metadata) ends)
unfolding on_branch_ends on_branch_end
on_branch_ends-joined j [] h = (sym (append-nil j.msgs), λ k. refl)
on_branch_ends-joined j (b ∷ ends) (h, hs) =
    let (msgs, values) = on_branch_ends-joined (on_branch_end j b) ends hs in
    (
      msgs ∙ append_assoc j.msgs (wrapped b ∷ []) (map wrapped ends),
      λ k. values k ∙ ap (λ v. last_value k v ends) (on_branch_end-value k j b h),
    )
