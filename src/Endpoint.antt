-- ===== src/Endpoint.antt =====
-- endpoint/endpoint.go: routers, their two sides, and how an exchange of messages passes through
-- them. Each kind of endpoint has message types of its own: `MessageOps` has what endpoint.go and
-- processes change or ask by the interface `Message`. A process is called for one router and may
-- change the exchange; one that panics is left out. An engine, and a node under a context of its
-- own, are given by the ends of the branches that they run for a message, in the order in which
-- they come. The locks of `ExecutorFactory` are left out.
pub mod Building
pub mod Errors
pub mod Laws
pub mod Kinds
pub mod Rest
pub mod Websocket
pub mod Schedule
pub mod Mqtt
pub mod Net
mod Tests
use rulego.Prelude.{
  ℕ, String, Bool, true, false, not, Option, none, some, List, [], ◌∷◌, if◌then◌else◌,
}
use rulego.Msg.{RuleMsg, Metadata}
use rulego.Dsl.{Configuration}
use rulego.Text.{sprintf_dict}
use Prim.Native.String.{◌++◌ as ◌+++◌}

pub record MessageOps (M : Type 0) : Type 0 where
  pub get_msg : M → M × Option RuleMsg
  pub set_msg : RuleMsg → M → M
  pub set_status_code : ℕ → M → M
  pub set_body : String → M → M
  pub get_error : M → Option String
  pub set_error : String → M → M

pub record Exchange (In Out : Type 0) : Type 0 where
  pub in_message : In
  pub out : Out

-- `true`: the next process is called.
abbrev pub Process : Type 0 → Type 0 → Type 0
Process In Out = Exchange In Out → Exchange In Out × Bool

-- The end of a branch: its message, and its error.
abbrev pub End : Type 0
End = RuleMsg × Option String

abbrev pub Engine : Type 0
Engine = RuleMsg → List End

-- The executors of endpoint.go. `Executor` is an interface, and a program may register others:
-- those are not modelled.
pub data Executor (Node : Type 0) : Type 0 where
  chain_executor : Executor Node
  component_executor : (component : Option Node) → Executor Node

pub record To (In Out Node : Type 0) : Type 0 where
  pub has_vars : Bool
  pub config : Configuration
  pub to : String
  pub to_path : String
  pub process_list : List (Process In Out)
  pub executor : Option (Executor Node)
  pub wait : Bool

pub record From (In Out Node : Type 0) : Type 0 where
  pub config : Configuration
  pub from : String
  pub process_list : List (Process In Out)
  pub to : Option (To In Out Node)

pub record Router (In Out Node : Type 0) : Type 0 where
  pub from : Option (From In Out Node)
  pub rule_go : String → Option Engine
  pub disable : Bool

abbrev pub and_next : {X : Type 0} → X × Bool → (X → X × Bool) → X × Bool
and_next (x, true) next = next x
and_next (x, false) next = (x, false)

abbrev pub and_then : {X Y : Type 0} → X × Bool → (X → X × List Y) → X × List Y
and_then (x, true) next = next x
and_then (x, false) next = (x, [])

-- The loop of `ExecuteProcess`, and those over the interceptors and over the processes of a `To`:
-- it stops at the first process that returns false, and says whether there was none.
unfoldable pub execute_process : {In Out : Type 0} → List (Process In Out) → Process In Out
execute_process [] x = (x, true)
execute_process (process ∷ processes) x = and_next (process x) (execute_process processes)

unfoldable pub set_disable : {In Out Node : Type 0} → Router In Out Node → Bool → Router In Out Node
set_disable r disable = record r { disable = disable }

unfoldable pub is_disable : {In Out Node : Type 0} → Router In Out Node → Bool
is_disable r = r.disable

unfoldable pub from_to_string : {In Out Node : Type 0} → Router In Out Node → String
from_to_string r = elim r.from [ none ↦ "" | some f ↦ f.from ]

unfoldable pub to_string_by_dict : {In Out Node : Type 0} → To In Out Node → Metadata → String
to_string_by_dict t dict = if t.has_vars then sprintf_dict t.to_path dict else t.to_path

abbrev pub chain_not_found : String → String
chain_not_found id = "chainId=" +++ id +++ " not found error"

abbrev pub to_of : {In Out Node : Type 0} → Router In Out Node → Option (To In Out Node)
to_of r = elim r.from [ none ↦ none | some f ↦ f.to ]

-- `inMsg` is read before the rest of the test, so that the message is made even without a `To`.
abbrev pub with_in_msg :
    {In Out : Type 0}
    → (RuleMsg → Exchange In Out → Exchange In Out × List End)
    → Exchange In Out
    → In × Option RuleMsg
    → Exchange In Out × List End
with_in_msg run x (m, none) = (record x { in_message = m }, [])
with_in_msg run x (m, some msg) = run msg (record x { in_message = m })

module _ {In Out : Type 0} (outs : MessageOps Out) where
  -- The loop of a chain that is not found: the error is set before each process.
  unfoldable pub not_found : String → List (Process In Out) → Exchange In Out → Exchange In Out
  not_found text [] x = x
  not_found text (process ∷ processes) x =
      (and_next (process (record x { out = outs.set_error text x.out }))
        (λ x'. (not_found text processes x', true))).0

module _ {In Out Node : Type 0} (outs : MessageOps Out) where
  -- The end callback that both executors give.
  unfoldable pub on_branch_end : To In Out Node → Exchange In Out → End → Exchange In Out
  on_branch_end t x (msg, none) =
      (execute_process t.process_list (record x { out = outs.set_msg msg x.out })).0
  on_branch_end t x (msg, some text) =
      (execute_process t.process_list (record x { out = outs.set_error text x.out })).0

  unfoldable pub on_branch_ends : To In Out Node → Exchange In Out → List End → Exchange In Out
  on_branch_ends t x [] = x
  on_branch_ends t x (e ∷ ends) = on_branch_ends t (on_branch_end t x e) ends

  -- What a call leaves, and the ends that come after it has returned: the message is given to the
  -- engine at once, and with `wait` its ends come before the call returns.
  abbrev run_for : To In Out Node → List End → Exchange In Out → Exchange In Out × List End
  run_for t ends x = if t.wait then (on_branch_ends t x ends, []) else (x, ends)

module _ {In Out Node : Type 0} (ins : MessageOps In) (outs : MessageOps Out) where
  abbrev run_engine :
      To In Out Node
      → Option Engine
      → (chain_id : String) → RuleMsg
      → Exchange In Out
      → Exchange In Out × List End
  run_engine t none chain_id msg x =
      (not_found outs (chain_not_found chain_id) t.process_list x, [])
  run_engine t (some engine) chain_id msg x = run_for outs t (engine msg) x

  unfoldable pub chain_execute : Router In Out Node → Exchange In Out → Exchange In Out × List End
  unfolding not_found on_branch_ends to_string_by_dict
  chain_execute r x = elim r.from [
    | none ↦ (x, [])
    | some f ↦
        with_in_msg
          (λ msg x'. elim f.to [
            | none ↦ (x', [])
            | some t ↦
                let chain_id = to_string_by_dict t msg.metadata in
                run_engine t (r.rule_go chain_id) chain_id msg x'
          ])
          x (ins.get_msg x.in_message)
  ]

  module _ (on_node_msg : Node → RuleMsg → List End) where
    unfoldable pub component_execute :
        Option Node → Router In Out Node → Exchange In Out → Exchange In Out × List End
    unfolding on_branch_ends
    component_execute none r x = (x, [])
    component_execute (some component) r x = elim r.from [
      | none ↦ (x, [])
      | some f ↦
          with_in_msg
            (λ msg x'. elim f.to [
              | none ↦ (x', [])
              | some t ↦ run_for outs t (on_node_msg component msg) x'
            ])
            x (ins.get_msg x.in_message)
    ]

    unfoldable pub execute :
        Router In Out Node → To In Out Node → Exchange In Out → Exchange In Out × List End
    unfolding chain_execute component_execute
    execute r t x = elim t.executor [
      | none ↦ (x, [])
      | some chain_executor ↦ chain_execute r x
      | some (component_executor component) ↦ component_execute component r x
    ]

    abbrev pub from_side : Router In Out Node → Exchange In Out → Exchange In Out × Bool
    unfolding execute_process
    from_side r x = elim r.from [ none ↦ (x, true) | some f ↦ execute_process f.process_list x ]

    abbrev pub to_side : Router In Out Node → Exchange In Out → Exchange In Out × List End
    unfolding execute
    to_side r x = elim (to_of r) [ none ↦ (x, []) | some t ↦ execute r t x ]

    unfoldable pub do_process :
        (interceptors : List (Process In Out))
        → Router In Out Node
        → Exchange In Out
        → Exchange In Out × List End
    unfolding execute_process execute
    do_process interceptors r x =
        and_then (execute_process interceptors x) (λ x'. and_then (from_side r x') (to_side r))
