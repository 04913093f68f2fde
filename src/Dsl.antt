-- ===== src/Dsl.antt =====
-- dsl.go, and the identifiers of api/types/types.go: the definition of a rule chain. Go's `int` is
-- the type ℤ of this file.
use rulego.Prelude.{
  ℕ, String, Bool, true, false, ◌≡◌, ◌↔◌, ◌&&◌, List, Eq, ◌==◌, string_eq, arith, eq_iff,
}
use rulego.Prelude.Dict.{Map}
use rulego.Json.{Value}

-- Go's `int`: `negsuc n` is -(n + 1).
pub data ℤ : Type 0 where
  pos : ℕ → ℤ
  negsuc : ℕ → ℤ

pub data ComponentType : Type 0 where
  node chain : ComponentType

abbrev pub same_type : ComponentType → ComponentType → Bool
same_type node node = true
same_type chain chain = true
same_type _ _ = false

pub record RuleNodeId : Type 0 where
  pub id : String
  pub type : ComponentType

abbrev pub same_id : RuleNodeId → RuleNodeId → Bool
same_id a b = a.id == b.id && same_type a.type b.type

pub same_id_iff : (a b : RuleNodeId) → (same_id a b ≡ true) ↔ (a ≡ b)
same_id_iff a b = ground (arith, eq_iff a.id b.id)

instance abbrev pub rule_node_id_eq : Eq RuleNodeId
rule_node_id_eq = record { beq = same_id; beq_iff = same_id_iff }

pub record RuleNodeRelation : Type 0 where
  pub in_id : RuleNodeId
  pub out_id : RuleNodeId
  pub relation_type : String

abbrev pub Configuration : Type 0
Configuration = Map String Value

-- `NodeConnection` and `RuleChainConnection` have the same fields.
pub record NodeConnection : Type 0 where
  pub from_id : String
  pub to_id : String
  pub type : String

pub record NodeAdditionalInfo : Type 0 where
  pub description : String
  pub layout_x : ℤ
  pub layout_y : ℤ

pub record RuleNode : Type 0 where
  pub id : String
  pub additional_info : NodeAdditionalInfo
  pub type : String
  pub name : String
  pub debug_mode : Bool
  pub configuration : Configuration

pub record RuleChainBaseInfo : Type 0 where
  pub id : String
  pub additional_info : Map String String
  pub name : String
  pub debug_mode : Bool
  pub root : Bool
  pub configuration : Configuration

pub record RuleMetadata : Type 0 where
  pub first_node_index : ℤ
  pub nodes : List RuleNode
  pub connections : List NodeConnection
  pub rule_chain_connections : List NodeConnection

pub record RuleChain : Type 0 where
  pub rule_chain : RuleChainBaseInfo
  pub metadata : RuleMetadata
