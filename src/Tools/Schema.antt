-- ===== src/Tools/Schema.antt =====
-- backend/app/tools/schema.py: what a tool definition declares. The YAML text is read by PyYAML and
-- pydantic; the model starts from the values that they return.
use cyberlab_kali.Base.{ℕ, ltb, Bool, Option, List, Text, Dict, true, false}

-- A Python integer; `negsuc n` is -(n + 1).
pub data ℤ : Type 0 where
  pos : ℕ → ℤ
  negsuc : ℕ → ℤ

unfoldable pub ltb_ℤ : ℤ → ℤ → Bool
ltb_ℤ (pos a) (pos b) = ltb a b
ltb_ℤ (pos a) (negsuc b) = false
ltb_ℤ (negsuc a) (pos b) = true
ltb_ℤ (negsuc a) (negsuc b) = ltb b a

-- A JSON value as an argument may hold it; `other` is any number with a fraction, list or object.
pub data Value : Type 0 where
  null other : Value
  bool : Bool → Value
  int : ℤ → Value
  text : Text → Value

pub data ArgumentType : Type 0 where
  target url string boolean choice integer : ArgumentType

pub data RiskLevel : Type 0 where
  safe caution restricted manual_only : RiskLevel

pub record ArgumentDef : Type 0 where
  pub name : Text
  pub type : ArgumentType
  pub required : Bool
  pub positional : Bool
  pub flag : Option Text
  pub default : Value
  pub pattern : Option Text
  pub choices : Option (List Text)
  pub min_value : Option ℤ
  pub max_value : Option ℤ

pub record ToolProfile : Type 0 where
  pub name : Text
  pub args : Dict Value
  pub timeout : Option ℕ

pub record ToolDefinition : Type 0 where
  pub name : Text
  pub risk_level : RiskLevel
  pub ai_allowed : Bool
  pub fixed_args : List Text
  pub arguments : List ArgumentDef
  pub profiles : List ToolProfile
  pub parser : Text
  pub default_timeout : ℕ
  pub max_timeout : ℕ

-- `_manual_only_implies_not_ai_allowed`: whether the definition is accepted.
reachable : RiskLevel → Bool → Bool
reachable manual_only true = false
reachable _ _ = true

unfoldable pub manual_only_implies_not_ai_allowed : ToolDefinition → Bool
unfolding reachable
manual_only_implies_not_ai_allowed tool = reachable tool.risk_level tool.ai_allowed
