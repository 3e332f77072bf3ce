-- ===== src/Models/Result.antt =====
-- The parsed output of a tool, as far as the program reads it: what backend/app/tools/parsers builds
-- for nmap and masscan (`hosts`), whatweb (`results`), nuclei (`findings`), sslscan (`targets`) and
-- gobuster (`results`). A key that is missing from a result reads as the empty list.
use cyberlab_kali.Base.{ℕ, Option, List, Text, Dict}

-- `port` is `none` where the entry has no port that `int` accepts.
pub record Port : Type 0 where
  pub protocol : Text
  pub port : Option ℕ
  pub state : Text
  pub service : Option Text
  pub product : Option Text
  pub version : Option Text

pub record Host : Type 0 where
  pub ports : List Port

-- What a plugin of whatweb reports: the entries `version`, `string` and `os` of an object, each a text
-- or a list of texts, or a value that is no object, by its `str`.
pub data PluginValue : Type 0 where
  listed : List Text → PluginValue
  single : Text → PluginValue

pub data PluginData : Type 0 where
  detail : (version string os : Option PluginValue) → PluginData
  other : Text → PluginData

pub record WebResult : Type 0 where
  pub http_status : Option ℕ
  pub plugins : Dict PluginData

pub record NucleiFinding : Type 0 where
  pub severity : Text

pub record Certificate : Type 0 where
  pub subject : Option Text
  pub not_valid_after : Option Text

pub record SslTarget : Type 0 where
  pub host : Option Text
  pub certificate : Option Certificate

pub record PathResult : Type 0 where
  pub path : Option Text
  pub status : Option ℕ

pub record ParsedResult : Type 0 where
  pub hosts : List Host
  pub web_results : List WebResult
  pub findings : List NucleiFinding
  pub ssl_targets : List SslTarget
  pub paths : List PathResult
