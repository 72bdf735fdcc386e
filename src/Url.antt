-- ===== src/Url.antt =====
-- What the program uses of Go's net/url, strings and path. A Go string is its bytes, and each byte
-- is the character of that code.
pub mod Bytes
pub mod Escape
pub mod Parse
pub mod Print
pub mod Join
use concrnt_playground.Prelude.{String, Bool, Option}

-- url.Userinfo
pub record Userinfo : Type 0 where
  pub username : String
  pub password : Option String

-- url.URL
pub record Url : Type 0 where
  pub scheme : String
  pub opaque : String
  pub user : Option Userinfo
  pub host : String
  pub path : String
  pub raw_path : String
  pub omit_host : Bool
  pub force_query : Bool
  pub raw_query : String
  pub fragment : String
