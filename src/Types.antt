-- ===== src/Types.antt =====
-- web/nitepr5_core/types.py: the records of the session, and the values that a Python caller may
-- hand to it. Bytes are lists of numbers below 256.
use nite_pr.Base.{ℕ, Bool, Option, List, bit_and, ◌==◌, ◌++◌, if◌then◌else◌}
use nite_pr.Base.Int.{ℤ}
use nite_pr.Base.Text.{Text, text}

abbrev pub Bytes : Type 0
Bytes = List ℕ

-- A value of the dynamic language, as far as the code asks for its type with `isinstance`.
pub data Dyn : Type 0 where
  nothing : Dyn
  int : ℤ → Dyn
  boolean : Bool → Dyn
  str : Text → Dyn
  bytes : Bytes → Dyn
  other : Dyn

pub record ProcessInfo : Type 0 where
  pub pid : ℕ
  pub name : Text
  pub titleid : Text

pub record ProcessDetail : Type 0 where
  pub pid : ℕ
  pub name : Text
  pub path : Text
  pub titleid : Text
  pub contentid : Text

pub record ForegroundInfo : Type 0 where
  pub pid : ℕ
  pub name : Text
  pub titleid : Text
  pub contentid : Text
  pub app_ver : Text

pub record MemoryMap : Type 0 where
  pub name : Text
  pub start : ℕ
  pub end : ℕ
  pub offset : ℕ
  pub prot : ℕ

-- `MemoryMap.perms`: "rwx", with a dash for each bit that is clear.
pub perms : MemoryMap → Text
perms m =
    (if bit_and m.prot 1 == 0 then text "-" else text "r")
    ++ (if bit_and m.prot 2 == 0 then text "-" else text "w")
    ++ (if bit_and m.prot 4 == 0 then text "-" else text "x")

pub record ScanHit : Type 0 where
  pub addr : ℕ
  pub current : Bytes
  pub previous : Option Bytes

pub record ScanRegion : Type 0 where
  pub start : ℕ
  pub end : ℕ
  pub prot : ℕ
  pub uncached : Bool

pub record WatchEntry : Type 0 where
  pub id : ℕ
  pub pid : ℕ
  pub addr : ℕ
  pub n : ℕ
  pub label : Text

pub record WatchValue : Type 0 where
  pub id : ℕ
  pub addr : ℕ
  pub content : Bytes

pub record FreezeEntry : Type 0 where
  pub id : ℕ
  pub pid : ℕ
  pub addr : ℕ
  pub content : Bytes

pub record CheatPatch : Type 0 where
  pub offset : Text
  pub on : Bytes
  pub off : Bytes

pub record CheatMod : Type 0 where
  pub name : Text
  pub description : Text
  pub type : Text
  pub memory : List CheatPatch

pub record CheatFile : Type 0 where
  pub name : Text
  pub id : Text
  pub version : Text
  pub process : Text
  pub mods : List CheatMod
  pub credits : List Text

pub record PluginStatus : Type 0 where
  pub ok : Bool
  pub armed : Bool
  pub pid : ℤ
  pub freeze_count : ℤ
  pub cheat_id : Text
  pub enabled : List Text
  pub dbg : Bool
