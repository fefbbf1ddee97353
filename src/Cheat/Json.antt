-- ===== src/Cheat/Json.antt =====
-- The values that `json.loads` returns, as far as web/nitepr5_core/cheat.py tells them apart. The
-- fields of an object stand in the order of the dictionary.
use nite_pr.Base.{Bool, Option, none, some, if◌then◌else◌}
use nite_pr.Base.Text.{Text, eq_text}

mutual
  pub data Json : Type 0 where
    null : Json
    boolean : Bool → Json
    number : Json
    str : Text → Json
    array : Items → Json
    object : Fields → Json

  pub data Items : Type 0 where
    nil : Items
    cons : Json → Items → Items

  pub data Fields : Type 0 where
    empty : Fields
    field : Text → Json → Fields → Fields

-- `d.get(key)`
unfoldable pub get : Text → Fields → Option Json
unfolding eq_text
get key empty = none
get key (field k v rest) = if eq_text key k then some v else get key rest

-- `d.get(key, default)`
unfoldable pub get_or : Text → Json → Fields → Json
unfolding get
get_or key default fields = elim (get key fields) [ none ↦ default | some v ↦ v ]
