-- ===== src/Base/Json.antt =====
-- The dynamic values of the source (`interface{}` filled by encoding/json). A number keeps the text
-- that it is written with: the source computes with none of them.
use mathlib.Core.Bool.{Bool}
use golang_iothub.Base.Text.{Bytes}

mutual
  pub data Json : Type 0 where
    null : Json
    boolean : Bool → Json
    number : Bytes → Json
    text : Bytes → Json
    array : Items → Json
    object : Members → Json

  pub data Items : Type 0 where
    nil : Items
    cons : Json → Items → Items

  pub data Members : Type 0 where
    end : Members
    member : Bytes → Json → Members → Members
