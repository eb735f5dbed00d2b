-- ===== src/Models/Json.antt =====
-- JSON values, the payloads of the outbox.
use buddy_web_ver.Base.{ℕ, Bool}
use buddy_web_ver.Text.{Text}

-- `opaque` is a value that JSON cannot hold, `not_finite` a float that is NaN or infinite.
mutual
  pub data Json : Type 0 where
    null : Json
    bool : Bool → Json
    number : ℕ → Json
    not_finite : Json
    opaque : Json
    text : Text → Json
    array : JsonItems → Json
    object : JsonFields → Json

  pub data JsonItems : Type 0 where
    end : JsonItems
    item : Json → JsonItems → JsonItems

  pub data JsonFields : Type 0 where
    end_fields : JsonFields
    field : Text → Json → JsonFields → JsonFields
