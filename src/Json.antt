-- ===== src/Json.antt =====
-- Values of a JSONB column, and Python's `dict[str, Any]` that is stored in one.
use fasti_kit.Base.{ℕ, String}

mutual
  pub data Json : Type 0 where
    null : Json
    num : ℕ → Json
    text : String → Json
    arr : Items → Json
    obj : Dict → Json

  pub data Items : Type 0 where
    nil : Items
    cons : Json → Items → Items

  pub data Dict : Type 0 where
    end : Dict
    field : String → Json → Dict → Dict
