-- ===== src/Config/Document.antt =====
-- A value of a YAML or JSON document. `real n` is the float n / (2 ^ 30 * 10 ^ 6): in this unit both
-- a byte of a GiB and a microsecond of a second are whole. Other floats, and keys that are no text,
-- are not modelled, but that an integer key stands as its decimal text.
use nodepilot.Common.{ℕ, Bool, ℤ}
use nodepilot.Common.Text.{Text}

mutual
  pub data Value : Type 0 where
    null : Value
    bool : Bool → Value
    num : ℤ → Value
    real : ℕ → Value
    str : Text → Value
    arr : Items → Value
    obj : Fields → Value

  pub data Items : Type 0 where
    nil : Items
    cons : Value → Items → Items

  pub data Fields : Type 0 where
    end : Fields
    field : Text → Value → Fields → Fields
