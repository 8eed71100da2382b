-- ===== src/Validation/Binding/Success.antt =====
-- When Bind gives no error.
use goichi.Prelude.{Option, none, some, is_empty, if◌then◌else◌}
use goichi.Prelude.Text.{Bytes}
use goichi.Validation.Reflect.{StructFields}
use goichi.Validation.Rules.{Matching}
use goichi.Validation.Binding.{Readers, Source}
use goichi.Validation.Binding.Texts.{with_texts}

module _ (P : Readers) where
  module _ (M : Matching) (unmarshal : Bytes → StructFields → StructFields × Option Bytes)
      (set_defaults : Option (StructFields → StructFields)) (S : Source) where
    -- The struct and the error that the body of the request leaves; an empty one leaves the struct alone.
    abbrev pub decoded : Bytes → StructFields → StructFields × Option Bytes
    decoded body fs = if is_empty body then (fs, none) else unmarshal body fs

    abbrev defaulted : Option (StructFields → StructFields) → StructFields → StructFields
    defaulted none fs = fs
    defaulted (some f) fs = f fs

    -- The struct that the texts of the request and then the defaults make of a struct.
    abbrev pub filled : StructFields → StructFields
    filled fs = defaulted set_defaults (with_texts P S fs)
