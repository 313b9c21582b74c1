-- ===== src/Types/Compression.antt =====
-- What base.py uses of the gzip package: a text's bytes compressed, and back; `none` is an error.
use pl8_base.Base.{ℕ, ◌≡◌, Option, some, List}
use pl8_base.Base.Text.{Text}

pub record Gzip : Type 0 where
  pub compress : Text → List ℕ
  pub decompress : List ℕ → Option Text
  -- What was compressed is decompressed.
  pub decompress-compress : (t : Text) → decompress (compress t) ≡ some t
