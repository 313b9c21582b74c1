-- ===== src/Storage.antt =====
-- The S3 client as the attachment operations call it: a parameter of the model. A manager may be
-- built without one, or without a bucket, so the operations take an `Option` of it.

use pl8_base.Base.{ℕ, ◌≡◌, Option, List}
use pl8_base.Base.Int.{ℤ}
use pl8_base.Base.Text.{Text}
use pl8_base.Errors.{Exec, ok}
use pl8_base.Dynamo.{Reply, Client}

-- A presigned POST: its url and fields.
pub record Post : Type 0 where
  pub url : Text
  pub fields : List (Text × Text)

-- A HeadObject response; S3 may omit the content type.
pub record Head : Type 0 where
  pub content_length : ℤ
  pub content_type : Option Text

pub record Storage (State : Type 0) : Type 0 where
  -- generate_presigned_post for a key, with an exact content type and an exact size.
  pub generate_presigned_post : Text → Text → ℤ → ℕ → State → Reply Post × State
  -- generate_presigned_url of get_object for a key, with a content disposition.
  pub generate_presigned_url : Text → Text → ℕ → State → Reply Text × State
  pub head_object : Text → State → Reply Head × State
  pub delete_object : Text → State → Reply (Unit {0}) × State

-- No call of S3 writes to the table.
pub record IsStorage (c : Client) (st : Storage c.State) : Type 0 where
  pub post_quiet :
      (key content_type : Text) (size : ℤ) (expires : ℕ) (s : c.State)
      → c.table (st.generate_presigned_post key content_type size expires s).1 ≡ c.table s
  pub url_quiet :
      (key disposition : Text) (expires : ℕ) (s : c.State)
      → c.table (st.generate_presigned_url key disposition expires s).1 ≡ c.table s
  pub head_quiet : (key : Text) (s : c.State) → c.table (st.head_object key s).1 ≡ c.table s
  pub delete_quiet : (key : Text) (s : c.State) → c.table (st.delete_object key s).1 ≡ c.table s

-- The calls as actions.
module _ {State : Type 0} (st : Storage State) where
  unfoldable pub generate_presigned_post : Text → Text → ℤ → ℕ → Exec State (Reply Post)
  generate_presigned_post key content_type size expires s =
      let (r, s') = st.generate_presigned_post key content_type size expires s in (ok r, s')

  unfoldable pub generate_presigned_url : Text → Text → ℕ → Exec State (Reply Text)
  generate_presigned_url key disposition expires s =
      let (r, s') = st.generate_presigned_url key disposition expires s in (ok r, s')

  unfoldable pub head_object : Text → Exec State (Reply Head)
  head_object key s = let (r, s') = st.head_object key s in (ok r, s')

  unfoldable pub delete_object : Text → Exec State (Reply (Unit {0}))
  delete_object key s = let (r, s') = st.delete_object key s in (ok r, s')
