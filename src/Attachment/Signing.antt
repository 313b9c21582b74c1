-- ===== src/Attachment/Signing.antt =====
-- require_storage, the presigned URLs, and head_attachment_object.
use text.Mathlib.Text.{◌==◌ as str_eq}
use pl8_base.Base.{Bool, Option, none, some, String, List, [], ◌∷◌, ◌++◌, any, if◌then◌else◌}
use pl8_base.Base.Text.{Text, codes}
use pl8_base.Errors.{storage_internal, storage_object_missing, Exec, pure, raise, ◌>>=◌}
use pl8_base.Const.{presign_expiry_seconds}
use pl8_base.Dynamo.{ClientError, Reply, replied, client_error, botocore_error}
use pl8_base.Types.{IssueAttachment}
use pl8_base.Storage.{
  Storage, Post, Head, generate_presigned_post, generate_presigned_url, head_object,
}
use pl8_base.Attachment.Requests.{s3_key}

-- OBJECT_MISSING_CODES
abbrev pub object_missing_codes : List String
object_missing_codes = "404" ∷ "NoSuchKey" ∷ "NotFound" ∷ []

unfoldable pub is_object_missing : ClientError → Bool
is_object_missing exc = any (λ code. str_eq exc.code code) object_missing_codes

module _ {State : Type 0} (storage : Option (Storage State)) where
  unfoldable pub require_storage : Exec State (Storage State)
  require_storage = elim storage [ none ↦ raise storage_internal | some st ↦ pure st ]

  -- Signing makes no call of its own; both families of exceptions are the same to it.
  abbrev pub signed {ℓ} : {A : Type ℓ} → Reply A → Exec State A
  signed (replied a) = pure a
  signed (client_error _) = raise storage_internal
  signed botocore_error = raise storage_internal

  unfoldable pub presigned_attachment_post : IssueAttachment → Exec State Post
  presigned_attachment_post x = do
    st ← require_storage
    reply ← generate_presigned_post st (s3_key x) x.content_type x.size presign_expiry_seconds
    signed reply

  abbrev disposition : Text → Text
  disposition name = codes "attachment; filename=\"" ++ (name ++ codes "\"")

  unfoldable pub presigned_attachment_url : IssueAttachment → Exec State Text
  presigned_attachment_url x = do
    st ← require_storage
    reply ← generate_presigned_url st (s3_key x) (disposition x.name) presign_expiry_seconds
    signed reply

  abbrev pub on_head : Reply Head → Exec State Head
  on_head (replied head) = pure head
  on_head (client_error exc) =
      if is_object_missing exc then raise storage_object_missing else raise storage_internal
  on_head botocore_error = raise storage_internal

  unfoldable pub head_attachment_object : IssueAttachment → Exec State Head
  head_attachment_object x = do
    st ← require_storage
    reply ← head_object st (s3_key x)
    on_head reply
