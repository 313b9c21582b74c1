-- ===== src/Attachment/StorageSteps.antt =====
-- What the calls of S3 and the signing of URLs do to the table: nothing.
use pl8_base.Base.{sym, Option, none, some}
use mathlib.Core.Path.{subst}
use pl8_base.Base.Int.{ℤ}
use pl8_base.Base.Text.{Text}
use pl8_base.Errors.{Exec, storage_internal, storage_object_missing, ◌>>=◌}
use pl8_base.Dynamo.{Table, Client, Reply, replied, client_error, botocore_error}
use pl8_base.Types.{IssueAttachment}
use pl8_base.Storage.{
  Storage, IsStorage, Head, generate_presigned_post, generate_presigned_url, head_object,
  delete_object,
}
use pl8_base.Manager.Keeps.{Keeps, Keeps-bind, Keeps-if, Keeps-pure, Keeps-raise}
use pl8_base.Attachment.{
  require_storage, signed, presigned_attachment_post, presigned_attachment_url, on_head,
  is_object_missing, head_attachment_object,
}

-- The storage that a manager was built with, if any, writes nothing to the table.
abbrev pub Quiet : (c : Client) → Option (Storage c.State) → Type 0
Quiet c none = Unit
Quiet c (some st) = IsStorage c st

module _ (c : Client) {P : Table → Type 0} where
  module _ (st : Storage c.State) (quiet : IsStorage c st) where
    Keeps-generate_presigned_post :
        (key content_type : Text) (size : ℤ) (expires : _)
        → Keeps c P (generate_presigned_post st key content_type size expires)
    unfolding generate_presigned_post
    Keeps-generate_presigned_post key content_type size expires = record {
      at = λ s h. subst P (sym (quiet.post_quiet key content_type size expires s)) h;
    }

    Keeps-generate_presigned_url :
        (key disposition : Text) (expires : _)
        → Keeps c P (generate_presigned_url st key disposition expires)
    unfolding generate_presigned_url
    Keeps-generate_presigned_url key disposition expires = record {
      at = λ s h. subst P (sym (quiet.url_quiet key disposition expires s)) h;
    }

    Keeps-head_object : (key : Text) → Keeps c P (head_object st key)
    unfolding head_object
    Keeps-head_object key = record { at = λ s h. subst P (sym (quiet.head_quiet key s)) h }

    pub Keeps-delete_object : (key : Text) → Keeps c P (delete_object st key)
    unfolding delete_object
    Keeps-delete_object key = record { at = λ s h. subst P (sym (quiet.delete_quiet key s)) h }

  -- An action that needs the storage keeps what it keeps with one.
  Keeps-require_storage :
      {A : Type 0} (storage : Option (Storage c.State)) (f : Storage c.State → Exec c.State A)
      → Quiet c storage
      → ((st : Storage c.State) → IsStorage c st → Keeps c P (f st))
      → Keeps c P (require_storage storage >>= f)
  unfolding require_storage ◌>>=◌
  Keeps-require_storage none f quiet k = record { at = λ s h. h }
  Keeps-require_storage (some st) f quiet k = record { at = (k st quiet).at }

  module _ (storage : Option (Storage c.State)) (quiet : Quiet c storage) where
    pub Keeps-with_storage :
        {A : Type 0} (f : Storage c.State → Exec c.State A)
        → ((st : Storage c.State) → IsStorage c st → Keeps c P (f st))
        → Keeps c P (require_storage storage >>= f)
    Keeps-with_storage f k = Keeps-require_storage storage f quiet k

    Keeps-signed : {A : Type 0} (r : Reply A) → Keeps c P (signed storage r)
    Keeps-signed (replied a) = Keeps-pure c a
    Keeps-signed (client_error _) = Keeps-raise c storage_internal
    Keeps-signed botocore_error = Keeps-raise c storage_internal

    pub Keeps-presigned_attachment_post :
        (x : IssueAttachment) → Keeps c P (presigned_attachment_post storage x)
    unfolding presigned_attachment_post
    Keeps-presigned_attachment_post x =
        Keeps-with_storage _
          λ st q. Keeps-bind c _ _ (Keeps-generate_presigned_post st q _ _ _ _) Keeps-signed

    pub Keeps-presigned_attachment_url :
        (x : IssueAttachment) → Keeps c P (presigned_attachment_url storage x)
    unfolding presigned_attachment_url
    Keeps-presigned_attachment_url x =
        Keeps-with_storage _
          λ st q. Keeps-bind c _ _ (Keeps-generate_presigned_url st q _ _ _) Keeps-signed

    Keeps-on_head : (r : Reply Head) → Keeps c P (on_head storage r)
    Keeps-on_head (replied head) = Keeps-pure c head
    Keeps-on_head (client_error exc) =
        Keeps-if c (is_object_missing exc) _ _ (Keeps-raise c storage_object_missing)
          (Keeps-raise c storage_internal)
    Keeps-on_head botocore_error = Keeps-raise c storage_internal

    pub Keeps-head_attachment_object :
        (x : IssueAttachment) → Keeps c P (head_attachment_object storage x)
    unfolding head_attachment_object
    Keeps-head_attachment_object x =
        Keeps-with_storage _ λ st q. Keeps-bind c _ _ (Keeps-head_object st q _) Keeps-on_head
