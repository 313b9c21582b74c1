-- ===== src/Types/Keys.antt =====
-- The format strings of KEY_ATTRS in types/issue.py and types/space.py, and the key helpers of the
-- mixins that fill them in.
use pl8_base.Base.{◌++◌}
use pl8_base.Base.Text.{Text, codes}
use pl8_base.Dynamo.{Key}

-- "#", the separator of every key format.
abbrev hash : Text → Text
hash t = codes "#" ++ t

abbrev pub info_sk : Text
info_sk = codes "100#INFO"

abbrev pub comment_sk_prefix : Text
comment_sk_prefix = codes "500#COMMENT#"

abbrev pub attachment_sk_prefix : Text
attachment_sk_prefix = codes "600#ATTACHMENT#"

abbrev pub blocker_sk_prefix : Text
blocker_sk_prefix = codes "800#BLOCKEDISSUE#"

-- SPACE#{space_id}
abbrev pub space_pk : Text → Text
space_pk space_id = codes "SPACE#" ++ space_id

-- ISSUE#{space_id}#{issue_id}
abbrev pub issue_pk : Text → Text → Text
issue_pk space_id issue_id = codes "ISSUE#" ++ (space_id ++ hash issue_id)

abbrev pub space_info_key : Text → Key
space_info_key space_id = record { pk = space_pk space_id; sk = info_sk }

abbrev pub issue_info_key : Text → Text → Key
issue_info_key space_id issue_id = record { pk = issue_pk space_id issue_id; sk = info_sk }

-- 500#COMMENT#{comment_id}
abbrev pub comment_sk : Text → Text
comment_sk comment_id = comment_sk_prefix ++ comment_id

abbrev pub comment_key : Text → Text → Text → Key
comment_key space_id issue_id comment_id = record {
  pk = issue_pk space_id issue_id;
  sk = comment_sk comment_id;
}

-- 600#ATTACHMENT#{attachment_id}
abbrev pub attachment_sk : Text → Text
attachment_sk attachment_id = attachment_sk_prefix ++ attachment_id

abbrev pub attachment_key : Text → Text → Text → Key
attachment_key space_id issue_id attachment_id = record {
  pk = issue_pk space_id issue_id;
  sk = attachment_sk attachment_id;
}

-- 800#BLOCKEDISSUE#{blocked_issue_space_id}#{blocked_issue_id}
abbrev pub blocker_sk : Text → Text → Text
blocker_sk blocked_space_id blocked_id = blocker_sk_prefix ++ (blocked_space_id ++ hash blocked_id)

-- ISSUESPACESTATUS#{space_id}#{status}
abbrev pub issue_gsi1pk : Text → Text → Text
issue_gsi1pk space_id status = codes "ISSUESPACESTATUS#" ++ (space_id ++ hash status)

-- STATUSUPDATED#{status_updated_at}#ISSUE#{issue_id}
abbrev pub issue_gsi1sk : Text → Text → Text
issue_gsi1sk status_updated_at issue_id =
    codes "STATUSUPDATED#" ++ (status_updated_at ++ (codes "#ISSUE#" ++ issue_id))

-- COMMENTATTACHMENT#{space_id}#{issue_id}#{comment_id}
abbrev pub attachment_gsi1pk : Text → Text → Text → Text
attachment_gsi1pk space_id issue_id comment_id =
    codes "COMMENTATTACHMENT#" ++ (space_id ++ hash (issue_id ++ hash comment_id))

-- BLOCKEDISSUE#{blocked_issue_space_id}#{blocked_issue_id}
abbrev pub blocker_gsi1pk : Text → Text → Text
blocker_gsi1pk blocked_space_id blocked_id =
    codes "BLOCKEDISSUE#" ++ (blocked_space_id ++ hash blocked_id)

-- 500#BLOCKINGISSUE#{blocking_issue_space_id}#{blocking_issue_id}
abbrev pub blocker_gsi1sk : Text → Text → Text
blocker_gsi1sk blocking_space_id blocking_id =
    codes "500#BLOCKINGISSUE#" ++ (blocking_space_id ++ hash blocking_id)

-- space/{space_id}/issue/{issue_id}/attachments/{attachment_id}
abbrev pub attachment_s3_key : Text → Text → Text → Text
attachment_s3_key space_id issue_id attachment_id =
    codes "space/"
    ++ (space_id ++ (codes "/issue/" ++ (issue_id ++ (codes "/attachments/" ++ attachment_id))))
