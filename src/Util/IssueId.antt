-- ===== src/Util/IssueId.antt =====
-- gen_issue_id (util.py).
use pl8_base.Base.{ℕ, zero, suc, [], ◌∷◌, ltb, if◌then◌else◌}
use pl8_base.Base.Text.{Text, codes}
use pl8_base.Errors.{bad_args, Exec, pure, raise, ◌>>=◌}
use pl8_base.Const.{max_issue_id_len, min_issue_id_len}
use pl8_base.Dynamo.{Client, choice}

-- string.ascii_letters + string.digits
abbrev pub default_id_alphabet : Text
default_id_alphabet = codes "abcdefghijklmnopqrstuvwxyzABCDEFGHIJKLMNOPQRSTUVWXYZ0123456789"

module _ (c : Client) where
  -- "".join(secrets.choice(alphabet) for _ in range(n))
  unfoldable pub draw : Text → ℕ → Exec c.State Text
  draw alphabet zero = pure []
  draw alphabet (suc n) = do char ← choice c alphabet; rest ← draw alphabet n; pure (char ∷ rest)

  unfoldable pub gen_issue_id : ℕ → Text → Exec c.State Text
  unfolding draw
  gen_issue_id issue_id_len alphabet =
      if ltb issue_id_len min_issue_id_len
      then raise bad_args
      else if ltb max_issue_id_len issue_id_len
      then raise bad_args
      else draw alphabet issue_id_len
