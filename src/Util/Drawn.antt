-- ===== src/Util/Drawn.antt =====
-- The ids that gen_issue_id makes.
use pl8_base.Base.{ℕ, zero, suc, ◌≤◌, ◌≡◌, refl, ap, false, [], ◌∷◌, length, ltb, arith}
use pl8_base.Base.Text.{Text}
use pl8_base.Errors.{ok, pure, ◌>>=◌}
use pl8_base.Const.{min_issue_id_len, max_issue_id_len}
use pl8_base.Dynamo.{Client, choice}
use pl8_base.Util.IssueId.{draw, gen_issue_id}

module _ (c : Client) (alphabet : Text) where
  -- As many characters are drawn as were asked for.
  pub draw-length :
      (n : ℕ) (s : c.State) → (id : Text) × ((draw c alphabet n s).0 ≡ ok id) × (length id ≡ n)
  unfolding draw ◌>>=◌ pure choice
  draw-length zero s = ([], refl, refl)
  draw-length (suc n) s =
      let (char, s') = c.choice alphabet s in
      let (rest, drawn, len) = draw-length n s' in (char ∷ rest, rw drawn refl, ap suc len)

-- gen_issue_id gives an id of the length that it is asked for, where that is between the bounds.
pub gen_issue_id-length :
    (c : Client) (n : ℕ) (alphabet : Text) (s : c.State)
    → min_issue_id_len ≤ n
    → n ≤ max_issue_id_len
    → (id : Text) × ((gen_issue_id c n alphabet s).0 ≡ ok id) × (length id ≡ n)
unfolding gen_issue_id
gen_issue_id-length c n alphabet s lo hi =
    let e1 : ltb n min_issue_id_len ≡ false = ground arith in
    let e2 : ltb max_issue_id_len n ≡ false = ground arith in
    rw (e1, e2) (draw-length c alphabet n s)
