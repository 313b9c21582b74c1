-- ===== src/Available/Rules.antt =====
-- Actions that return, and what they leave: one rule for each way to build an action.
use pl8_base.Base.{Option, ◌≡◌, refl, ap, sym, true, false, List, all}
use mathlib.Core.Path.{subst}
use pl8_base.Base.Text.{Text}
use pl8_base.Errors.{Result, ok, Exec, pure, lift, ◌>>=◌}
use pl8_base.Dynamo.{
  Item, Table, Client, Write, Reply, replied, is_accepted, new_row, lookup, apply_write,
  apply_writes, isotime, write_item, transact_write_items,
}
use pl8_base.Dynamo.Documented.{IsDynamo}
use pl8_base.Dynamo.Available.{IsAvailable}
use pl8_base.Dynamo.Transaction.{is_distinct}
use pl8_base.Types.{Gzip}
use pl8_base.Manager.Retry.{retried, retry_on_transaction_conflict, retry_loop, is_conflict}
use pl8_base.Manager.Update.{UpdateArgs, update_request, build_update}

module _ (c : Client) where
  -- From a table that meets `P`, `m` returns a value that, with the table it leaves, meets `Q`.
  pub record Gives {A : Type 0} (P : Table → Type 0) (m : Exec c.State A) (Q : A → Table → Type 0)
      : Type 0 where
    pub gives : (s : c.State) → P (c.table s) → (a : A) × (((m s).0 ≡ ok a) × Q a (c.table (m s).1))

module _ (c : Client) {P : Table → Type 0} {A : Type 0} where
  pub Gives-pure :
      {Q : A → Table → Type 0} (a : A) → ((t : Table) → P t → Q a t) → Gives c P (pure a) Q
  unfolding pure
  Gives-pure a k = record { gives = λ s p. (a, (refl, k (c.table s) p)) }

  pub Gives-from :
      {P' : Table → Type 0} {Q : A → Table → Type 0} (m : Exec c.State A)
      → ((t : Table) → P' t → P t)
      → Gives c P m Q
      → Gives c P' m Q
  Gives-from m k g = record { gives = λ s p. g.gives s (k (c.table s) p) }

  pub Gives-lift : (r : Result A) (a : A) → r ≡ ok a → Gives c P (lift r) (λ b t. P t)
  unfolding lift
  Gives-lift r a e = record { gives = λ s p. (a, (e, p)) }

  pub Gives-retried :
      {Q : A → Table → Type 0} (func : Exec c.State A)
      → Gives c P func Q
      → Gives c P (retried c func) Q
  unfolding retried retry_on_transaction_conflict retry_loop
  Gives-retried func g = record {
    gives = λ s p.
        let (a, (got, q)) = g.gives s p in
        let calm : is_conflict (func s).0 ≡ false = ap is_conflict got in rw calm (a, (got, q));
  }

module _ (c : Client) {P : Table → Type 0} {A B : Type 0} where
  pub Gives-bind :
      {M : A → Table → Type 0} {Q : B → Table → Type 0} (m : Exec c.State A)
      (f : A → Exec c.State B)
      → Gives c P m M
      → ((a : A) → Gives c (M a) (f a) Q)
      → Gives c P (m >>= f) Q
  unfolding ◌>>=◌
  Gives-bind m f gm gf = record {
    gives = λ s p. let (a, (got, mid)) = gm.gives s p in rw got ((gf a).gives (m s).1 mid);
  }

module _ (c : Client) (z : Gzip) (d : IsDynamo c) {P : Table → Type 0} where
  pub Gives-isotime : Gives c P (isotime c) (λ now t. P t)
  unfolding isotime
  Gives-isotime = record {
    gives = λ s p. ((c.isotime s).0, (refl, subst P (sym (d.isotime_quiet s)) p));
  }

  pub Gives-bind-build_update :
      {B : Type 0} {Q : B → Table → Type 0} (args : UpdateArgs) (f : Write → Exec c.State B)
      → ((now : Text) → Gives c P (f (update_request now args)) Q)
      → Gives c P (build_update c z args >>= f) Q
  unfolding build_update isotime ◌>>=◌ pure
  Gives-bind-build_update args f k = record {
    gives = λ s p.
        let (now, s') = c.isotime s in (k now).gives s' (subst P (sym (d.isotime_quiet s)) p);
  }

module _ (c : Client) (a : IsAvailable c) {P : Table → Type 0} {B : Type 0}
    {Q : B → Table → Type 0} where
  pub Gives-bind-write_item :
      (w : Write) (f : Reply (Option Item) → Exec c.State B)
      → ((t : Table) → P t → is_accepted t w ≡ true)
      → ((t : Table)
          → P t
          → Gives c (λ u. u ≡ apply_write w t) (f (replied (new_row w.action (lookup w.key t)))) Q)
      → Gives c P (write_item c w >>= f) Q
  unfolding write_item ◌>>=◌
  Gives-bind-write_item w f accepted k = record {
    gives = λ s p.
        let (said, left) = a.writes w s (accepted (c.table s) p) in
        rw said ((k (c.table s) p).gives (c.write_item w s).1 left);
  }

  pub Gives-bind-transact :
      (ws : List Write) (f : Reply (Unit {0}) → Exec c.State B)
      → is_distinct ws ≡ true
      → ((t : Table) → P t → all (is_accepted t) ws ≡ true)
      → ((t : Table) → P t → Gives c (λ u. u ≡ apply_writes ws t) (f (replied tt)) Q)
      → Gives c P (transact_write_items c ws >>= f) Q
  unfolding transact_write_items ◌>>=◌
  Gives-bind-transact ws f apart accepted k = record {
    gives = λ s p.
        let (said, left) = a.transacts ws s apart (accepted (c.table s) p) in
        rw said ((k (c.table s) p).gives (c.transact_write_items ws s).1 left);
  }
