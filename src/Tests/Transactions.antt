-- ===== src/Tests/Transactions.antt =====
-- A transaction whose database counts the statements.
use butane.Prelude.{ℕ, suc, some, [], ◌∷◌, ok, err, ◌≡◌, refl, inl}
use butane.Sqlite.Transaction.{
  RusqliteTransaction, SqliteTransaction, Call, already_consumed, execute, commit, rollback, call,
  calls, consumed, calls_finished,
}
use butane.Tests.Fixtures.{plain}

abbrev counting : RusqliteTransaction plain
counting = record {
  Handle = Unit {0};
  State = ℕ;
  execute = λ _ _ n. (suc n, ok tt);
  commit = λ _ n. (n, ok tt);
  rollback = λ _ _. (0, ok tt);
}

abbrev opened : SqliteTransaction plain counting
opened = record { trans = some tt }

calls_run :
    calls counting (Call.do_execute "DELETE" ∷ Call.do_commit ∷ Call.do_rollback ∷ []) opened 3
    ≡ (consumed counting, 4, ok tt ∷ ok tt ∷ err already_consumed ∷ [])
unfolding calls call execute commit rollback
calls_run = refl

calls_finished_example :
    calls counting
      (Call.do_rollback ∷ Call.do_execute "DELETE" ∷ [])
      (call counting opened Call.do_commit 3).0
      5
    ≡ (consumed counting, 5, err already_consumed ∷ err already_consumed ∷ [])
calls_finished_example =
    calls_finished counting opened Call.do_commit (Call.do_rollback ∷ Call.do_execute "DELETE" ∷ [])
      3 5 (inl refl)
