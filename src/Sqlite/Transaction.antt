-- ===== src/Sqlite/Transaction.antt =====
-- `SqliteTransaction` of butane_core/src/db/sqlite.rs: a transaction of rusqlite that the first commit
-- or rollback takes. Of the calls that are passed on to it, `execute` stands for all.
use butane.Prelude.{
  String, Option, none, some, List, [], ◌∷◌, Result, ok, err, ◌≡◌, refl, ap, ◌∙◌, ◌⊎◌, inl, inr,
}
use butane.Value.{Externals, Error, Fault}

-- A transaction of rusqlite, with the state of its database handed from call to call.
pub record RusqliteTransaction (X : Externals) : Type 1 where
  pub Handle : Type 0
  pub State : Type 0
  pub execute : Handle → String → State → State × Result (Fault X) (Unit {0})
  pub commit : Handle → State → State × Result (Fault X) (Unit {0})
  pub rollback : Handle → State → State × Result (Fault X) (Unit {0})

pub record SqliteTransaction (X : Externals) (R : RusqliteTransaction X) : Type 0 where
  pub trans : Option R.Handle

-- The calls of a transaction.
pub data Call : Type 0 where
  do_execute : String → Call
  do_commit do_rollback : Call

abbrev pub already_consumed : {X : Externals} → Fault X
already_consumed = Fault.raised (Error.internal "transaction has already been consumed")

module _ {X : Externals} (R : RusqliteTransaction X) where
  -- The transaction, the database, and how a call ended.
  abbrev pub Called : Type 0
  Called = SqliteTransaction X R × R.State × Result (Fault X) (Unit {0})

  -- What was passed on, with the transaction that is left.
  abbrev pub passed : Option R.Handle → R.State × Result (Fault X) (Unit {0}) → Called
  passed left out = (record { trans = left }, out.0, out.1)

  abbrev pub get : SqliteTransaction X R → Result (Fault X) R.Handle
  get t = elim t.trans [ none ↦ err already_consumed | some trans ↦ ok trans ]

  unfoldable pub execute : SqliteTransaction X R → String → R.State → Called
  execute t sql s = elim (get t) [
    | err e ↦ (t, s, err e)
    | ok trans ↦ passed t.trans (R.execute trans sql s)
  ]

  -- The transaction is taken, however the commit ends.
  unfoldable pub commit : SqliteTransaction X R → R.State → Called
  commit t s = elim t.trans [
    | none ↦ (t, s, err already_consumed)
    | some trans ↦ passed none (R.commit trans s)
  ]

  unfoldable pub rollback : SqliteTransaction X R → R.State → Called
  rollback t s = elim t.trans [
    | none ↦ (t, s, err already_consumed)
    | some trans ↦ passed none (R.rollback trans s)
  ]

  unfoldable pub call : SqliteTransaction X R → Call → R.State → Called
  call t (Call.do_execute sql) s = execute t sql s
  call t Call.do_commit s = commit t s
  call t Call.do_rollback s = rollback t s

  -- Calls one after the other, with how each ended.
  unfoldable pub calls :
      List Call
      → SqliteTransaction X R
      → R.State
      → SqliteTransaction X R × R.State × List (Result (Fault X) (Unit {0}))
  calls [] t s = (t, s, [])
  calls (c ∷ cs) t s =
      let now = call t c s in
      let later = calls cs now.0 now.1 in (later.0, later.1, now.2 ∷ later.2)

  -- Every call fails.
  abbrev pub all_consumed : List Call → List (Result (Fault X) (Unit {0}))
  all_consumed [] = []
  all_consumed (c ∷ cs) = err already_consumed ∷ all_consumed cs

  abbrev pub consumed : SqliteTransaction X R
  consumed = record { trans = none }

  call-consumed : (c : Call) (s : R.State) → call consumed c s ≡ (consumed, s, err already_consumed)
  unfolding call execute commit rollback
  call-consumed (Call.do_execute sql) s = refl
  call-consumed Call.do_commit s = refl
  call-consumed Call.do_rollback s = refl

  calls-consumed :
      (cs : List Call) (s : R.State) → calls cs consumed s ≡ (consumed, s, all_consumed cs)
  unfolding calls
  calls-consumed [] s = refl
  calls-consumed (c ∷ cs) s = rw (call-consumed c s, calls-consumed cs s) refl

  finished :
      (trans : Option R.Handle) (c : Call) (s : R.State)
      → (c ≡ Call.do_commit) ⊎ (c ≡ Call.do_rollback)
      → (call (record { trans = trans }) c s).0 ≡ consumed
  unfolding call commit rollback
  finished none (Call.do_execute sql) s (inl h) = absurd (cc)
  finished none (Call.do_execute sql) s (inr h) = absurd (cc)
  finished (some t) (Call.do_execute sql) s (inl h) = absurd (cc)
  finished (some t) (Call.do_execute sql) s (inr h) = absurd (cc)
  finished none Call.do_commit s h = refl
  finished (some t) Call.do_commit s h = refl
  finished none Call.do_rollback s h = refl
  finished (some t) Call.do_rollback s h = refl

  -- After a commit or a rollback, however it ended, whatever calls follow leave the database as it is, and
  -- each gives the error that the transaction is consumed.
  pub calls_finished :
      (t : SqliteTransaction X R) (c : Call) (cs : List Call) (s later : R.State)
      → (c ≡ Call.do_commit) ⊎ (c ≡ Call.do_rollback)
      → calls cs (call t c s).0 later ≡ (consumed, later, all_consumed cs)
  calls_finished t c cs s later h =
      ap (λ u. calls cs u later) (finished t.trans c s h) ∙ calls-consumed cs later
