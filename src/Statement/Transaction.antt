-- ===== src/Statement/Transaction.antt =====
-- transaction.go: a transaction ends once.
use gosnowflake.Base.{
  ℕ, suc, ◌≡◌, refl, ◌≤◌, true, false, Bool, Option, none, some, List, [], ◌∷◌, arith, ap,
}
use gosnowflake.Base.Text.{Bytes}
use gosnowflake.Statement.{
  Tx, TxCommand, TxError, exec_tx_command, exec_tx_commands, after_exec, command_text,
}

-- The number of calls without an error.
abbrev pub successes : {A : Type 0} → List (Option A) → ℕ
successes [] = 0
successes (none ∷ es) = suc (successes es)
successes (some e ∷ es) = successes es

abbrev if_set : Bool → ℕ
if_set true = 1
if_set false = 0

module _ {World Error : Type 0} (exec : Bytes → World → Option Error × World) where
  -- A call that succeeds takes the connection away.
  abbrev TakesConn : Bool → Option (TxError Error) × Tx World → Type 0
  TakesConn had (none, tx) = (had ≡ true) × (tx.has_conn ≡ false)
  TakesConn had (some e, tx) = if_set tx.has_conn ≤ if_set had

  after_exec-TakesConn : (r : Option Error × World) → TakesConn true (after_exec exec r)
  unfolding after_exec
  after_exec-TakesConn (none, world) = (refl, refl)
  after_exec-TakesConn (some e, world) = omega arith

  exec_tx_command-TakesConn :
      (command : TxCommand) (had : Bool) (world : World)
      → TakesConn had (exec_tx_command exec command (record { has_conn = had; world = world }))
  unfolding exec_tx_command
  exec_tx_command-TakesConn command true world =
      after_exec-TakesConn (exec (command_text command) world)
  exec_tx_command-TakesConn command false world = omega arith

  successes-le :
      (commands : List TxCommand) (tx : Tx World)
      → successes (exec_tx_commands exec commands tx).0 ≤ if_set tx.has_conn
  unfolding exec_tx_commands
  successes-le [] tx = omega arith
  successes-le (command ∷ commands) tx =
      step (exec_tx_command exec command tx)
        (exec_tx_command-TakesConn command tx.has_conn tx.world)
        (successes-le commands (exec_tx_command exec command tx).1)
    where
      step :
          (r : Option (TxError Error) × Tx World)
          → TakesConn tx.has_conn r
          → successes (exec_tx_commands exec commands r.1).0 ≤ if_set r.1.has_conn
          → successes (r.0 ∷ (exec_tx_commands exec commands r.1).0) ≤ if_set tx.has_conn
      step (none, tx') (had, taken) ih = omega (arith, ih, ap if_set had, ap if_set taken)
      step (some e, tx') h ih = omega (arith, ih, h)

  -- Of any sequence of commits and rollbacks of a transaction at most one returns without an error.
  pub exec_tx_commands-once :
      (commands : List TxCommand) (tx : Tx World)
      → successes (exec_tx_commands exec commands tx).0 ≤ 1
  exec_tx_commands-once commands tx = omega (arith, successes-le commands tx, at_most tx.has_conn)
    where
      at_most : (b : Bool) → if_set b ≤ 1
      at_most true = omega arith
      at_most false = omega arith
