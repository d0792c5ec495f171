-- ===== src/Mining/Nonces.antt =====
-- Mining (mining.c) changes neither the model of the ledger nor any nonce.
use transaction_models_minin.Common.Text.{Text}
use transaction_models_minin.Attendance.{Ledger}
use transaction_models_minin.Ledger.Nonces.{
  Keeps, Keeps-refl, Keeps-trans, ledger_apply_confirmed_block-Keeps, ledger_credit_miner-Keeps,
}
use transaction_models_minin.Mining.{MiningState}
use transaction_models_minin.Mining.Steps.{
  Step, take_front, put_block, book_reward, pay, Steps, Steps-preserve,
}

Step-Keeps :
    (k : Text) (ledger : Ledger) (st st' : MiningState)
    → Step st st'
    → Keeps k ledger st.ledger
    → Keeps k ledger st'.ledger
Step-Keeps k ledger _ _ (take_front st) h = h
Step-Keeps k ledger _ _ (put_block e b st) h = h
Step-Keeps k ledger _ _ (book_reward e b tx st) h =
    Keeps-trans k ledger st.ledger _ h (ledger_apply_confirmed_block-Keeps e k st.ledger b tx)
Step-Keeps k ledger _ _ (pay e id amount st) h =
    Keeps-trans k ledger st.ledger _ h (ledger_credit_miner-Keeps e k st.ledger id amount)

pub Steps-Keeps : (k : Text) (st st' : MiningState) → Steps st st' → Keeps k st.ledger st'.ledger
Steps-Keeps k st st' steps =
    Steps-preserve (λ (m : MiningState). Keeps k st.ledger m.ledger) (Step-Keeps k st.ledger) st st'
      steps (Keeps-refl k st.ledger)
