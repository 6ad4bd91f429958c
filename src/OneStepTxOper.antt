-- ===== src/OneStepTxOper.antt =====
-- one_step_tx_oper_setting_sm.c.
pub mod Machine
pub mod Run
