-- ===== src/StateSelection.antt =====
-- port_state_selection_sm.c.
pub mod Data
pub mod Tree
pub mod Machine
pub mod Best
pub mod Assign
pub mod Slaves
pub mod Result
pub mod Run
