-- ===== src/Machine.antt =====
-- The loop that every state machine of the program runs, as in port_announce_receive_sm.c:
-- `while(true){ ...one round...; if(retp) return retp; if(sm->last_state == sm->state) break; }`.
-- A round is a function of the machine's record; it gives the new record and `retp`, or `none` where
-- the C code would read through a null pointer.
mod Laws
mod Run
pub use Laws.*
unfoldable pub use Run.{loop}
pub use Run.{Outcome, done, fault, out_of_fuel, Round, Returns}
