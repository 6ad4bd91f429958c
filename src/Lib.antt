-- ===== src/Lib.antt =====
-- Excelfore gPTP, an implementation of IEEE 802.1AS (time synchronisation over Ethernet) in C: the best
-- master clock algorithm, which chooses the grandmaster of a domain and the state of every port.
--
-- An Announce message reaches a port's PortAnnounceReceive machine, which qualifies it; its
-- PortAnnounceInformation machine compares it with what the port knows and asks for a selection; the
-- PortStateSelection machine of the system then chooses the grandmaster and gives each port its state.
-- A master port's PortAnnounceTransmit machine announces the choice to the neighbour.
-- The machines share the global variables of mind.h. Beside them stand the machines that qualify and
-- announce gPTP capability, those that act on signaling messages, and those that carry the time of a
-- Follow_Up message from a slave port over the site to the master ports. gptpman.c calls all of them;
-- the way of a Follow_Up message through it is modelled, its main loop is not.
--
-- Common              names passed on from the library; integers, words, lists
-- Machine             the loop that every *_sm.c file repeats; its rules
-- Types, Config       gptpbasetypes.h, the messages of mind.h, gptpcommon.h; configuration items
-- Arrays              indexed arrays, memcpy, loops over an index
-- Priority            gptpcommon.c: compare_priority_vectors, HAS_PORT_PRIORITY, eui48to64
-- Globals             mind.h, mind.c; MdEntity: mdeth.h, mdeth.c
-- AnnounceReceive     port_announce_receive_sm.c
-- AnnounceInformation port_announce_information_sm.c
-- Clock               gptpclock.c: the flags of a domain's synchronisation
-- StateSelection      port_state_selection_sm.c
-- AnnounceTransmit    port_announce_transmit_sm.c
-- AnnounceInterval    announce_interval_setting_sm.c
-- CapableReceive, CapableTransmit   gptp_capable_receive_sm.c, gptp_capable_transmit_sm.c
-- SyncInterval, LinkDelayInterval, OneStepTxOper   sync_interval_setting_sm.c,
--                     link_delay_interval_setting_sm.c, one_step_tx_oper_setting_sm.c
-- RequestedInterval   what a message interval request asks for, apart from the code
-- Settings            the machines of signaling messages together
-- PortSync            port_sync_sync_receive_sm.c, site_sync_sync_sm.c, port_sync_sync_send_sm.c;
--                     Forwarding: the calls of them in gptpman.c
-- ExternalPort        port_announce_information_ext_sm.c, port_state_setting_ext_sm.c
-- Wire                the message header of mdeth.c, md_announce_send_sm.c, md_announce_receive_sm.c
-- Signaling           md_signaling_send_sm.c, md_signaling_receive_sm.c
-- Flags               gptpcommon.h: bits of a byte
-- GmStable            gm_stable_sm.c
-- Examples            the theorems at concrete states
--
-- A C function f is a function by clauses of the same name in snake_case. The data of a machine
-- (sm->..., thisSM->... and the records it points to) are one record that a call takes and gives back.
-- X_proc and X_condition are functions on it; `switch` is the body of the loop, `round` one pass through
-- it, and `loop` the loop on fuel. The result of a call is `done` with the state and the pointer
-- returned, `fault` for a read through a null pointer or a write past an array, or `out_of_fuel`. The
-- fuel is 5 rounds for PortAnnounceReceive, 20 for PortAnnounceInformation, 12 for GmStable and 10 for
-- the others. A rank that falls in each round that goes on bounds the rounds; in PortAnnounceTransmit it
-- does so while the send time that the interval gives lies ahead. Where the number of rounds depends on
-- the state, as there and in ExternalPort.Setting, the fuel is an argument.
--
-- Numbers of w bits are natural numbers with the wrap-around written out, bytes in memory are lists,
-- and arrays are functions on the index. memcmp is a function on lists; the host's byte order, UB_SEC_NS,
-- the configuration items and the result of a shift that C leaves undefined are fields of Config. The
-- arithmetic on double values (DoubleOps), htons, ntohs, UB_HTONLL, rand, and whether the network takes
-- a message are parameters; that a conversion of byte order is undone by its inverse is a named
-- hypothesis.
--
-- Not modelled: allocation, release and logging; the members subns and nsec_msb of UScaledNs, which the
-- modelled code of the best master clock algorithm does not write; the sharing of forAllDomain among
-- domains, since the state is that of one domain; the double lastGmFreqChange, which is kept in parts per
-- billion; the message behind rcvdAnnouncePtr as a pointer, since the buffer is only written together
-- with the pointer; adjustments of clock hardware, which are listed and not carried out; the sending and
-- receiving of Sync, Follow_Up and Pdelay messages in the media-dependent layer, the machines
-- of clock master and clock slave, the main loop of gptpman.c, the network, the clock devices, the
-- inter-process interface and the tools.
pub mod Common
pub mod Machine
pub mod Types
pub mod Priority
pub mod Globals
pub mod Arrays
pub mod AnnounceReceive
pub mod Config
pub mod AnnounceInformation
pub mod Clock
pub mod PortSync
pub mod ExternalPort
pub mod Wire
pub mod GmStable
pub mod Flags
pub mod RequestedInterval
pub mod SyncInterval
pub mod LinkDelayInterval
pub mod OneStepTxOper
pub mod CapableTransmit
pub mod Settings
pub mod Signaling
pub mod StateSelection
pub mod Examples
pub mod AnnounceTransmit
pub mod AnnounceInterval
pub mod CapableReceive
