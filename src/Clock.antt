-- ===== src/Clock.antt =====
-- gptpclock.c: the part of the clock data that tells whether a domain's clock is synchronised to its
-- grandmaster. One value stands for the master clock (clockIndex 0) of one domain, with the domain's
-- entry of gcd.pdd. Adjustments of the hardware and switches of the active domain are listed, not carried
-- out.
use excelfore_gptp.Common.{
  ℕ, ℤ, ◌+◌, Bool, true, false, not, ◌&&◌, ◌||◌, List, ◌∷◌, ◌==◌, if◌then◌else◌, is_nonzero, u32,
  ◌≡◌, arith,
}
use excelfore_gptp.Types.{ClockIdentity}
use excelfore_gptp.Config.{Config}

pub data Adjustment : Type 0 where
  adjust_gm_btw_domains reset_adj update_active_domain : Adjustment

pub record MasterClock : Type 0 where
  -- GPTPCLOCK_FN_ENTRY succeeds: the clock exists and its device is open.
  pub is_open : Bool
  pub gmsync : Bool
  pub we_are_gm : Bool
  pub gm_clock_id : ClockIdentity
  pub gm_stable : Bool
  pub gmchange_ind : ℕ  -- uint32_t
  -- GPTPIPC_EVENT_CLOCK_FLAG_GM_SYNCED, _GM_UNSYNCED, _GM_CHANGE
  pub gm_synced_flag : Bool
  pub gm_unsynced_flag : Bool
  pub gm_change_flag : Bool
  pub this_clock_adjppb : ℤ
  pub adjustments : List Adjustment

abbrev note_if : Bool → Adjustment → List Adjustment → List Adjustment
note_if true a l = a ∷ l
note_if false a l = l

-- gptpclock_set_gmsync(0, domainNumber, gmIdentity, true)
unfoldable pub set_gmsync : Config → ℕ → ClockIdentity → MasterClock → MasterClock
set_gmsync c domain_number id k = if not k.is_open then k else if k.gmsync then k else record k {
  we_are_gm = true;
  gm_clock_id = id;
  gm_synced_flag = true;
  gmsync = true;
  adjustments =
      note_if (is_nonzero c.reset_freqadj_becomegm) Adjustment.reset_adj
        (note_if (not (domain_number == 0)) Adjustment.adjust_gm_btw_domains k.adjustments);
}

-- gptpclock_reset_gmsync(0, domainNumber)
unfoldable pub reset_gmsync : MasterClock → MasterClock
reset_gmsync k =
    if not k.is_open
    then k
    else if not k.gmsync
    then k
    else record k { gm_unsynced_flag = true; gmsync = false }

-- `gptpclock_get_gmsync(0, domainNumber) == 1`
abbrev pub get_gmsync : MasterClock → Bool
get_gmsync k = k.is_open && k.gmsync

-- gptpclock_set_gmchange
unfoldable pub set_gmchange : ClockIdentity → MasterClock → MasterClock
set_gmchange id k = if not k.is_open then k else record k {
  gm_change_flag = true;
  gmchange_ind = u32 (k.gmchange_ind + 1);
  gm_clock_id = id;
}

-- gptpclock_set_gmstable, for the index of an entry of gcd.pdd
unfoldable pub set_gmstable : Bool → MasterClock → MasterClock
set_gmstable stable k =
    if stable && k.gm_stable || not stable && not k.gm_stable then k else record k {
      gm_stable = stable;
      adjustments = Adjustment.update_active_domain ∷ k.adjustments;
    }

-- The clock says that this system is the synchronised grandmaster only if it is synchronised.
pub set_gmsync-gmsync :
    (c : Config) (n : ℕ) (id : ClockIdentity) (k : MasterClock)
    → k.is_open ≡ true
    → (set_gmsync c n id k).gmsync ≡ true
unfolding set_gmsync
set_gmsync-gmsync c n id k h = ground arith

pub set_gmstable-gm_stable : (b : Bool) (k : MasterClock) → (set_gmstable b k).gm_stable ≡ b
unfolding set_gmstable
set_gmstable-gm_stable b k = ground arith
