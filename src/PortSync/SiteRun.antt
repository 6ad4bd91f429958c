-- ===== src/PortSync/SiteRun.antt =====
-- site_sync_sync_sm_portSyncSync: what becomes of the synchronisation that the slave port hands on.
use excelfore_gptp.Common.{ℕ, ◌≡◌, ◌≢◌, refl, ◌∙◌, true, false, arith, ◌⊎◌, inl, inr, none, some}
use excelfore_gptp.Config.{Config}
use excelfore_gptp.Machine.{done, loop, loop-next, loop-stop}
use excelfore_gptp.PortSync.Data.{PortSyncSync}
use excelfore_gptp.PortSync.Site.{
  initializing, receiving_sync, reaction, SiteSyncSync, is_accepted, replaces, allstate_condition,
  initializing_condition, receiving_sync_proc, pass_on, check_timeout, receiving_sync_condition,
  round, settled, fuel, site_sync_sync_sm, site_port_sync_sync,
}

module _ {D : Type 0} (c : Config) (cts64 : ℕ) (p : PortSyncSync D) where
  -- The machine is about to enter RECEIVING_SYNC with the message.
  abbrev Enters : SiteSyncSync D → Type 0
  Enters x =
      (x.state ≡ receiving_sync) × (x.last_state ≢ receiving_sync) × (x.rcvd_pssync_ptr ≡ some p)

  -- What the machine holds after it has passed on the message.
  pub record HasPassed (sm x : SiteSyncSync D) : Type 0 where
    pub waits : x.rcvd_pssync ≡ false
    pub kept : x.port_sync_sync ≡ some p
    pub sent : x.tx_pssync_ptr_sss ≡ some p
    pub state : x.state ≡ receiving_sync
    pub last_state : x.last_state ≡ receiving_sync
    pub system : x.ptasg ≡ record (sm.ptasg) { parent_log_sync_interval = p.log_message_interval }

  -- The instance is enabled.
  pub record IsUp (sm : SiteSyncSync D) : Type 0 where
    pub begin : sm.ptasg.begin ≡ false
    pub instance_enable : sm.ptasg.instance_enable ≡ true

  abbrev told : SiteSyncSync D → SiteSyncSync D
  told sm = record sm { rcvd_pssync = true; rcvd_pssync_ptr = some p }

  -- The machine that waits for a first message goes on to RECEIVING_SYNC.
  abbrev wakes : SiteSyncSync D → SiteSyncSync D
  wakes sm = record (told sm) { state = receiving_sync; last_state = initializing }

  wakes_up :
      (sm : SiteSyncSync D)
      → is_accepted c sm p ≡ true
      → sm.last_state ≡ sm.state
      → sm.state ≡ initializing
      → round c cts64 (told sm) ≡ some (wakes sm, none)
  unfolding round initializing_condition
  wakes_up sm a r e = ground (arith, a, r, e)

  -- The machine that has passed on a message enters RECEIVING_SYNC anew.
  abbrev again : SiteSyncSync D → SiteSyncSync D
  again sm = record (check_timeout c cts64 (record (told sm) { last_state = reaction })) {
    state = receiving_sync;
  }

  enters_again :
      (sm : SiteSyncSync D) (tx : PortSyncSync D)
      → is_accepted c sm p ≡ true
      → replaces sm p ≡ false
      → sm.last_state ≡ sm.state
      → sm.state ≡ receiving_sync
      → sm.tx_pssync_ptr_sss ≡ some tx
      → round c cts64 (told sm) ≡ some (again sm, none)
  unfolding round receiving_sync_condition check_timeout
  enters_again sm tx a n r e t = ground (arith, a, n, r, e, t)

  again-Enters : (sm : SiteSyncSync D) → Enters (again sm)
  unfolding check_timeout
  again-Enters sm = (refl, ground arith, ground arith)

  again_keeps : (sm : SiteSyncSync D) → (again sm).ptasg ≡ sm.ptasg
  unfolding check_timeout
  again_keeps sm = ground arith

  again-settled : (sm : SiteSyncSync D) → settled (again sm) ≡ false
  unfolding check_timeout
  again-settled sm = ground arith

  abbrev passed : SiteSyncSync D → SiteSyncSync D
  passed x = record (check_timeout c cts64 (record (pass_on p x) { last_state = receiving_sync })) {
    state = receiving_sync;
  }

  passes : (x : SiteSyncSync D) → Enters x → round c cts64 x ≡ some (passed x, some p)
  unfolding round receiving_sync_proc receiving_sync_condition check_timeout pass_on
  passes x (s, l, q) = ground (arith, s, l, q)

  passed-HasPassed : (sm x : SiteSyncSync D) → x.ptasg ≡ sm.ptasg → HasPassed sm (passed x)
  unfolding check_timeout pass_on
  passed-HasPassed sm x e = record {
    waits = ground arith;
    kept = ground arith;
    sent = ground arith;
    state = refl;
    last_state = ground arith;
    system = ground (arith, e);
  }

  -- The machine rests and is ready for a message: in INITIALIZING, or in RECEIVING_SYNC with the message
  -- that it passed on before.
  abbrev pub IsReady : SiteSyncSync D → Type 0
  IsReady sm =
      (sm.state ≡ initializing)
      ⊎ ((sm.state ≡ receiving_sync) × ((tx : PortSyncSync D) × (sm.tx_pssync_ptr_sss ≡ some tx)))

  starts :
      (sm : SiteSyncSync D)
      → IsUp sm
      → site_port_sync_sync c cts64 p sm ≡ loop settled (round c cts64) fuel (told sm)
  unfolding site_port_sync_sync site_sync_sync_sm allstate_condition
  starts sm u = ground (arith, u.begin, u.instance_enable)

  two_rounds :
      (sm x : SiteSyncSync D)
      → IsUp sm
      → round c cts64 (told sm) ≡ some (x, none)
      → settled x ≡ false
      → Enters x
      → site_port_sync_sync c cts64 p sm ≡ done (passed x) (some p)
  two_rounds sm x u e g h =
      starts sm u
      ∙ loop-next settled (round c cts64) 9 (told sm) x none e g
      ∙ loop-stop settled (round c cts64) 8 x (passed x) (some p) (passes x h) refl

  -- In an enabled instance a machine that rests, ready for a message, passes on a message that comes
  -- from the slave port, or from the port of the test configuration, in its call, if the message lives
  -- longer than the one before was due. It then holds the message and takes over its interval.
  pub site-passes_on :
      (sm : SiteSyncSync D)
      → IsUp sm
      → is_accepted c sm p ≡ true
      → replaces sm p ≡ false
      → sm.last_state ≡ sm.state
      → IsReady sm
      → (y : SiteSyncSync D) × (site_port_sync_sync c cts64 p sm ≡ done y (some p)) × HasPassed sm y
  site-passes_on sm u a n r (inl e) = (
    passed (wakes sm),
    two_rounds sm (wakes sm) u (wakes_up sm a r e) refl (refl, λ q. ground (arith, q), refl),
    passed-HasPassed sm (wakes sm) refl,
  )
  site-passes_on sm u a n r (inr (e, (tx, t))) = (
    passed (again sm),
    two_rounds sm (again sm) u (enters_again sm tx a n r e t) (again-settled sm) (again-Enters sm),
    passed-HasPassed sm (again sm) (again_keeps sm),
  )
