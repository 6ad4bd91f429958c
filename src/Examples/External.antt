-- ===== src/Examples/External.antt =====
-- External port configuration on a bridge with three ports.
use excelfore_gptp.Common.{
  ℕ, ◌≡◌, ◌≢◌, refl, arith, true, false, none, some, inl, ◌==◌, if◌then◌else◌,
}
use excelfore_gptp.Types.{slave_port, master_port, passive_port}
use excelfore_gptp.Machine.{done, out_of_fuel}
use excelfore_gptp.ExternalPort.Information
use excelfore_gptp.ExternalPort.Ignored.{IsUntouched, announcements_ignored}
use excelfore_gptp.ExternalPort.Tree.{
  State, initialize, state_setting, PortStateSettingExt, updt_port_state,
}
use excelfore_gptp.ExternalPort.States.{StateAfter, configured}
use excelfore_gptp.ExternalPort.Setting.{rounds, port_state_setting_ext_sm}
use excelfore_gptp.ExternalPort.Run.{
  served, port_state_served, disabled_never_returns, updt_port_state-leaves_none,
}
use excelfore_gptp.Examples.Data.{
  sample_system, sample_port, sample_bmcs_system, sample_bmcs_port, announce_of, vector_of,
  own_identity,
}

-- A machine at its creation, on a port that has a message.
abbrev informed : Information.PortAnnounceInformationExt
informed = record {
  ptasg = sample_system;
  ppg = sample_port 1;
  bptasg = record sample_bmcs_system { external_port_configuration = 1 };
  bppg = record (sample_bmcs_port 1) { rcvd_announce_ptr = some (announce_of 100 8) };
  state = Information.init;
  last_state = Information.init;
  rcvd_announce = false;
  message_priority = vector_of 255 own_identity 0;
}

ignored_example :
    (sm' : Information.PortAnnounceInformationExt) × (Information.port_announce_information_ext_sm
        informed
      ≡ done sm' none)
    × IsUntouched informed sm'
ignored_example = announcements_ignored informed (inl refl, refl)

-- Port 1 is the only slave port.
abbrev setting : State → ℕ → PortStateSettingExt
setting s wanted = record {
  ptasg = record sample_system {
    selected_state =
        λ i. if i == 1 then slave_port else if i == 0 then passive_port else master_port;
  };
  ppgl = sample_port;
  bptasg = record sample_bmcs_system { external_port_configuration = 1 };
  bppgl = sample_bmcs_port;
  state = s;
  last_state = s;
  disabled_ext = false;
  rcvd_port_state_ind = true;
  port_state_ind = wanted;
  mode_change = false;
  port_index = 1;
  max_ports = 3;
  message_priority = vector_of 100 own_identity 1;
}

served_example :
    (port_state_setting_ext_sm (setting initialize slave_port)
      ≡ done (served (setting initialize slave_port)) none)
    × ((j : ℕ)
        → StateAfter
            (setting initialize slave_port)
            slave_port
            j
            ((served (setting initialize slave_port)).ptasg.selected_state j))
served_example =
    port_state_served (setting initialize slave_port) (configured refl refl) refl refl refl
      (inl refl) refl refl

disabled_example :
    rounds 1000 (record (setting state_setting slave_port) { disabled_ext = true }) ≡ out_of_fuel
disabled_example =
    disabled_never_returns 1000 (record (setting state_setting slave_port) { disabled_ext = true })
      refl refl refl refl

others_hold : (j : ℕ) → j ≢ 1 → (setting initialize master_port).ptasg.selected_state j ≢ slave_port
others_hold j h e = ground (arith, h, e)

none_left_example :
    ((updt_port_state (setting initialize master_port)).ptasg.selected_state 1 ≡ master_port)
    × ((updt_port_state (setting initialize master_port)).ptasg.selected_state 0 ≡ passive_port)
    × ((j : ℕ)
        → (updt_port_state (setting initialize master_port)).ptasg.selected_state j ≢ slave_port)
none_left_example =
    updt_port_state-leaves_none (setting initialize master_port)
      (record { from_one = omega arith; is_port = omega arith; selected = refl }) others_hold
      (configured refl refl) (λ e. ground (arith, e))
