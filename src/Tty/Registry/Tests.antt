-- ===== src/Tty/Registry/Tests.antt =====
-- The theorems on the device list of nttty/tty.c at a list of two terminals.
use free_nt.Base.{
  ◌≡◌, ◌⊎◌, refl, true, false, none, some, [], ◌∷◌, arith, status_success, ◌==◌, if◌then◌else◌,
}
use free_nt.Tty.Types.{Device, zero_device}
use free_nt.Tty.Registry.{Ptr, Store, Subsystem, Kernel, create_device, close_device, shutdown}
use free_nt.Tty.Registry.Chain.{Chain, has, SameOutside}
use free_nt.Tty.Registry.Close.{Closed, close_device-Closed}
use free_nt.Tty.Registry.Create.{Grants, Allowed, Created, Refused, create_device-Created}
use free_nt.Tty.Registry.Ids.{SharedId, id_taken_twice}
use free_nt.Tty.Registry.Shutdown.{AllSole, shutdown-Emptied}

-- The older terminal, 0 at address 8, behind the newer one, 1 at address 16.
abbrev older : Device
older = record zero_device { ref_count = 1; input_ready_event = 40 }

abbrev newer : Device
newer = record zero_device { id = 1; ref_count = 1; next = 8 }

abbrev memory : Store
memory a = if a == 16 then some newer else if a == 8 then some older else none

abbrev system : Subsystem
system = record {
  heap_handle = 4;
  device_count = 2;
  device_list = 16;
  list_lock = 5;
  initialized = true;
  store = memory;
  closed = [];
}

abbrev grants : Kernel
grants = record {
  input_mutant = (0, 51);
  output_mutant = (0, 52);
  control_mutant = 53;
  input_event = (0, 54);
  output_event = (0, 55);
}

grants-Grants : Grants grants
grants-Grants = omega arith

system-Chain : Chain memory 16 (16 ∷ 8 ∷ [])
system-Chain = (refl, omega arith, (8, refl, (refl, omega arith, (0, refl, refl))))

close_device-Closed_example : Closed system 8 older (16 ∷ 8 ∷ []) (close_device 3 system 8)
close_device-Closed_example =
    close_device-Closed 3 system 8 older (16 ∷ 8 ∷ []) system-Chain (refl, (refl, tt)) refl
      (omega arith) refl refl (omega arith)

create_device-Created_example :
    (Allowed system true 24 grants
      × Created system none 24 7 grants (16 ∷ 8 ∷ []) (create_device system none 7 true 24 grants))
    ⊎ ((Allowed system true 24 grants → ⊥)
        × Refused system (create_device system none 7 true 24 grants))
create_device-Created_example =
    create_device-Created system none 7 true 24 grants (16 ∷ 8 ∷ []) system-Chain refl

id_taken_twice_example :
    SharedId none 7 24 32 grants 2 (close_device 4 (create_device system none 7 true 24 grants).1 8)
id_taken_twice_example =
    id_taken_twice 4 system 8 24 32 older (16 ∷ 8 ∷ []) none none 7 7 grants grants system-Chain
      (refl, (refl, tt)) refl (omega arith) refl refl refl (omega arith) (omega arith) refl
      grants-Grants (omega arith) refl (omega arith) grants-Grants (omega arith)

system-AllSole : AllSole memory (16 ∷ 8 ∷ [])
system-AllSole a m = ground arith

shutdown-Emptied_example :
    (g' : Subsystem) × (shutdown 3 system ≡ some (status_success, g'))
    × (g'.device_list ≡ 0)
    × ((a : Ptr) → has a (16 ∷ 8 ∷ []) ≡ true → g'.store a ≡ none)
    × SameOutside (16 ∷ 8 ∷ []) memory g'.store
    × (g'.initialized ≡ false)
shutdown-Emptied_example =
    shutdown-Emptied 3 system (16 ∷ 8 ∷ []) system-Chain (refl, (refl, tt)) system-AllSole refl
      (omega arith)
