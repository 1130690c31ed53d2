-- ===== src/Tty/Registry.antt =====
-- The device list of nttty/tty.c: a chain of devices in memory that the subsystem's head leads to.
-- Devices live at addresses, 0 is NULL, and a read of an address that holds no device is a fault.
pub mod Chain
pub mod Close
pub mod Create
pub mod Ids
pub mod Shutdown
mod Tests
use free_nt.Base.{
  ℕ, zero, suc, ◌+◌, ◌-◌, ◌%◌, ◌^◌, Bool, true, false, ◌||◌, Option, none, some, List, [], ◌∷◌, ltb,
  leb, ◌==◌, if◌then◌else◌, update, u32, NtStatus, nt_success, status_success, status_unsuccessful,
  status_invalid_parameter, status_not_initialized, status_no_memory,
}
use free_nt.Tty.Ring.{Ring}
use free_nt.Tty.Types.{Device, cooked_disc, zero_device, zero_ring, init_termios, init_winsize}

abbrev pub Ptr : Type 0
Ptr = ℕ

abbrev pub Store : Type 0
Store = Ptr → Option Device

-- NTTY_SUBSYSTEM, with the memory that holds the devices and the handles that were closed, newest
-- first.
pub record Subsystem : Type 0 where
  pub heap_handle : ℕ
  pub device_count : ℕ
  pub device_list : Ptr
  pub list_lock : ℕ
  pub initialized : Bool
  pub store : Store
  pub closed : List ℕ

-- What the kernel answers to the calls of `NttyCreateDevice`: the status, and the handle it stores.
pub record Kernel : Type 0 where
  pub input_mutant : NtStatus × ℕ
  pub output_mutant : NtStatus × ℕ
  pub control_mutant : ℕ
  pub input_event : NtStatus × ℕ
  pub output_event : NtStatus × ℕ

-- `NttyInitialize`, at what `GetProcessHeap` and `NtCreateMutant` give.
unfoldable pub initialize : (heap mutant : ℕ) → Subsystem → NtStatus × Subsystem
initialize heap mutant g =
    if g.initialized
    then (status_success, g)
    else if heap == 0
    then (status_unsuccessful, record g { heap_handle = heap })
    else (
      status_success,
      record g {
        heap_handle = heap;
        device_count = 0;
        device_list = 0;
        list_lock = mutant;
        initialized = true;
      },
    )

-- The copy of the name, which stops at its end or at the 32nd character; the list is the name less
-- its terminator.
unfoldable pub copy_name : List ℕ → ℕ → (ℕ → ℕ) → ℕ → ℕ
copy_name [] i out = update out i 0
copy_name (c ∷ cs) i out =
    let rest = copy_name cs (i + 1) (update out i c) in
    if ltb (i + 1) 32 then rest else update out i 0

abbrev pub name_of : Option (List ℕ) → ℕ → ℕ
name_of none = zero_device.device_name
name_of (some name) = copy_name name 0 zero_device.device_name

-- `NttyInitInputBuffer` and `NttyInitOutputBuffer`
unfoldable pub init_buffer : NtStatus × ℕ → NtStatus × Ring
init_buffer (s, mutant) = (s, record zero_ring { lock = mutant })

-- The device as `NttyCreateDevice` fills it in, before it is linked.
unfoldable pub new_device : ℕ → Option (List ℕ) → ℕ → Kernel → Device
unfolding init_buffer init_termios init_winsize
new_device id name type k = record zero_device {
  id = id;
  type = type;
  ref_count = 1;
  device_name = name_of name;
  termios = init_termios;
  winsize = init_winsize;
  input_buf = (init_buffer k.input_mutant).1;
  output_buf = (init_buffer k.output_mutant).1;
  line_disc = some cooked_disc;
  control_lock = k.control_mutant;
  input_ready_event = k.input_event.1;
  output_ready_event = k.output_event.1;
}

-- `NttyCreateDevice`, at the address that the heap gives (0 where it has no memory). A failure after
-- the allocation frees the record again, so that only the count has changed.
unfoldable pub create_device :
    Subsystem
    → Option (List ℕ)
    → ℕ
    → (has_out : Bool) → (fresh : Ptr) → Kernel
    → NtStatus × Subsystem × Option Ptr
create_device g name type false fresh k = (status_invalid_parameter, g, none)
create_device g name type true fresh k =
    if g.initialized
    then (if fresh == 0
        then (status_no_memory, g, none)
        else (let counted : Subsystem = record g { device_count = u32 (g.device_count + 1) } in
            let d = new_device g.device_count name type k in
            if nt_success k.input_mutant.0
            then (if nt_success k.output_mutant.0
                then (if nt_success k.input_event.0
                    then (if nt_success k.output_event.0
                        then (
                          status_success,
                          record counted {
                            store = update g.store fresh (some (record d { next = g.device_list }));
                            device_list = fresh;
                          },
                          some fresh,
                        )
                        else (k.output_event.0, counted, none))
                    else (k.input_event.0, counted, none))
                else (k.output_mutant.0, counted, none))
            else (k.input_mutant.0, counted, none)))
    else (status_not_initialized, g, none)

-- `NtClose` on a handle if there is one.
abbrev pub close_handle : ℕ → List ℕ → List ℕ
close_handle h closed = if h == 0 then closed else h ∷ closed

abbrev pub close_handles : Device → List ℕ → List ℕ
close_handles d closed = close_handle d.output_buf.lock (
    close_handle d.input_buf.lock (
      close_handle d.control_lock (
        close_handle d.output_ready_event
          (close_handle d.input_ready_event (close_handle d.device_handle closed)))))

-- What `link` points at: the head of the list, or the `next` field of a device.
pub data Link : Type 0 where
  head_link : Link
  next_link : Ptr → Link

-- `*link`, and `*link = q`; `none` is a fault.
unfoldable pub follow : Subsystem → Link → Option Ptr
follow g head_link = some g.device_list
follow g (next_link p) = elim (g.store p) [ none ↦ none | some d ↦ some d.next ]

unfoldable pub relink : Subsystem → Link → Ptr → Option Subsystem
relink g head_link q = some (record g { device_list = q })
relink g (next_link p) q = elim (g.store p) [
  | none ↦ none
  | some d ↦ some (record g { store = update g.store p (some (record d { next = q })) })
]

-- The loop of `NttyCloseDevice` that takes `p`, whose successor is `next`, out of the list; `none` is a
-- fault, or fuel that ran out.
unfoldable pub unlink : ℕ → Subsystem → Link → (p next : Ptr) → Option Subsystem
unfolding follow relink
unlink zero g link p next = none
unlink (suc fuel) g link p next = elim (follow g link) [
  | none ↦ none
  | some q ↦ elim (q == 0) [
    | true ↦ some g
    | false ↦ elim (q == p) [
      | true ↦ relink g link next
      | false ↦ unlink fuel g (next_link q) p next
    ]
  ]
]

-- `ref_count <= 0`, the word read as a signed one.
abbrev pub not_positive : ℕ → Bool
not_positive r = r == 0 || leb (2 ^ 31) r

-- The last reference is gone: unlink, count down, close the handles, free.
unfoldable pub destroy : ℕ → Subsystem → Ptr → Device → Option Subsystem
unfolding unlink
destroy fuel g p d = elim (unlink fuel g head_link p d.next) [
  | none ↦ none
  | some g' ↦ some (record g' {
    device_count = if g'.device_count == 0 then 0 else g'.device_count - 1;
    store = update g'.store p none;
    closed = close_handles d g'.closed;
  })
]

-- `NttyCloseDevice`, with fuel for the walk along the list.
unfoldable pub close_device : ℕ → Subsystem → Ptr → Option (NtStatus × Subsystem)
unfolding destroy
close_device fuel g p = if p == 0 then some (status_invalid_parameter, g) else elim (g.store p) [
  | none ↦ none
  | some d ↦
      let d' : Device = record d { ref_count = u32 (d.ref_count + 2 ^ 32 - 1) } in
      let g' : Subsystem = record g { store = update g.store p (some d') } in
      elim (not_positive d'.ref_count) [
        | false ↦ some (status_success, g')
        | true ↦ elim (destroy fuel g' p d') [ none ↦ none | some g'' ↦ some (status_success, g'') ]
      ]
]

-- The loop of `NttyShutdown`; `fuel` bounds the walks along the list, `rounds` the devices.
unfoldable pub shutdown_loop : ℕ → ℕ → Subsystem → Ptr → Option Subsystem
shutdown_loop fuel zero g p = none
shutdown_loop fuel (suc rounds) g p = elim (p == 0) [
  | true ↦ some g
  | false ↦ elim (g.store p) [
    | none ↦ none
    | some d ↦ elim (close_device fuel g p) [
      | none ↦ none
      | some (s, g') ↦ shutdown_loop fuel rounds g' d.next
    ]
  ]
]

-- `NttyShutdown`
unfoldable pub shutdown : ℕ → Subsystem → Option (NtStatus × Subsystem)
shutdown fuel g =
    if g.initialized
    then elim (shutdown_loop fuel fuel g g.device_list) [
      | none ↦ none
      | some g' ↦ some (status_success, record g' { initialized = false })
    ]
    else some (status_success, g)
