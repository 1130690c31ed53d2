-- ===== src/Tty/Registry/Create.antt =====
-- `NttyCreateDevice` of nttty/tty.c, and what it does to the identifiers of devices.
use free_nt.Base.{
  ℕ, zero, suc, ◌+◌, ◌^◌, ◌<◌, ◌≤◌, ltb, get_or, if◌then◌else◌, Bool-cases, inl, inr, ℕ_discrete,
  ◌∙◌, ◌≡◌, ◌≢◌, refl, ap, Bool, true, false, ◌⊎◌, Option, none, some, List, [], ◌∷◌, arith, update,
  update_self, update_ne, u32, NtStatus, status_success,
}
use free_nt.Tty.Types.{Device, cooked_disc, init_termios, init_winsize, zero_device, zero_ring}
use free_nt.Tty.Io.{DeviceIsValid}
use free_nt.Tty.Registry.{
  Ptr, Subsystem, Kernel, init_buffer, copy_name, name_of, new_device, create_device,
}
use free_nt.Tty.Registry.Chain.{next_field, Chain, Chain-update, has, SameOutside}

-- Every call that a creation checks succeeds.
pub record Grants (k : Kernel) : Type 0 where
  pub input_mutant : k.input_mutant.0 < 2 ^ 31
  pub output_mutant : k.output_mutant.0 < 2 ^ 31
  pub input_event : k.input_event.0 < 2 ^ 31
  pub output_event : k.output_event.0 < 2 ^ 31

-- The first 31 characters of a name, and zeros behind them.
abbrev pub name_char : Option (List ℕ) → ℕ → ℕ
name_char none i = 0
name_char (some cs) i = if ltb i 31 then get_or cs i 0 else 0

-- What a successful creation leaves: the whole device, and the list around it.
pub record Created (g : Subsystem) (name : Option (List ℕ)) (fresh : Ptr) (type : ℕ) (k : Kernel)
    (ps : List Ptr) (out : NtStatus × Subsystem × Option Ptr) : Type 0 where
  pub status : out.0 ≡ status_success
  pub given : out.2 ≡ some fresh
  pub device : Device
  pub held : out.1.store fresh ≡ some device
  pub fields : device ≡ record zero_device {
    id = g.device_count;
    type = type;
    ref_count = 1;
    device_name = device.device_name;
    termios = init_termios;
    winsize = record { ws_row = 25; ws_col = 80; ws_xpixel = 640; ws_ypixel = 400 };
    input_buf = record zero_ring { lock = k.input_mutant.1 };
    output_buf = record zero_ring { lock = k.output_mutant.1 };
    line_disc = some cooked_disc;
    control_lock = k.control_mutant;
    input_ready_event = k.input_event.1;
    output_ready_event = k.output_event.1;
    next = g.device_list;
  }
  pub named : (i : ℕ) → device.device_name i ≡ name_char name i
  pub valid : DeviceIsValid device
  pub chain : Chain out.1.store out.1.device_list (fresh ∷ ps)
  pub same : SameOutside (fresh ∷ []) g.store out.1.store
  pub count : out.1.device_count ≡ u32 (g.device_count + 1)
  pub initialized : out.1.initialized ≡ g.initialized

-- What a creation that fails leaves.
pub record Refused (g : Subsystem) (out : NtStatus × Subsystem × Option Ptr) : Type 0 where
  pub status : out.0 ≢ status_success
  pub given : out.2 ≡ none
  pub store : out.1.store ≡ g.store
  pub device_list : out.1.device_list ≡ g.device_list
  pub closed : out.1.closed ≡ g.closed
  pub count :
      (out.1.device_count ≡ g.device_count) ⊎ (out.1.device_count ≡ u32 (g.device_count + 1))

-- The cases in which a creation succeeds.
pub record Allowed (g : Subsystem) (has_out : Bool) (fresh : Ptr) (k : Kernel) : Type 0 where
  pub wanted : has_out ≡ true
  pub on : g.initialized ≡ true
  pub memory : fresh ≢ 0
  pub granted : Grants k

copy_name-behind :
    (cs : List ℕ) (i : ℕ) (out : ℕ → ℕ) (j : ℕ) → j < i → copy_name cs i out j ≡ out j
unfolding copy_name
copy_name-behind [] i out j l = ground arith
copy_name-behind (c ∷ cs) i out j l =
    let rest = copy_name-behind cs (i + 1) (update out i c) j (omega arith) in ground arith

copy_name-char :
    (cs : List ℕ) (i : ℕ) (out : ℕ → ℕ) (j : ℕ)
    → i ≤ 31
    → ((n : ℕ) → i ≤ n → out n ≡ 0)
    → copy_name cs i out (i + j) ≡ (if ltb (i + j) 31 then get_or cs j 0 else 0)
unfolding copy_name
copy_name-char [] i out j few blank = (let here = blank (i + j) (omega arith) in ground arith)
copy_name-char (c ∷ cs) i out zero few blank =
    let at : i + 0 ≡ i = omega arith in
    elim (Bool-cases (ltb (i + 1) 32)) [
      | inl room ↦
          let low : ltb i 31 ≡ true = ground arith in
          rw (at, copy_name, room, low)
            (copy_name-behind cs (i + 1) (update out i c) i (omega arith) ∙ update_self out i c)
      | inr full ↦
          let high : ltb i 31 ≡ false = ground arith in
          rw (at, copy_name, full, high) (update_self out i 0)
    ]
copy_name-char (c ∷ cs) i out (suc j) few blank =
    let at : i + suc j ≡ i + 1 + j = omega arith in
    let here = blank (i + 1 + j) (omega arith) in
    elim (Bool-cases (ltb (i + 1) 32)) [
      | inl room ↦
          let blank' : (n : ℕ) → i + 1 ≤ n → update out i c n ≡ 0 =
            λ n l. (let zeros_there = blank n (omega arith) in ground arith) in
          let rest = copy_name-char cs (i + 1) (update out i c) j (ground arith) blank' in
          rw (at, copy_name, room) rest
      | inr full ↦ rw (at, copy_name, full) (ground arith)
    ]

create_device_granted :
    (g : Subsystem) (name : Option (List ℕ)) (type : ℕ) (fresh : Ptr) (k : Kernel)
    → g.initialized ≡ true
    → fresh ≢ 0
    → Grants k
    → create_device g name type true fresh k ≡ (
      status_success,
      record g {
        device_count = u32 (g.device_count + 1);
        store =
            update g.store fresh
              (some (record (new_device g.device_count name type k) { next = g.device_list }));
        device_list = fresh;
      },
      some fresh,
    )
unfolding create_device
create_device_granted g name type fresh k on ne ok = ground arith

name_of-name_char : (name : Option (List ℕ)) (i : ℕ) → name_of name i ≡ name_char name i
name_of-name_char none i = refl
name_of-name_char (some cs) i =
    let start : 0 + i ≡ i = omega arith in
    rw start at (copy_name-char cs 0 zero_device.device_name i (omega arith) (λ n l. refl))

pub create_device_granted-Created :
    (g : Subsystem) (name : Option (List ℕ)) (type : ℕ) (fresh : Ptr) (k : Kernel) (ps : List Ptr)
    → Chain g.store g.device_list ps
    → g.initialized ≡ true
    → fresh ≢ 0
    → has fresh ps ≡ false
    → Grants k
    → Created g name fresh type k ps (create_device g name type true fresh k)
unfolding new_device init_winsize init_buffer
create_device_granted-Created g name type fresh k ps h on ne off ok =
    let d : Device = record (new_device g.device_count name type k) { next = g.device_list } in
    let there : update g.store fresh (some d) fresh ≡ some d = update_self g.store fresh (some d) in
    rw (create_device_granted g name type fresh k on ne ok) (record {
      status = refl;
      given = refl;
      device = d;
      held = there;
      fields = refl;
      named = λ i. name_of-name_char name i;
      valid = record { input = omega arith; output = omega arith };
      chain = (
        refl,
        ne,
        (
          g.device_list,
          ap next_field there,
          Chain-update g.store fresh g.device_list (some d) ps off h,
        ),
      );
      same = λ a m. update_ne g.store (some d) (ground arith);
      count = refl;
      initialized = refl;
    })

-- A creation that does not succeed gives no device and leaves memory, list and closed handles as they
-- were; but the count may stay one too high.
pub create_device_failed :
    (g : Subsystem) (name : Option (List ℕ)) (type : ℕ) (has_out : Bool) (fresh : Ptr) (k : Kernel)
    {s : NtStatus} {g' : Subsystem} {out : Option Ptr}
    → create_device g name type has_out fresh k ≡ (s, g', out)
    → s ≢ status_success
    → (out ≡ none)
      × (g'.store ≡ g.store)
      × (g'.device_list ≡ g.device_list)
      × (g'.closed ≡ g.closed)
      × ((g'.device_count ≡ g.device_count) ⊎ (g'.device_count ≡ u32 (g.device_count + 1)))
unfolding create_device
create_device_failed g name type false fresh k r bad = ground arith
create_device_failed g name type true fresh k r bad = ground arith

create_device-Allowed :
    (g : Subsystem) (name : Option (List ℕ)) (type : ℕ) (has_out : Bool) (fresh : Ptr) (k : Kernel)
    → (create_device g name type has_out fresh k).0 ≡ status_success
    → Allowed g has_out fresh k
unfolding create_device
create_device-Allowed g name type false fresh k ok = absurd (omega (arith, ok))
create_device-Allowed g name type true fresh k ok = record {
  wanted = refl;
  on = ground arith;
  memory = ground arith;
  granted = record {
    input_mutant = ground arith;
    output_mutant = ground arith;
    input_event = ground arith;
    output_event = ground arith;
  };
}

create_device-Refused :
    (g : Subsystem) (name : Option (List ℕ)) (type : ℕ) (has_out : Bool) (fresh : Ptr) (k : Kernel)
    → (create_device g name type has_out fresh k).0 ≢ status_success
    → Refused g (create_device g name type has_out fresh k)
create_device-Refused g name type has_out fresh k bad =
    let r = create_device g name type has_out fresh k in
    let kept =
      create_device_failed g name type has_out fresh k {s = r.0} {g' = r.1} {out = r.2} refl bad in
    record {
      status = bad;
      given = kept.0;
      store = kept.1;
      device_list = kept.2;
      closed = kept.3;
      count = kept.4;
    }

made :
    (g : Subsystem) (name : Option (List ℕ)) (type : ℕ) (has_out : Bool) (fresh : Ptr) (k : Kernel)
    (ps : List Ptr)
    → Chain g.store g.device_list ps
    → has fresh ps ≡ false
    → Allowed g has_out fresh k
    → Created g name fresh type k ps (create_device g name type has_out fresh k)
made g name type true fresh k ps h off all =
    create_device_granted-Created g name type fresh k ps h all.on all.memory off all.granted
made g name type false fresh k ps h off all = absurd (let w = all.wanted in cc)

-- For a chain of devices and an address that none of them has, a creation succeeds exactly if a place for
-- the result is given, the subsystem is initialised, there is memory and the four calls of the kernel that
-- are checked succeed. Then the new device stands in front of the list with every field as `fields` says: one
-- reference, the old count as its identifier, the name cut to 31 characters, the default settings and size
-- of the window, empty and valid buffers, the cooked discipline and the kernel's handles; the other devices
-- stay as they are and the count goes up by one. Else no device is given, and memory, list and closed
-- handles stay as they are, while the count may go up.
pub create_device-Created :
    (g : Subsystem) (name : Option (List ℕ)) (type : ℕ) (has_out : Bool) (fresh : Ptr) (k : Kernel)
    (ps : List Ptr)
    → Chain g.store g.device_list ps
    → has fresh ps ≡ false
    → (Allowed g has_out fresh k
        × Created g name fresh type k ps (create_device g name type has_out fresh k))
      ⊎ ((Allowed g has_out fresh k → ⊥) × Refused g (create_device g name type has_out fresh k))
create_device-Created g name type has_out fresh k ps h off =
    elim (ℕ_discrete (create_device g name type has_out fresh k).0 status_success) [
      | yes ok ↦
          let all = create_device-Allowed g name type has_out fresh k ok in
          inl (all, made g name type has_out fresh k ps h off all)
      | no bad ↦ inr (
        λ all. bad ((made g name type has_out fresh k ps h off all).status),
        create_device-Refused g name type has_out fresh k bad,
      )
    ]
