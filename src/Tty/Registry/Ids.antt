-- ===== src/Tty/Registry/Ids.antt =====
-- The identifiers that nttty/tty.c hands out are not unique.
use free_nt.Base.{
  [], ◌∷◌, suc, ◌+◌, ◌^◌, status_success, ℕ, ◌<◌, ◌≡◌, ◌≢◌, refl, sym, ap, ◌∙◌, true, false, Option,
  none, some, List, arith, length,
}
use free_nt.Tty.Types.{Device}
use free_nt.Tty.Registry.{Ptr, Store, Subsystem, Kernel, create_device, close_device}
use free_nt.Tty.Registry.Chain.{unplaced, Chain, has, remove, AllDistinct, SameOutside}
use free_nt.Tty.Registry.Close.{Closed, close_device-Closed}
use free_nt.Tty.Registry.Create.{Grants, create_device_granted-Created}

abbrev pub id_field : Option Device → Option ℕ
id_field none = none
id_field (some d) = some d.id

-- The identifier of the device at an address.
abbrev pub id_of : Store → Ptr → Option ℕ
id_of store a = id_field (store a)

id_field-unplaced : (o : Option Device) → id_field (unplaced o) ≡ id_field o
id_field-unplaced none = refl
id_field-unplaced (some d) = refl

id_of-keeps : (s t : Store) (a : Ptr) → unplaced (t a) ≡ unplaced (s a) → id_of t a ≡ id_of s a
id_of-keeps s t a e = sym (id_field-unplaced (t a)) ∙ ap id_field e ∙ id_field-unplaced (s a)

has-other : (p q : Ptr) (ps : List Ptr) → has q ps ≡ false → has p ps ≡ true → p ≢ q
has-other p q [] off there = absurd (cc)
has-other p q (x ∷ xs) off there = ground (arith, has-other p q xs)

-- The device at an address after a creation at another.
still_there :
    {s t : Store} (q p : Ptr) {d : Device}
    → SameOutside (q ∷ []) s t
    → p ≢ q
    → s p ≡ some d
    → t p ≡ some d
still_there q p same other held = same p (ground arith) ∙ held

-- The close returns, and after it a creation at `r` gives the device there the identifier `id`, which the
-- device at `q` has too.
pub record SharedId (name : Option (List ℕ)) (type : ℕ) (q r : Ptr) (k : Kernel) (id : ℕ)
    (closed : Option (ℕ × Subsystem)) : Type 0 where
  pub after : Subsystem
  pub returns : closed ≡ some (status_success, after)
  pub newer : id_of (create_device after name type true r k).1.store r ≡ some id
  pub older : id_of (create_device after name type true r k).1.store q ≡ some id

after_close :
    (g : Subsystem) (p q r : Ptr) (d e : Device) (ps : List Ptr) (name : Option (List ℕ)) (type : ℕ)
    (k : Kernel) (id : ℕ) (out : Option (ℕ × Subsystem))
    → Closed g p d ps out
    → g.initialized ≡ true
    → q ≢ p
    → r ≢ q
    → r ≢ 0
    → g.store q ≡ some e
    → e.id ≡ id
    → g.device_count ≡ id + 1
    → has r (remove p ps) ≡ false
    → Grants k
    → SharedId name type q r k id out
after_close g p q r d e ps name type k id out closed on other apart ne held same_id count off ok =
    let made =
      create_device_granted-Created closed.after name type r k (remove p ps) closed.chain
        (closed.initialized ∙ on) ne off ok in
    record {
      after = closed.after;
      returns = closed.returns;
      newer =
          ap id_field made.held
          ∙ ap some (ap (λ (x : Device). x.id) made.fields ∙ closed.count ∙ omega (arith, count));
      older =
          ap id_field (made.same q (ground arith))
          ∙ id_of-keeps g.store closed.after.store q (closed.keeps q other)
          ∙ ap id_field held
          ∙ ap some same_id;
    }

-- In an initialised subsystem of fewer than 2^32 - 1 devices whose list is a chain without
-- repetition, with all that the kernel is asked for granted and fuel above the length of the list
-- with the new device: create a device at the free address `q`, close a device at `p` that was in
-- the list before and has one reference, and create another at the free address `r`. The close
-- returns success, and both new devices stand in memory then with the same identifier, the count of
-- devices before the three calls.
pub id_taken_twice :
    (fuel : ℕ) (g : Subsystem) (p q r : Ptr) (d : Device) (ps : List Ptr)
    (name name' : Option (List ℕ)) (type type' : ℕ) (k k' : Kernel)
    → Chain g.store g.device_list ps
    → AllDistinct ps
    → has p ps ≡ true
    → p ≢ 0
    → g.store p ≡ some d
    → d.ref_count ≡ 1
    → g.initialized ≡ true
    → g.device_count + 1 < 2 ^ 32
    → q ≢ 0
    → has q ps ≡ false
    → Grants k
    → r ≢ 0
    → has r (remove p (q ∷ ps)) ≡ false
    → r ≢ q
    → Grants k'
    → suc (length ps) < fuel
    → SharedId name' type' q r k' g.device_count
        (close_device fuel (create_device g name type true q k).1 p)
id_taken_twice fuel g p q r d ps name name' type type' k k' h apart there ne held one on few q_ne
      q_off ok r_ne r_off r_q ok' enough =
    let made = create_device_granted-Created g name type q k ps h on q_ne q_off ok in
    let g' : Subsystem = (create_device g name type true q k).1 in
    let other : p ≢ q = has-other p q ps q_off there in
    let held' : g'.store p ≡ some d = still_there q p made.same other held in
    let closed =
      close_device-Closed fuel g' p d (q ∷ ps) made.chain (q_off, apart) (ground arith) ne held' one
        enough in
    after_close g' p q r d made.device (q ∷ ps) name' type' k' g.device_count _ closed
      (made.initialized ∙ on) (λ e. other (sym e)) r_q r_ne made.held
      (ap (λ (x : Device). x.id) made.fields) (made.count ∙ omega (arith, few)) r_off ok'
